-- ===== src/Hal/Pci/Probe.antt =====
-- One round of the loops of dev/ZKAKit/HALKit/AMD64/PCI/Iterator.cc, on a machine whose configuration stays.
use zka.Common.{
  ℕ, ◌/◌, ◌%◌, ◌^◌, ◌≡◌, ◌<◌, refl, ◌∙◌, sym, inl, inr, true, Option, none, some, is_some, ◌==◌,
  update, eq-test, Bool-cases, ==_iff,
}
use zka.Hal.Pci.{
  Ports, config_address, config_data, Device, target_of, low_register, read_raw, class_code, Probed,
  probe,
}

-- The configuration of the machine: what is read of a place, and no such read changes it.
pub record IsConfig (p : Ports) (config : p.State → ℕ → ℕ) : Type 0 where
  pub reads :
      (s : p.State) (t : ℕ) → (p.in32 (p.out32 s config_address t) config_data).0 ≡ config s t
  pub keeps :
      (s : p.State) (t u : ℕ)
      → config (p.in32 (p.out32 s config_address t) config_data).1 u ≡ config s u

-- A device's class in a configuration.
abbrev pub class_in : (ℕ → ℕ) → Device → ℕ
class_in config d = config (target_of (low_register 8) d.bus d.device d.function) / 2 ^ 24 % 2 ^ 8

abbrev pub at_place : ℕ → ℕ → ℕ → Device
at_place bus dev fun = record { bus = bus; device = dev; function = fun; bar = 0 }

-- A device that was asked for on a bus and is of the kind.
pub record IsAsked (c : ℕ → ℕ) (kind bus : ℕ) (d : Device) : Type 0 where
  pub own_bus : d.bus ≡ bus
  pub number : d.device < 33
  pub part : d.function < 8
  pub class : class_in c d ≡ kind

-- What a bus keeps: nothing, or a device that was asked for on it.
abbrev pub IsKept : (ℕ → ℕ) → ℕ → ℕ → Option Device → Type 0
IsKept c kind bus none = Unit
IsKept c kind bus (some d) = IsAsked c kind bus d

module _ (p : Ports) (config : p.State → ℕ → ℕ) (law : IsConfig p config) (c : ℕ → ℕ)
    (kind : ℕ) where
  -- The configuration is still the one, and every device that is kept is of the kind, on its bus.
  pub record IsGood (q : Probed p) : Type 0 where
    pub steady : (u : ℕ) → config q.1 u ≡ c u
    pub sound : (b : ℕ) → IsKept c kind b (q.0 b)

  -- `q'` keeps a device wherever `q` does, and is good.
  pub record Extends (q q' : Probed p) : Type 0 where
    pub good : IsGood q'
    pub more : (b : ℕ) → is_some (q.0 b) ≡ true → is_some (q'.0 b) ≡ true

  class_code-class_in :
      (q : Probed p) (d : Device) → IsGood q → (class_code p d q.1).0 ≡ class_in c d
  unfolding class_code read_raw
  class_code-class_in q d h =
      rw
        (
          law.reads q.1 (target_of (low_register 8) d.bus d.device d.function),
          h.steady (target_of (low_register 8) d.bus d.device d.function),
        )
        refl

  class_code-steady :
      (q : Probed p) (d : Device) (u : ℕ) → IsGood q → config (class_code p d q.1).1 u ≡ c u
  unfolding class_code read_raw
  class_code-steady q d u h = law.keeps q.1 _ u ∙ h.steady u

  put_over-IsKept :
      (ds : ℕ → Option Device) (e : Device)
      → ((b : ℕ) → IsKept c kind b (ds b))
      → IsAsked c kind e.bus e
      → (b : ℕ) → IsKept c kind b (update ds e.bus (some e) b)
  put_over-IsKept ds e h k b = elim (Bool-cases (b == e.bus)) [
    | inl same ↦ rw same (record {
      own_bus = sym ((==_iff b e.bus).0 same);
      number = k.number;
      part = k.part;
      class = k.class;
    })
    | inr other ↦ rw other (h b)
  ]

  put_over-is_some :
      (ds : ℕ → Option Device) (a : ℕ) (e : Device) (b : ℕ)
      → is_some (ds b) ≡ true
      → is_some (update ds a (some e) b) ≡ true
  put_over-is_some ds a e b h = elim (Bool-cases (b == a)) [
    | inl same ↦ rw same refl
    | inr other ↦ rw other h
  ]

  pub probe-Extends :
      (bus dev fun : ℕ) (q : Probed p)
      → dev < 33
      → fun < 8
      → IsGood q
      → Extends q (probe p kind bus dev fun q)
  unfolding probe
  probe-Extends bus dev fun q i j h =
      let d : Device = at_place bus dev fun in
      let v = class_code-class_in q d h in
      elim (Bool-cases ((class_code p d q.1).0 == kind)) [
        | inl e ↦ rw e (record {
          good = record {
            steady = λ u. class_code-steady q d u h;
            sound = put_over-IsKept q.0 d h.sound (record {
              own_bus = refl;
              number = i;
              part = j;
              class = sym v ∙ (==_iff _ kind).0 e;
            });
          };
          more = λ b. put_over-is_some q.0 bus d b;
        })
        | inr e ↦ rw e (record {
          good = record { steady = λ u. class_code-steady q d u h; sound = h.sound };
          more = λ b k. k;
        })
      ]

  pub probe-is_some :
      (bus dev fun : ℕ) (q : Probed p)
      → IsGood q
      → class_in c (at_place bus dev fun) ≡ kind
      → is_some ((probe p kind bus dev fun q).0 bus) ≡ true
  unfolding probe
  probe-is_some bus dev fun q h k =
      let v = class_code-class_in q (at_place bus dev fun) h in
      rw (eq-test _ kind (v ∙ k), eq-test bus bus refl) refl
