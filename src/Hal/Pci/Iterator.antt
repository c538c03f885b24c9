-- ===== src/Hal/Pci/Iterator.antt =====
-- What Iterator::Iterator of dev/ZKAKit/HALKit/AMD64/PCI/Iterator.cc keeps of each bus.
use zka.Common.{
  ◌*◌, ◌/◌, ◌%◌, ◌^◌, ◌==◌, if◌then◌else◌, Bool-cases, ==_iff, Option, some, ℕ, zero, suc, ◌+◌, ◌<◌,
  ◌≤◌, ◌≡◌, ◌⊎◌, refl, ap, ◌∙◌, sym, inl, inr, true, none, is_some, arith,
}
use zka.Hal.Pci.Target.{target_of-sum, target_of-aliased}
use zka.Hal.Pci.{
  Device, target_of, Ports, Probed, probe, function_loop, device_loop, bus_loop, iterator,
}
use zka.Hal.Pci.Probe.{
  IsConfig, class_in, at_place, IsKept, IsGood, Extends, probe-Extends, probe-is_some,
}

-- The first index of a range, or a later one.
first_or_later : (a n i : ℕ) → a ≤ i → i < a + suc n → (i ≡ a) ⊎ ((a + 1 ≤ i) × (i < a + 1 + n))
first_or_later a n i h k = ground arith

module _ (p : Ports) (config : p.State → ℕ → ℕ) (law : IsConfig p config) (c : ℕ → ℕ)
    (kind : ℕ) where
  abbrev Good : Probed p → Type 0
  Good = IsGood p config law c kind

  abbrev Grows : Probed p → Probed p → Type 0
  Grows = Extends p config law c kind

  Grows-trans : (q r t : Probed p) → Grows q r → Grows r t → Grows q t
  Grows-trans q r t f g = record { good = g.good; more = λ b h. g.more b (f.more b h) }

  function_loop-Grows :
      (n bus dev fun : ℕ) (q : Probed p)
      → dev < 33
      → fun + n ≤ 8
      → Good q
      → Grows q (function_loop p n kind bus dev fun q)
  unfolding function_loop
  function_loop-Grows zero bus dev fun q i j h = record { good = h; more = λ b k. k }
  function_loop-Grows (suc n) bus dev fun q i j h =
      let one = probe-Extends p config law c kind bus dev fun q i (omega arith) h in
      let r = probe p kind bus dev fun q in
      Grows-trans q r _ one (function_loop-Grows n bus dev (fun + 1) r i (omega arith) one.good)

  function_loop-is_some :
      (n bus dev fun f : ℕ) (q : Probed p)
      → dev < 33
      → fun + n ≤ 8
      → Good q
      → fun ≤ f
      → f < fun + n
      → class_in c (at_place bus dev f) ≡ kind
      → is_some ((function_loop p n kind bus dev fun q).0 bus) ≡ true
  unfolding function_loop
  function_loop-is_some zero bus dev fun f q i j h a b k = absurd (omega (arith, a, b))
  function_loop-is_some (suc n) bus dev fun f q i j h a b k =
      let one = probe-Extends p config law c kind bus dev fun q i (omega arith) h in
      let r = probe p kind bus dev fun q in
      elim (first_or_later fun n f a b) [
        | inl e ↦ (function_loop-Grows n bus dev (fun + 1) r i (omega arith) one.good).more bus (
            probe-is_some p config law c kind bus dev fun q h
              (ap (λ (x : ℕ). class_in c (at_place bus dev x)) (sym e) ∙ k))
        | inr l ↦ function_loop-is_some n bus dev (fun + 1) f r i (omega arith) one.good l.0 l.1 k
      ]

  device_loop-Grows :
      (n bus dev : ℕ) (q : Probed p)
      → dev + n ≤ 33
      → Good q
      → Grows q (device_loop p n kind bus dev q)
  unfolding device_loop
  device_loop-Grows zero bus dev q i h = record { good = h; more = λ b k. k }
  device_loop-Grows (suc n) bus dev q i h =
      let one = function_loop-Grows 8 bus dev 0 q (omega arith) (omega arith) h in
      let r = function_loop p 8 kind bus dev 0 q in
      Grows-trans q r _ one (device_loop-Grows n bus (dev + 1) r (omega arith) one.good)

  device_loop-is_some :
      (n bus dev e f : ℕ) (q : Probed p)
      → dev + n ≤ 33
      → Good q
      → dev ≤ e
      → e < dev + n
      → f < 8
      → class_in c (at_place bus e f) ≡ kind
      → is_some ((device_loop p n kind bus dev q).0 bus) ≡ true
  unfolding device_loop
  device_loop-is_some zero bus dev e f q i h a b l k = absurd (omega (arith, a, b))
  device_loop-is_some (suc n) bus dev e f q i h a b l k =
      let one = function_loop-Grows 8 bus dev 0 q (omega arith) (omega arith) h in
      let r = function_loop p 8 kind bus dev 0 q in
      elim (first_or_later dev n e a b) [
        | inl s ↦ (device_loop-Grows n bus (dev + 1) r (omega arith) one.good).more bus (
            function_loop-is_some 8 bus dev 0 f q (omega arith) (omega arith) h (omega arith)
              (omega arith) (ap (λ (x : ℕ). class_in c (at_place bus x f)) (sym s) ∙ k))
        | inr s ↦ device_loop-is_some n bus (dev + 1) e f r (omega arith) one.good s.0 s.1 l k
      ]

  bus_loop-Grows : (n bus : ℕ) (q : Probed p) → Good q → Grows q (bus_loop p n kind bus q)
  unfolding bus_loop
  bus_loop-Grows zero bus q h = record { good = h; more = λ b k. k }
  bus_loop-Grows (suc n) bus q h =
      let one = device_loop-Grows 33 bus 0 q (omega arith) h in
      let r = device_loop p 33 kind bus 0 q in
      Grows-trans q r _ one (bus_loop-Grows n (bus + 1) r one.good)

  bus_loop-is_some :
      (n bus b e f : ℕ) (q : Probed p)
      → Good q
      → bus ≤ b
      → b < bus + n
      → e < 33
      → f < 8
      → class_in c (at_place b e f) ≡ kind
      → is_some ((bus_loop p n kind bus q).0 b) ≡ true
  unfolding bus_loop
  bus_loop-is_some zero bus b e f q h a l i j k = absurd (omega (arith, a, l))
  bus_loop-is_some (suc n) bus b e f q h a l i j k =
      let one = device_loop-Grows 33 bus 0 q (omega arith) h in
      let r = device_loop p 33 kind bus 0 q in
      elim (first_or_later bus n b a l) [
        | inl s ↦ rw s (
            (bus_loop-Grows n (bus + 1) r one.good).more bus (
              device_loop-is_some 33 bus 0 e f q (omega arith) h (omega arith) i j
                (ap (λ (x : ℕ). class_in c (at_place x e f)) (sym s) ∙ k)))
        | inr s ↦ bus_loop-is_some n (bus + 1) b e f r one.good s.0 s.1 i j k
      ]

-- The class, from its bits in the register at 8 of a function of a device on a bus.
abbrev pub class_at : (ℕ → ℕ) → (bus dev fun : ℕ) → ℕ
class_at c bus dev fun = c (2 ^ 31 + bus * 2 ^ 16 + dev * 2 ^ 11 + fun * 2 ^ 8 + 8) / 2 ^ 24 % 2 ^ 8

-- Where the numbers that are asked for stand: the number 32 is device 0 of the odd bus of the two.
abbrev pub class_of : (ℕ → ℕ) → (bus dev fun : ℕ) → ℕ
class_of c bus dev fun =
    if dev == 32 then class_at c (bus / 2 * 2 + 1) 0 fun else class_at c bus dev fun

class_in-class_of :
    (c : ℕ → ℕ) (bus dev fun : ℕ)
    → bus < 256
    → dev < 33
    → fun < 8
    → class_in c (at_place bus dev fun) ≡ class_of c bus dev fun
class_in-class_of c bus dev fun h i j = elim (Bool-cases (dev == 32)) [
  | inl e ↦ rw e (
      ap class (
        ap (λ (x : ℕ). target_of 8 bus x fun) ((==_iff dev 32).0 e)
        ∙ target_of-aliased 8 bus fun h
        ∙ target_of-sum 8 (bus / 2 * 2 + 1) 0 fun (omega arith) (omega arith) (omega arith) j))
  | inr e ↦ rw e (ap class (target_of-sum 8 bus dev fun (omega arith) h (ground arith) j))
]
  where
    class : ℕ → ℕ
    class t = c t / 2 ^ 24 % 2 ^ 8

-- Nothing, or a device that was asked for on the bus, with the kind's class at its place.
abbrev pub IsEntry : (ℕ → ℕ) → (kind bus : ℕ) → Option Device → Type 0
IsEntry c kind bus none = Unit
IsEntry c kind bus (some d) =
    (d.bus ≡ bus) × (d.device < 33) × (d.function < 8) × (class_of c bus d.device d.function ≡ kind)

IsKept-IsEntry :
    (c : ℕ → ℕ) (kind bus : ℕ) (o : Option Device)
    → bus < 256
    → IsKept c kind bus o
    → IsEntry c kind bus o
IsKept-IsEntry c kind bus none h k = tt
IsKept-IsEntry c kind bus (some d) h k = (
  k.own_bus,
  k.number,
  k.part,
  sym (class_in-class_of c bus d.device d.function h k.number k.part)
      ∙ ap (λ (b : ℕ). class_in c (at_place b d.device d.function)) (sym k.own_bus)
      ∙ k.class,
)

-- On a machine whose configuration is read at the places that are asked for and stays, the
-- iterator's entry for each of the 256 buses is none, or has this bus, one of the 33 numbers and
-- one of the eight functions that are asked for, with the kind's class at its place; and there is
-- an entry if any of them has the kind's class there. The place of a number below 32 is that device
-- of the bus, and the place of the number 32 is device 0 of the odd one of the bus and its
-- neighbour, so the entry of an even bus may be a device of the next bus.
pub iterator-cases :
    (p : Ports) (config : p.State → ℕ → ℕ) (kind : ℕ) (s : p.State) (bus : ℕ)
    → IsConfig p config
    → bus < 256
    → IsEntry (config s) kind bus ((iterator p kind s).0 bus)
      × ((e f : ℕ)
          → e < 33
          → f < 8
          → class_of (config s) bus e f ≡ kind
          → is_some ((iterator p kind s).0 bus) ≡ true)
unfolding iterator
iterator-cases p config kind s bus law h =
    let start : Probed p = (λ b. none, s) in
    let c = config s in
    let good : IsGood p config law c kind start = record { steady = λ u. refl; sound = λ b. tt } in
    (
      IsKept-IsEntry c kind bus _ h
          ((bus_loop-Grows p config law c kind 256 0 start good).good.sound bus),
      λ e f i j k.
          bus_loop-is_some p config law c kind 256 0 bus e f start good (omega arith) h i j
            (class_in-class_of c bus e f h i j ∙ k),
    )
