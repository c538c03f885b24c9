-- ===== src/Hal/Pci/Target.antt =====
-- The places of PCI functions in dev/ZKAKit/HALKit/AMD64/PCI/Device.cc.
use zka.Common.{
  inl, inr, ◌⊎◌, or_bits-again, ◌/◌, ◌%◌, ◌⊎◌, inl, inr, ap, sym, or_bits-zero, or_bits-zero, ap,
  sym, ℕ, ◌+◌, ◌*◌, ◌%◌, ◌^◌, ◌<◌, ◌≡◌, refl, ◌∙◌, or_bits, or_bits-above, arith,
}
use zka.Hal.Pci.{target_of}

bus_bits :
    (bus : ℕ) → bus < 256 → or_bits 32 (2 ^ 31) (bus * 2 ^ 16 % 2 ^ 32) ≡ (2 ^ 15 + bus) * 2 ^ 16
bus_bits bus h =
    or_bits-above 31 1 1 (bus * 2 ^ 16 % 2 ^ 32) (omega arith) (omega arith) ∙ omega arith

device_bits :
    (a dev : ℕ)
    → a < 2 ^ 16
    → dev < 32
    → or_bits 32 (a * 2 ^ 16) (dev * 2 ^ 11 % 2 ^ 32) ≡ (a * 32 + dev) * 2 ^ 11
device_bits a dev h k = or_bits-above 16 16 a (dev * 2 ^ 11 % 2 ^ 32) (omega arith) h ∙ omega arith

function_bits :
    (a fun : ℕ)
    → a < 2 ^ 21
    → fun < 8
    → or_bits 32 (a * 2 ^ 11) (fun * 2 ^ 8 % 2 ^ 32) ≡ (a * 8 + fun) * 2 ^ 8
function_bits a fun h k = or_bits-above 11 21 a (fun * 2 ^ 8 % 2 ^ 32) (omega arith) h ∙ omega arith

register_bits : (a r : ℕ) → a < 2 ^ 24 → r < 256 → or_bits 32 (a * 2 ^ 8) r ≡ a * 2 ^ 8 + r
register_bits a r h k = or_bits-above 8 24 a r k h

pub target_of-sum :
    (r bus dev fun : ℕ)
    → r < 256
    → bus < 256
    → dev < 32
    → fun < 8
    → target_of r bus dev fun ≡ 2 ^ 31 + bus * 2 ^ 16 + dev * 2 ^ 11 + fun * 2 ^ 8 + r
unfolding target_of
target_of-sum r bus dev fun h i j k =
    rw
      (
        bus_bits bus i,
        device_bits (2 ^ 15 + bus) dev (omega arith) j,
        function_bits ((2 ^ 15 + bus) * 32 + dev) fun (omega arith) k,
        register_bits (((2 ^ 15 + bus) * 32 + dev) * 8 + fun) r (omega arith) h,
      )
      (omega arith)

-- For a bus below 256, a device below 32, a function below 8 and a register below 256, the place
-- that is written to the address port has bit 31 set and gives each of the four back from its own
-- bits.
pub target_of-fields :
    (r bus dev fun : ℕ)
    → r < 256
    → bus < 256
    → dev < 32
    → fun < 8
    → (target_of r bus dev fun / 2 ^ 31 ≡ 1)
      × (target_of r bus dev fun / 2 ^ 16 % 2 ^ 8 ≡ bus)
      × (target_of r bus dev fun / 2 ^ 11 % 2 ^ 5 ≡ dev)
      × (target_of r bus dev fun / 2 ^ 8 % 2 ^ 3 ≡ fun)
      × (target_of r bus dev fun % 2 ^ 8 ≡ r)
target_of-fields r bus dev fun h i j k =
    rw (target_of-sum r bus dev fun h i j k)
      (omega arith, omega arith, omega arith, omega arith, omega arith)

-- The place of the device behind the last one, up to its function.
even_bus :
    (m : ℕ) → m < 128 → or_bits 32 ((2 ^ 14 + m) * 2 ^ 17) (2 ^ 16) ≡ (2 ^ 14 + m) * 2 ^ 17 + 2 ^ 16
even_bus m h = or_bits-above 17 15 (2 ^ 14 + m) (2 ^ 16) (omega arith) (omega arith)

odd_bus :
    (m : ℕ)
    → m < 128
    → or_bits 32 ((2 ^ 14 + m) * 2 ^ 17 + 2 ^ 16) (2 ^ 16) ≡ (2 ^ 14 + m) * 2 ^ 17 + 2 ^ 16
odd_bus m h =
    ap (λ (a : ℕ). or_bits 32 a (2 ^ 16)) (sym (even_bus m h))
    ∙ or_bits-again 32 ((2 ^ 14 + m) * 2 ^ 17) (2 ^ 16)
    ∙ even_bus m h

device_32 :
    (bus : ℕ)
    → bus < 256
    → or_bits 32 ((2 ^ 15 + bus) * 2 ^ 16) (2 ^ 16) ≡ (2 ^ 15 + (bus / 2 * 2 + 1)) * 2 ^ 16
device_32 bus h = elim (parity bus) [
  | inl e ↦
      ap (λ (a : ℕ). or_bits 32 a (2 ^ 16)) (omega (arith, e))
      ∙ even_bus (bus / 2) (omega arith)
      ∙ omega arith
  | inr e ↦
      ap (λ (a : ℕ). or_bits 32 a (2 ^ 16)) (omega (arith, e))
      ∙ odd_bus (bus / 2) (omega arith)
      ∙ omega arith
]
  where
    parity : (n : ℕ) → (n % 2 ≡ 0) ⊎ (n % 2 ≡ 1)
    parity n = ground arith

-- The device with the number 32 stands where device 0 of an odd bus does.
pub target_of-aliased :
    (r bus fun : ℕ) → bus < 256 → target_of r bus 32 fun ≡ target_of r (bus / 2 * 2 + 1) 0 fun
unfolding target_of
target_of-aliased r bus fun h =
    rw
      (
        bus_bits bus h,
        device_32 bus h,
        bus_bits (bus / 2 * 2 + 1) (omega arith),
        or_bits-zero 32 ((2 ^ 15 + (bus / 2 * 2 + 1)) * 2 ^ 16) (omega arith),
      )
      refl
