-- ===== src/Common/Bits.antt =====
-- C's `|` and `&` on the lowest `w` bits.
use Prim.Native.Nat.{ℕ, zero, suc, ◌+◌, ◌-◌, ◌*◌, ◌/◌, ◌%◌, ◌^◌, ◌<◌}
use mathlib.Core.Path.{◌≡◌, refl}
use mathlib.Core.Logic.{◌≢◌}
use mathlib.Core.Bool.{Bool, true, false, not}
use mathlib.Core.Logic.{inl, inr}
use native.Mathlib.Nat.{zero-add, mul-one, pow-succ'}
use native.Mathlib.Omega.{arith}
use zka.Common.Tests.{Bool-cases, ◌==◌, if◌then◌else◌}

unfoldable pub or_bits : ℕ → ℕ → ℕ → ℕ
or_bits zero a b = 0
or_bits (suc w) a b = (if a % 2 == 1 then 1 else b % 2) + 2 * or_bits w (a / 2) (b / 2)

unfoldable pub and_bits : ℕ → ℕ → ℕ → ℕ
and_bits zero a b = 0
and_bits (suc w) a b = (if a % 2 == 1 then b % 2 else 0) + 2 * and_bits w (a / 2) (b / 2)

-- `a & b` as a condition.
unfoldable pub any_bits : ℕ → ℕ → ℕ → Bool
unfolding and_bits
any_bits w a b = not (and_bits w a b == 0)

-- What `b` has in common with a mask, `a | b` has.
and_bits-or_bits : (w a b mask : ℕ) → and_bits w (or_bits w a b) mask ≡ 0 → and_bits w b mask ≡ 0
unfolding or_bits and_bits
and_bits-or_bits zero a b mask h = refl
and_bits-or_bits (suc w) a b mask h = ground (arith, and_bits-or_bits w (a / 2) (b / 2) (mask / 2))

pub any_bits-or_bits :
    (w a b mask : ℕ) → any_bits w b mask ≡ true → any_bits w (or_bits w a b) mask ≡ true
unfolding any_bits
any_bits-or_bits w a b mask h = elim (Bool-cases (and_bits w (or_bits w a b) mask == 0)) [
  | inl e ↦ absurd (ground (arith, and_bits-or_bits w a b mask (ground arith), h))
  | inr e ↦ rw e refl
]

and_bits-or_bits_left :
    (w a b mask : ℕ) → and_bits w (or_bits w a b) mask ≡ 0 → and_bits w a mask ≡ 0
unfolding or_bits and_bits
and_bits-or_bits_left zero a b mask h = refl
and_bits-or_bits_left (suc w) a b mask h =
    ground (arith, and_bits-or_bits_left w (a / 2) (b / 2) (mask / 2))

pub any_bits-or_bits_left :
    (w a b mask : ℕ) → any_bits w a mask ≡ true → any_bits w (or_bits w a b) mask ≡ true
unfolding any_bits
any_bits-or_bits_left w a b mask h = elim (Bool-cases (and_bits w (or_bits w a b) mask == 0)) [
  | inl e ↦ absurd (ground (arith, and_bits-or_bits_left w a b mask (ground arith), h))
  | inr e ↦ rw e refl
]

pub or_bits_lt : (w a b : ℕ) → or_bits w a b < 2 ^ w
unfolding or_bits
or_bits_lt zero a b = omega arith
or_bits_lt (suc w) a b = ground (arith, or_bits_lt w (a / 2) (b / 2))

-- Shifted numbers: what stands below does not meet what stands above.
pow_twice : (k : ℕ) → 2 ^ suc k ≡ 2 * 2 ^ k
pow_twice k = pow-succ' 2 k

even_step : (m : ℕ) → ((2 * m) % 2 ≡ 0) × ((2 * m) / 2 ≡ m)
even_step m = (omega arith, omega arith)

pub or_bits-zero : (w a : ℕ) → a < 2 ^ w → or_bits w a 0 ≡ a
unfolding or_bits
or_bits-zero zero a h = omega arith
or_bits-zero (suc w) a h = ground (arith, or_bits-zero w (a / 2), pow_twice w)

or_bits-even : (w m b : ℕ) → or_bits (suc w) (2 * m) b ≡ b % 2 + 2 * or_bits w m (b / 2)
unfolding or_bits
or_bits-even w m b = rw ((even_step m).0, (even_step m).1) refl

twice_shifted : (k a : ℕ) → a * 2 ^ suc k ≡ 2 * (a * 2 ^ k)
twice_shifted k a = rw (pow_twice k) (grind arith)

suc-plus : (k w : ℕ) → suc k + w ≡ suc (k + w)
suc-plus k w = omega arith

half_lt : (k b : ℕ) → b < 2 ^ suc k → b / 2 < 2 ^ k
half_lt k b h = ground (arith, pow_twice k)

pub or_bits-above :
    (k w a b : ℕ) → b < 2 ^ k → a < 2 ^ w → or_bits (k + w) (a * 2 ^ k) b ≡ a * 2 ^ k + b
or_bits-above zero w a b h l =
    rw (no_bits, mul-one a, zero-add w) (ground (arith, or_bits-zero w a l))
  where
    no_bits : b ≡ 0
    no_bits = omega arith
or_bits-above (suc k) w a b h l =
    rw
      (
        twice_shifted k a,
        suc-plus k w,
        or_bits-even (k + w) (a * 2 ^ k) b,
        or_bits-above k w a (b / 2) (half_lt k b h) l,
      )
      (omega arith)

-- A number is what it has in common with a mask and with the mask's complement.
complement_step :
    (w m : ℕ)
    → m < 2 ^ suc w
    → ((2 ^ suc w - 1 - m) % 2 ≡ 1 - m % 2) × ((2 ^ suc w - 1 - m) / 2 ≡ 2 ^ w - 1 - m / 2)
complement_step w m h = (omega (arith, pow_twice w, h), omega (arith, pow_twice w, h))

pub and_bits-complement :
    (w a m : ℕ) → a < 2 ^ w → m < 2 ^ w → and_bits w a m + and_bits w a (2 ^ w - 1 - m) ≡ a
unfolding and_bits
and_bits-complement zero a m h k = omega arith
and_bits-complement (suc w) a m h k =
    rw ((complement_step w m k).0, (complement_step w m k).1)
      (ground (arith, and_bits-complement w (a / 2) (m / 2) (half_lt w a h) (half_lt w m k)))

pub any_bits-complement :
    (w a m : ℕ)
    → a < 2 ^ w
    → m < 2 ^ w
    → a ≢ 0
    → any_bits w a m ≡ false
    → any_bits w a (2 ^ w - 1 - m) ≡ true
unfolding any_bits
any_bits-complement w a m h k n e = ground (arith, and_bits-complement w a m h k, n, e)

-- A bit that is set twice.
pub or_bits-again : (w a b : ℕ) → or_bits w (or_bits w a b) b ≡ or_bits w a b
unfolding or_bits
or_bits-again zero a b = refl
or_bits-again (suc w) a b = ground (arith, or_bits-again w (a / 2) (b / 2))
