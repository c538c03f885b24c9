-- ===== src/Hal/Acpi/Sum.antt =====
-- The sum that Checksum of dev/ZKAKit/src/ACPIFactoryInterface.cc makes.
use zka.Common.{neq-test, ℕ, zero, suc, ◌+◌, ◌%◌, ◌≡◌, ◌↔◌, refl, ◌∙◌, true, List, arith}
use zka.NewKit.Utils.{at}
use zka.Hal.Acpi.{sum_loop, checksum}

-- The sum of `n` bytes from an index on.
unfoldable pub sum_from : ℕ → ℕ → List ℕ → ℕ
sum_from zero i s = 0
sum_from (suc n) i s = at s i + sum_from n (i + 1) s

sum_loop-sum_from :
    (n i : ℕ) (s : List ℕ) (chr : ℕ)
    → chr % 256 ≡ chr
    → sum_loop n i s chr ≡ (chr + sum_from n i s) % 256
unfolding sum_loop sum_from
sum_loop-sum_from zero i s chr h = omega (arith, h)
sum_loop-sum_from (suc n) i s chr h =
    sum_loop-sum_from n (i + 1) s ((chr + at s i) % 256) (omega arith) ∙ omega arith

no_bytes : (s : List ℕ) → sum_from 0 0 s % 256 ≡ 0
unfolding sum_from
no_bytes s = refl

-- Checksum says true exactly when the bytes add up to a multiple of 256.
pub checksum-sum_from_iff :
    (s : List ℕ) (len : ℕ) → (checksum s len ≡ true) ↔ (sum_from len 0 s % 256 ≡ 0)
unfolding checksum
checksum-sum_from_iff s zero = (λ h. no_bytes s, λ h. refl)
checksum-sum_from_iff s (suc n) =
    let e = sum_loop-sum_from (suc n) 0 s 0 refl in
    rw (neq-test (suc n) 0 (λ h. omega (arith, h)), e) (ground arith)
