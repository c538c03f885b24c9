-- ===== src/Services/Ip/Address.antt =====
-- The comparisons of addresses.
use zka.Common.{ℕ, ◌<◌, ◌≡◌, ◌≢◌, ◌↔◌, ◌∙◌, arith, true, List, length, length-replicate, replicate}
use zka.NewKit.Utils.{at}
use zka.NewKit.Utils.Copy.{copy_memory-at}
use zka.NewKit.Utils.Text.{Agree-equals_loop, equals_loop-Agree}
use zka.NewKit.String.Compare.{Differ-differ_loop, differ_loop-Differ}
use zka.Services.Ip.{address, address_equal, address_differ}

-- Two addresses are equal to operator== exactly when all their bytes are; they differ to operator!=
-- exactly when all their bytes differ.
pub address_equal_iff :
    (size : ℕ) (a b : List ℕ)
    → ((address_equal size a b ≡ true) ↔ ((k : ℕ) → k < size → at a k ≡ at b k))
      × ((address_differ size a b ≡ true) ↔ ((k : ℕ) → k < size → at a k ≢ at b k))
unfolding address_equal address_differ
address_equal_iff size a b = (
  (
    (λ e k h. Agree-equals_loop size 0 a b e k (omega arith) (omega arith)),
    λ same. equals_loop-Agree size 0 a b (λ k lo hi. same k (omega arith)),
  ),
  (
    (λ e k h. Differ-differ_loop size 0 a b e k (omega arith) (omega arith)),
    λ other. differ_loop-Differ size 0 a b (λ k lo hi. other k (omega arith)),
  ),
)

-- An address that is made of some bytes is equal to them, whatever stands behind them.
pub address_equal-address :
    (size : ℕ) (bytes : List ℕ) → address_equal size (address size bytes) bytes ≡ true
unfolding address
address_equal-address size bytes = (address_equal_iff size (address size bytes) bytes).0.1 λ k h.
    let fits : k < length (replicate size 0) = ground (arith, length-replicate {A = ℕ} size 0) in
    (copy_memory-at bytes (replicate size 0) size k fits).0 ∙ ground arith
