-- ===== src/NewKit/Utils/Text.antt =====
-- rt_string_len, rt_string_cmp and rt_string_in_string of dev/ZKAKit/src/Utils.cc against what C's
-- strings mean, and StringBuilder::Equals of dev/ZKAKit/src/KString.cc.
use zka.Common.{
  ℕ, zero, suc, ◌+◌, ◌≤◌, ◌<◌, ◌≡◌, refl, sym, ◌≢◌, ◌↔◌, inl, inr, true, some, List, [], ◌∷◌, arith,
  ◌==◌, Bool-cases, ltb,
}
use zka.NewKit.Utils.{at, run_length, string_len, string_cmp_loop, string_cmp, equals_loop, equals}

pub at-run_length : (s : List ℕ) → at s (run_length s) ≡ 0
at-run_length [] = refl
at-run_length (c ∷ s) = ground (arith, at-run_length s)

pub run_length_ne : (s : List ℕ) (i : ℕ) → i < run_length s → at s i ≢ 0
run_length_ne [] i h = elim h [ ]
run_length_ne (c ∷ s) zero h = ground arith
run_length_ne (c ∷ s) (suc i) h = ground (arith, run_length_ne s i)

-- The length of a string that begins with no NUL is the index of its first NUL: a NUL stands there,
-- and at no index below.
pub string_len-first_nul :
    (s : List ℕ) (i : ℕ) → at s 0 ≢ 0 → i < string_len s → (at s (string_len s) ≡ 0) × (at s i ≢ 0)
unfolding string_len
string_len-first_nul [] i h k = absurd (h refl)
string_len-first_nul (c ∷ s) zero h k = (at-run_length s, h)
string_len-first_nul (c ∷ s) (suc i) h k = (at-run_length s, run_length_ne s i (omega arith))

pub at-string_len : (s : List ℕ) → at s 0 ≢ 0 → at s (string_len s) ≡ 0
unfolding string_len
at-string_len [] h = refl
at-string_len (c ∷ s) h = at-run_length s

string_len_le : (s : List ℕ) (n : ℕ) → at s 0 ≢ 0 → at s n ≡ 0 → string_len s ≤ n
string_len_le s n h e = elim (Bool-cases (ltb n (string_len s))) [
  | inl k ↦ absurd ((string_len-first_nul s n h (ground arith)).1 e)
  | inr k ↦ ground arith
]

-- Where the first NUL stands decides the length.
pub string_len-first :
    (s : List ℕ) (n : ℕ)
    → at s 0 ≢ 0
    → at s n ≡ 0
    → ((i : ℕ) → i < n → at s i ≢ 0)
    → string_len s ≡ n
string_len-first s n h e all = elim (Bool-cases (ltb (string_len s) n)) [
  | inl k ↦ absurd (all (string_len s) (ground arith) (at-string_len s h))
  | inr k ↦ ground (arith, string_len_le s n h e)
]

-- No string has length 0, not even the empty one: behind its NUL the count goes on.
pub string_len_pos : (s : List ℕ) → 0 < string_len s
unfolding string_len
string_len_pos [] = omega arith
string_len_pos (c ∷ s) = omega arith

abbrev pub Agree : List ℕ → List ℕ → ℕ → ℕ → Type 0
Agree s t i n = (k : ℕ) → i ≤ k → k < i + n → at s k ≡ at t k

Agree-next : (s t : List ℕ) (i n : ℕ) → Agree s t i (suc n) → Agree s t (i + 1) n
Agree-next s t i n a k lo hi = a k (omega arith) (omega arith)

Agree-cons : (s t : List ℕ) (i n : ℕ) → at s i ≡ at t i → Agree s t (i + 1) n → Agree s t i (suc n)
Agree-cons s t i n e a k lo hi = elim (Bool-cases (k == i)) [
  | inl same ↦ ground arith
  | inr other ↦ a k (ground arith) (omega arith)
]

pub string_cmp_loop-Agree : (n i : ℕ) (s t : List ℕ) → Agree s t i n → string_cmp_loop n i s t ≡ 0
unfolding string_cmp_loop
string_cmp_loop-Agree zero i s t a = refl
string_cmp_loop-Agree (suc n) i s t a = ground (
  arith,
  string_cmp_loop-Agree n (i + 1) s t (Agree-next s t i n a),
  a i (omega arith) (omega arith),
)

pub Agree-string_cmp_loop : (n i : ℕ) (s t : List ℕ) → string_cmp_loop n i s t ≡ 0 → Agree s t i n
unfolding string_cmp_loop
Agree-string_cmp_loop zero i s t e = λ k lo hi. absurd (omega arith)
Agree-string_cmp_loop (suc n) i s t e =
    Agree-cons s t i n (ground arith) (Agree-string_cmp_loop n (i + 1) s t (ground arith))

-- rt_string_cmp of two pointers that are not null is 0 exactly when the first `size` bytes agree.
pub string_cmp_iff :
    (s t : List ℕ) (size : ℕ)
    → (string_cmp (some s) (some t) size ≡ 0) ↔ ((k : ℕ) → k < size → at s k ≡ at t k)
unfolding string_cmp
string_cmp_iff s t size = (
  (λ e k h. Agree-string_cmp_loop size 0 s t e k (omega arith) (omega arith)),
  (λ a. string_cmp_loop-Agree size 0 s t (λ k lo hi. a k (omega arith))),
)

pub Agree-equals_loop : (n i : ℕ) (s t : List ℕ) → equals_loop n i s t ≡ true → Agree s t i n
unfolding equals_loop
Agree-equals_loop zero i s t e = λ k lo hi. absurd (omega arith)
Agree-equals_loop (suc n) i s t e =
    Agree-cons s t i n (ground arith) (Agree-equals_loop n (i + 1) s t (ground arith))

pub equals_loop-Agree : (n i : ℕ) (s t : List ℕ) → Agree s t i n → equals_loop n i s t ≡ true
unfolding equals_loop
equals_loop-Agree zero i s t a = refl
equals_loop-Agree (suc n) i s t a =
    ground (
      arith,
      equals_loop-Agree n (i + 1) s t (Agree-next s t i n a),
      a i (omega arith) (omega arith),
    )

-- `StringBuilder::Equals` holds exactly when the two lengths are the same and so is every byte
-- below that length.
pub equals_iff :
    (s t : List ℕ)
    → (equals s t ≡ true)
      ↔ ((string_len s ≡ string_len t) × ((k : ℕ) → k < string_len s → at s k ≡ at t k))
unfolding equals
equals_iff s t = (
  (λ e. (
    ground arith,
    λ k h. Agree-equals_loop (string_len t) 0 s t (ground arith) k (omega arith) (ground arith),
  )),
  (λ (same, a).
      let l = equals_loop-Agree (string_len t) 0 s t (λ k lo hi. a k (omega arith)) in
      ground arith),
)

pub equals_refl : (s : List ℕ) → equals s s ≡ true
equals_refl s = (equals_iff s s).1 (refl, λ k h. refl)

pub equals_sym : (s t : List ℕ) → equals s t ≡ true → equals t s ≡ true
equals_sym s t e =
    let (same, a) = (equals_iff s t).0 e in
    (equals_iff t s).1 (sym same, λ k h. sym (a k (omega arith)))
