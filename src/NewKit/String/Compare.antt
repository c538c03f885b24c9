-- ===== src/NewKit/String/Compare.antt =====
-- The comparisons of strings.
use zka.Common.{
  ℕ, zero, suc, ◌+◌, ◌≤◌, ◌<◌, ◌≡◌, ◌≢◌, ◌↔◌, refl, arith, ap, ◌∙◌, true, List, [], ◌∷◌, ◌==◌, sym,
  inl, inr, Bool-cases,
}
use zka.NewKit.Utils.{at, run_length}
use zka.NewKit.Utils.Text.{Agree-equals_loop, equals_loop-Agree}
use zka.NewKit.String.{KString, string_equal, differ_loop, string_differ, equals_wide}

-- Two strings are equal to operator== exactly when their sizes are the same, and every byte below it.
pub string_equal_iff :
    (s t : KString)
    → (string_equal s t ≡ true)
      ↔ ((t.data_sz ≡ s.data_sz) × ((k : ℕ) → k < s.data_sz → at s.chars k ≡ at t.chars k))
unfolding string_equal
string_equal_iff s t = (
  (λ e. (
    ground arith,
    λ k h.
        Agree-equals_loop s.data_sz 0 s.chars t.chars (ground arith) k (omega arith) (omega arith),
  )),
  λ (same, a).
      let l = equals_loop-Agree s.data_sz 0 s.chars t.chars (λ k lo hi. a k (omega arith)) in
      ground arith,
)

abbrev pub Differ : List ℕ → List ℕ → ℕ → ℕ → Type 0
Differ s t i n = (k : ℕ) → i ≤ k → k < i + n → at s k ≢ at t k

pub Differ-differ_loop : (n i : ℕ) (s t : List ℕ) → differ_loop n i s t ≡ true → Differ s t i n
unfolding differ_loop
Differ-differ_loop zero i s t e = λ k lo hi. absurd (omega arith)
Differ-differ_loop (suc n) i s t e = λ k lo hi. elim (Bool-cases (k == i)) [
  | inl same ↦ ground arith
  | inr other ↦ Differ-differ_loop n (i + 1) s t (ground arith) k (ground arith) (omega arith)
]

pub differ_loop-Differ : (n i : ℕ) (s t : List ℕ) → Differ s t i n → differ_loop n i s t ≡ true
unfolding differ_loop
differ_loop-Differ zero i s t d = refl
differ_loop-Differ (suc n) i s t d = ground (
  arith,
  differ_loop-Differ n (i + 1) s t (λ k lo hi. d k (omega arith) (omega arith)),
  d i (omega arith) (omega arith),
)

-- Two strings differ to operator!= exactly when their sizes are the same and every byte below it is
-- another one; so it is no negation of operator==.
pub string_differ_iff :
    (s t : KString)
    → (string_differ s t ≡ true)
      ↔ ((t.data_sz ≡ s.data_sz) × ((k : ℕ) → k < s.data_sz → at s.chars k ≢ at t.chars k))
unfolding string_differ
string_differ_iff s t = (
  (λ e. (
    ground arith,
    λ k h.
        Differ-differ_loop t.data_sz 0 s.chars t.chars (ground arith) k (omega arith)
          (ground arith),
  )),
  λ (same, d).
      let l = differ_loop-Differ t.data_sz 0 s.chars t.chars (λ k lo hi. d k (ground arith)) in
      ground arith,
)

prefix_equals_wide :
    (i : ℕ) (lhs rhs : List ℕ)
    → equals_wide i lhs rhs ≡ true
    → (k : ℕ) → k < run_length rhs
    → at lhs (i + k) ≡ at rhs k
unfolding equals_wide
prefix_equals_wide i lhs [] e k h = absurd (omega arith)
prefix_equals_wide i lhs (c ∷ rhs) e zero h = ground arith
prefix_equals_wide i lhs (c ∷ rhs) e (suc k) h =
    ground (arith, prefix_equals_wide (i + 1) lhs rhs (ground arith) k (ground arith))

equals_wide_prefix :
    (i : ℕ) (lhs rhs : List ℕ)
    → ((k : ℕ) → k < run_length rhs → at lhs (i + k) ≡ at rhs k)
    → equals_wide i lhs rhs ≡ true
unfolding equals_wide
equals_wide_prefix i lhs [] h = refl
equals_wide_prefix i lhs (c ∷ rhs) h = elim (Bool-cases (c == 0)) [
  | inl end ↦ rw end refl
  | inr more ↦ ground (
    arith,
    more,
    h 0 (ground arith),
    equals_wide_prefix (i + 1) lhs rhs (λ k l. ground (arith, h (suc k) (ground arith))),
  )
]

-- The comparison of wide texts holds exactly when the second, up to its NUL, begins the first.
pub equals_wide_iff :
    (lhs rhs : List ℕ)
    → (equals_wide 0 lhs rhs ≡ true) ↔ ((k : ℕ) → k < run_length rhs → at lhs k ≡ at rhs k)
equals_wide_iff lhs rhs =
    let shift : (k : ℕ) → at lhs (0 + k) ≡ at lhs k = λ k. ap (at lhs) (omega arith) in
    (
      (λ e k h. sym (shift k) ∙ prefix_equals_wide 0 lhs rhs e k h),
      λ a. equals_wide_prefix 0 lhs rhs (λ k h. shift k ∙ a k h),
    )
