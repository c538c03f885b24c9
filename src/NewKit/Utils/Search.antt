-- ===== src/NewKit/Utils/Search.antt =====
-- rt_string_in_string of dev/ZKAKit/src/Utils.cc: the first place where a text holds the needle.
use zka.Common.{
  ℕ, zero, suc, ◌+◌, ◌≤◌, ◌<◌, ◌≡◌, inl, inr, Bool, true, false, Option, none, some, List, arith,
  ◌==◌, Bool-cases,
}
use zka.NewKit.Utils.{at, string_len, string_cmp, drop, search_loop, string_in_string}
use zka.NewKit.Utils.Text.{string_cmp_iff}

-- The needle stands in the text at offset `i`.
abbrev pub Occurs : List ℕ → List ℕ → ℕ → Type 0
Occurs text needle i = (k : ℕ) → k < string_len needle → at (drop i text) k ≡ at needle k

abbrev pub Found : List ℕ → List ℕ → ℕ → ℕ → Option ℕ → Type 0
Found text needle i n none = (j : ℕ) → i ≤ j → j < i + n → ¬ Occurs text needle j
Found text needle i n (some r) =
    (i ≤ r)
    × (r < i + n)
    × Occurs text needle r
    × ((j : ℕ) → i ≤ j → j < r → ¬ Occurs text needle j)

module _ (text needle : List ℕ) where
  abbrev hit : ℕ → Bool
  hit i = string_cmp (some (drop i text)) (some needle) (string_len needle) == 0

  hit-Occurs : (i : ℕ) → hit i ≡ true → Occurs text needle i
  hit-Occurs i e = (string_cmp_iff (drop i text) needle (string_len needle)).0 (ground arith)

  miss-Occurs : (i : ℕ) → hit i ≡ false → ¬ Occurs text needle i
  miss-Occurs i e o =
      let z = (string_cmp_iff (drop i text) needle (string_len needle)).1 o in ground arith

  Found-step :
      (i n : ℕ) (r : Option ℕ)
      → hit i ≡ false
      → Found text needle (i + 1) n r
      → Found text needle i (suc n) r
  Found-step i n none e f = λ j lo hi. elim (Bool-cases (j == i)) [
    | inl same ↦ λ o. miss-Occurs i e (let q : j ≡ i = ground arith in rw (q) at o)
    | inr other ↦ f j (ground arith) (omega arith)
  ]
  Found-step i n (some r) e (lo, hi, here, first) = (
    omega arith,
    omega arith,
    here,
    λ j p q. elim (Bool-cases (j == i)) [
      | inl same ↦ λ o. miss-Occurs i e (let s : j ≡ i = ground arith in rw (s) at o)
      | inr other ↦ first j (ground arith) q
    ],
  )

  search_loop-Found : (n i : ℕ) → Found text needle i n (search_loop n i text needle)
  unfolding search_loop
  search_loop-Found zero i = λ j lo hi. absurd (omega arith)
  search_loop-Found (suc n) i = elim (Bool-cases (hit i)) [
    | inl e ↦ rw e (omega arith, omega arith, hit-Occurs i e, λ j p q. absurd (omega arith))
    | inr e ↦
        rw e (Found-step i n (search_loop n (i + 1) text needle) e (search_loop-Found n (i + 1)))
  ]

  -- rt_string_in_string returns the lowest offset below the text's length at which every byte of
  -- the needle stands, and null exactly when there is no such offset.
  pub string_in_string-Found : Found text needle 0 (string_len text) (string_in_string text needle)
  unfolding string_in_string
  string_in_string-Found = search_loop-Found (string_len text) 0
