-- ===== src/NewKit/String/Format.antt =====
-- What StringBuilder::Format and StringBuilder::FromBool write.
use zka.Common.{
  ℕ, zero, suc, ◌+◌, ◌-◌, ◌≤◌, ◌≡◌, ◌∙◌, arith, Bool, List, ltb, leb, ◌&&◌, ◌==◌, if◌then◌else◌,
  update, inl, inr, Bool-cases,
}
use zka.NewKit.Utils.{at, string_len}
use zka.NewKit.String.{from_bool_loop, from_bool, boolean_expr, insert_loop, format_loop, format}

insert_loop-at :
    (n y r : ℕ) (expr : List ℕ) (ret : ℕ → ℕ) (j : ℕ)
    → insert_loop n y r expr ret j
      ≡ (if leb r j && ltb j (r + n) then at expr (y + (j - r)) else ret j)
unfolding insert_loop
insert_loop-at zero y r expr ret j = ground arith
insert_loop-at (suc n) y r expr ret j = elim (Bool-cases (j == r)) [
  | inl same ↦
      let here : j ≡ r = ground arith in
      let off : y + (j - r) ≡ y = omega arith in
      ground (arith, insert_loop-at n (y + 1) (r + 1) expr (update ret r (at expr y)) j, off)
  | inr other ↦ elim (Bool-cases (leb r j)) [
    | inl behind ↦
        let off : y + 1 + (j - (r + 1)) ≡ y + (j - r) = ground arith in
        ground (arith, insert_loop-at n (y + 1) (r + 1) expr (update ret r (at expr y)) j, off)
    | inr before ↦
        ground (arith, insert_loop-at n (y + 1) (r + 1) expr (update ret r (at expr y)) j)
  ]
]

-- The place of the first `%` among the `n` bytes from `i` on, or their end.
abbrev pub percent : ℕ → ℕ → List ℕ → ℕ
percent zero i fmt = i
percent (suc n) i fmt = let rest = percent n (i + 1) fmt in if at fmt i == b'%' then i else rest

percent_bounds : (n i : ℕ) (fmt : List ℕ) → (i ≤ percent n i fmt) × (percent n i fmt ≤ i + n)
percent_bounds zero i fmt = (omega arith, omega arith)
percent_bounds (suc n) i fmt = ground (arith, percent_bounds n (i + 1) fmt)

format_loop-at :
    (n i : ℕ) (fmt fmt2 : List ℕ) (ret : ℕ → ℕ) (j : ℕ)
    → let p = percent n i fmt in
      format_loop n i fmt fmt2 ret j ≡ (
        if leb i j && ltb j p
        then at fmt j
        else if ltb p (i + n) && leb p j && ltb j (p + string_len fmt2)
        then at fmt2 (j - p)
        else ret j)
unfolding format_loop
format_loop-at zero i fmt fmt2 ret j = ground arith
format_loop-at (suc n) i fmt fmt2 ret j = elim (Bool-cases (at fmt i == b'%')) [
  | inl found ↦ rw found (insert_loop-at (string_len fmt2) 0 i fmt2 ret j ∙ ground arith)
  | inr other ↦ rw other (
      let (lo, hi) = percent_bounds n (i + 1) fmt in
      format_loop-at n (i + 1) fmt fmt2 (update ret i (at fmt i)) j ∙ ground arith)
]

-- Format writes the format up to its first `%`, and in place of the `%` the second text; it writes
-- nothing behind that, neither the format's rest nor a NUL. Without a `%` it writes the format.
pub format-at :
    (fmt fmt2 : List ℕ) (ret : ℕ → ℕ) (j : ℕ)
    → let n = string_len fmt in
      let p = percent n 0 fmt in
      format fmt fmt2 ret j ≡ (
        if ltb j p
        then at fmt j
        else if ltb p n && ltb j (p + string_len fmt2)
        then at fmt2 (j - p)
        else ret j)
unfolding format
format-at fmt fmt2 ret j = format_loop-at (string_len fmt) 0 fmt fmt2 ret j ∙ ground arith

from_bool_loop-at :
    (n i : ℕ) (fmt expr : List ℕ) (ret : ℕ → ℕ) (j : ℕ)
    → let p = percent n i fmt in
      from_bool_loop n i fmt expr ret j ≡ (
        if leb i j && ltb j p
        then at fmt j
        else if ltb p (i + n) && leb p j && ltb j (string_len expr)
        then at expr j
        else ret j)
unfolding from_bool_loop
from_bool_loop-at zero i fmt expr ret j = ground arith
from_bool_loop-at (suc n) i fmt expr ret j = elim (Bool-cases (at fmt i == b'%')) [
  | inl found ↦ rw found (
      insert_loop-at (string_len expr - i) i i expr ret j ∙ elim (Bool-cases (leb i j)) [
        | inl behind ↦ let same : i + (j - i) ≡ j = ground arith in ground (arith, same)
        | inr before ↦ ground arith
      ])
  | inr other ↦ rw other (
      let (lo, hi) = percent_bounds n (i + 1) fmt in
      from_bool_loop-at n (i + 1) fmt expr (update ret i (at fmt i)) j ∙ ground arith)
]

-- FromBool writes the format up to its first `%`, and behind that, from the place of the `%` on,
-- the bytes of YES or NO at the same places of that word: all of it only if the format begins with
-- `%`.
pub from_bool-at :
    (fmt : List ℕ) (b : Bool) (ret : ℕ → ℕ) (j : ℕ)
    → let n = string_len fmt in
      let p = percent n 0 fmt in
      from_bool fmt b ret j ≡ (
        if ltb j p
        then at fmt j
        else if ltb p n && ltb j (string_len (boolean_expr b))
        then at (boolean_expr b) j
        else ret j)
unfolding from_bool
from_bool-at fmt b ret j =
    from_bool_loop-at (string_len fmt) 0 fmt (boolean_expr b) ret j ∙ ground arith
