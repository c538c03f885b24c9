-- ===== src/Nefs/Path/Parent.antt =====
-- What parent name FindCatalog and CreateCatalog of dev/ZKAKit/src/FS/NeFS.cc compute.
use zka.Common.{
  ℕ, false, zero, suc, ◌+◌, ◌≤◌, ◌<◌, ◌≡◌, refl, sym, ap, ◌∙◌, ◌≢◌, ◌⊎◌, inl, inr, List, Option,
  none, some, ◌&&◌, replicate, set, length, if◌then◌else◌, ltb, leb, ◌==◌, Bool-cases, arith,
  get_or-set_self, get_or-set_ne, get_or_beyond, length-set, length-replicate,
}
use zka.NewKit.Utils.{at, string_len, copy_loop}
use zka.NewKit.Utils.Copy.{at-copy_loop, length-copy_loop}
use zka.NewKit.Utils.Text.{string_len-first, string_len-first_nul, string_len_pos}
use zka.Nefs.{separator}
use zka.Nefs.Path.{strip, clear_and_strip, fill, parent_name}

some-inj : (p q : List ℕ) → some p ≡ some q → p ≡ q
some-inj p q e = ap (λ o. elim o [ none ↦ p | some r ↦ r ]) e

-- A byte that is cleared, and the others.
at-set_nul : (s : List ℕ) (i j : ℕ) → at (set s i 0) j ≡ (if j == i then 0 else at s j)
at-set_nul s i j = elim (Bool-cases (j == i)) [
  | inl e ↦ elim (Bool-cases (ltb i (length s))) [
    | inl h ↦ ground (arith, get_or-set_self s i 0 0 (ground arith))
    | inr h ↦ ground (arith, get_or_beyond (set s i 0) i 0 (ground (arith, length-set s i 0)))
  ]
  | inr e ↦ ground (arith, get_or-set_ne s i j 0 0 (ground arith))
]

-- No separator at an index up to `i`.
abbrev pub NoSeparator : ℕ → List ℕ → Type 0
NoSeparator i s = (j : ℕ) → j ≤ i → at s j ≢ separator

-- The last separator up to `i` is at `k`.
pub record LastSeparator (i : ℕ) (s : List ℕ) (k : ℕ) : Type 0 where
  pub bound : k ≤ i
  pub here : at s k ≡ separator
  pub last : (j : ℕ) → k < j → j ≤ i → at s j ≢ separator

-- What `strip` returns: the bytes behind the last separator are cleared.
pub record Stripped (i : ℕ) (s : List ℕ) (k : ℕ) (p : List ℕ) : Type 0 where
  pub separator_at : LastSeparator i s k
  pub bytes_at : (j : ℕ) → at p j ≡ (if ltb k j && leb j i then 0 else at s j)

strip-suc :
    (i k : ℕ) (s p : List ℕ)
    → at s (suc i) ≢ separator
    → Stripped i (set s (suc i) 0) k p
    → Stripped (suc i) s k p
strip-suc i k s p n h =
    let l = h.separator_at in
    let clear = at-set_nul s (suc i) in
    record {
      separator_at = record {
        bound = ground (arith, l.bound);
        here = ground (arith, l.here, l.bound, clear k);
        last = λ j lo hi. elim (Bool-cases (j == suc i)) [
          | inl e ↦ ground arith
          | inr e ↦ ground (arith, l.last j lo (ground arith), clear j)
        ];
      };
      bytes_at = λ j. ground (arith, h.bytes_at j, clear j, l.bound);
    }

Stripped-here : (i : ℕ) (s : List ℕ) → at s i ≡ separator → Stripped i s i s
Stripped-here i s e = record {
  separator_at = record { bound = omega arith; here = e; last = λ j lo hi. absurd (omega arith) };
  bytes_at = λ j. ground arith;
}

NoSeparator-suc :
    (i : ℕ) (s : List ℕ)
    → at s (suc i) ≢ separator
    → NoSeparator i (set s (suc i) 0)
    → NoSeparator (suc i) s
NoSeparator-suc i s n h j k = elim (Bool-cases (j == suc i)) [
  | inl e ↦ ground arith
  | inr e ↦ ground (arith, h j (ground arith), at-set_nul s (suc i) j)
]

strip-cases :
    (i : ℕ) (s : List ℕ)
    → ((strip i s ≡ none) × NoSeparator i s)
      ⊎ ((k : ℕ) × (p : List ℕ) × (strip i s ≡ some p) × Stripped i s k p)
unfolding strip
strip-cases zero s = elim (Bool-cases (at s 0 == separator)) [
  | inl e ↦ inr (0, s, rw e refl, Stripped-here 0 s (ground arith))
  | inr e ↦ inl (rw e refl, λ j h. ground arith)
]
strip-cases (suc i) s = elim (Bool-cases (at s (suc i) == separator)) [
  | inl e ↦ inr (suc i, s, rw e refl, Stripped-here (suc i) s (ground arith))
  | inr e ↦ elim (strip-cases i (set s (suc i) 0)) [
    | inl h ↦ inl (rw e h.0, NoSeparator-suc i s (ground arith) h.1)
    | inr h ↦ inr (h.0, h.1, rw e h.2, strip-suc i h.0 s h.1 (ground arith) h.3)
  ]
]

pub get_or-replicate : (n j : ℕ) → at (replicate n 0) j ≡ 0
get_or-replicate zero j = refl
get_or-replicate (suc n) zero = refl
get_or-replicate (suc n) (suc j) = get_or-replicate n j

pub at-copy_blank :
    (name blank : List ℕ) (n j : ℕ)
    → at blank j ≡ 0
    → n ≤ length blank
    → at (copy_loop n 0 name blank) j ≡ (if ltb j n then at name j else 0)
at-copy_blank name blank n j e h = elim (Bool-cases (ltb j (length blank))) [
  | inl k ↦ ground (arith, at-copy_loop n 0 name blank j (ground arith))
  | inr k ↦ ground (
    arith,
    get_or_beyond (copy_loop n 0 name blank) j 0 (ground (arith, length-copy_loop n 0 name blank)),
  )
]

pub at-fill :
    (name : List ℕ) (j : ℕ)
    → string_len name < 256
    → at (fill name) j ≡ (if ltb j (string_len name) then at name j else 0)
unfolding fill
at-fill name j h =
    at-copy_blank name (replicate 256 0) (string_len name) j (get_or-replicate 256 j)
      (rw (length-replicate {A = ℕ} 256 0) (omega arith))

string_len-fill :
    (name : List ℕ)
    → string_len name < 256
    → at name 0 ≢ 0
    → string_len (fill name) ≡ string_len name
string_len-fill name h n =
    string_len-first (fill name) (string_len name)
      (ground (arith, at-fill name 0 h, string_len_pos name))
      (ground (arith, at-fill name (string_len name) h))
      (λ i k. ground (arith, at-fill name i h, string_len-first_nul name i n k))

-- What the parent of a name of `len` bytes is, where `s` are the bytes.
abbrev Parent : ℕ → List ℕ → Option (List ℕ) → Type 0
Parent len s r =
    ((r ≡ none) × ((j : ℕ) → j + 3 ≤ len → at s j ≢ separator))
    ⊎ ((k : ℕ) × (p : List ℕ) × (r ≡ some p)
        × (k + 3 ≤ len)
        × (at s k ≡ separator)
        × ((j : ℕ) → k < j → j + 3 ≤ len → at s j ≢ separator)
        × ((j : ℕ) → at p j ≡ (if leb j k then at s j else if ltb j len then 0 else at s j)))

at-cleared :
    (i : ℕ) (s : List ℕ) (j : ℕ)
    → at (set (set s (suc i) 0) i 0) j ≡ (if j == i then 0 else if j == suc i then 0 else at s j)
at-cleared i s j = ground (arith, at-set_nul (set s (suc i) 0) i j, at-set_nul s (suc i) j)

Parent-Stripped :
    (i : ℕ) (s : List ℕ) (k : ℕ) (p : List ℕ)
    → Stripped i (set (set s (suc i) 0) i 0) k p
    → Parent (suc (suc i)) s (some p)
Parent-Stripped i s k p h =
    let l = h.separator_at in
    let c = at-cleared i s in
    inr (
      k,
      p,
      refl,
      ground (arith, l.bound, l.here, c k),
      ground (arith, l.bound, l.here, c k),
      λ j lo hi. ground (arith, l.last j lo (omega arith), c j),
      λ j. ground (arith, h.bytes_at j, c j, l.bound, l.here, c k),
    )

clear_and_strip-cases : (len : ℕ) (s : List ℕ) → Parent len s (clear_and_strip len s)
unfolding clear_and_strip
clear_and_strip-cases zero s = inl (refl, λ j h. absurd (omega arith))
clear_and_strip-cases (suc zero) s = inl (refl, λ j h. absurd (omega arith))
clear_and_strip-cases (suc (suc i)) s = elim (strip-cases i (set (set s (suc i) 0) i 0)) [
  | inl h ↦ inl (h.0, λ j k. ground (arith, h.1 j (omega arith), at-cleared i s j))
  | inr h ↦ rw h.2 (Parent-Stripped i s h.0 h.1 h.3)
]

lt→ltb_false : (name : List ℕ) → string_len name < 256 → ltb 255 (string_len name) ≡ false
lt→ltb_false name h = ground arith

-- Of a name of less than 256 bytes that is not empty, the parent's name is the part up to the last
-- separator that stands before the last two bytes, with zeros behind it; where there is no such
-- separator, the code leaves its array.
pub parent_name-cases :
    (name : List ℕ)
    → string_len name < 256
    → at name 0 ≢ 0
    → ((parent_name name ≡ none) × ((j : ℕ) → j + 3 ≤ string_len name → at name j ≢ separator))
      ⊎ ((k : ℕ) × (p : List ℕ) × (parent_name name ≡ some p)
          × (k + 3 ≤ string_len name)
          × (at name k ≡ separator)
          × ((j : ℕ) → k < j → j + 3 ≤ string_len name → at name j ≢ separator)
          × ((j : ℕ) → at p j ≡ (if leb j k then at name j else 0)))
unfolding parent_name
parent_name-cases name h n =
    rw (lt→ltb_false name h, string_len-fill name h n)
      (elim (clear_and_strip-cases (string_len name) (fill name)) [
        | inl c ↦ inl (c.0, λ j k. ground (arith, c.1 j k, at-fill name j h))
        | inr c ↦ inr (
          c.0,
          c.1,
          c.2,
          c.3,
          ground (arith, c.4, c.3, at-fill name c.0 h),
          λ j lo hi. ground (arith, c.5 j lo hi, at-fill name j h),
          λ j. ground (arith, c.6 j, at-fill name j h, c.3),
        )
      ])

string_len-prefix :
    (name p : List ℕ) (k : ℕ)
    → at name 0 ≢ 0
    → k < string_len name
    → ((j : ℕ) → at p j ≡ (if leb j k then at name j else 0))
    → string_len p ≡ k + 1
string_len-prefix name p k n h e =
    string_len-first p (k + 1) (ground (arith, e 0)) (ground (arith, e (k + 1)))
      (λ i lt. ground (arith, e i, string_len-first_nul name i n (omega arith)))

-- The parent's name, where there is one, of a name of less than 256 bytes that is not empty is at
-- least two bytes shorter than the name, and is not empty.
pub parent_name-shorter :
    (name p : List ℕ)
    → string_len name < 256
    → at name 0 ≢ 0
    → parent_name name ≡ some p
    → (string_len p + 2 ≤ string_len name) × (at p 0 ≢ 0)
parent_name-shorter name p h n e = elim (parent_name-cases name h n) [
  | inl c ↦ absurd (ground (arith, c.0))
  | inr c ↦
      let same = some-inj c.1 p (sym c.2 ∙ e) in
      rw (← same) (
        ground (arith, string_len-prefix name c.1 c.0 n (ground (arith, c.3)) c.6, c.3),
        ground (arith, c.6 0),
      )
]
