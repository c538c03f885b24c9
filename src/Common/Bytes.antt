-- ===== src/Common/Bytes.antt =====
-- Bytes in memory and on a disk: numbers in little-endian order, and the fields of packed structures.
use Prim.Native.Nat.{ℕ, zero, suc, ◌+◌, ◌*◌, ◌/◌, ◌%◌, ◌^◌, ◌<◌}
use mathlib.Core.Path.{◌≡◌, refl, ap, ◌∙◌}
use mathlib.Core.List.{List, [], ◌∷◌, ◌++◌}
use native.Mathlib.Nat.{zero-add}
use native.Mathlib.Omega.{arith}

-- The number that a field's bytes make.
abbrev pub number : List ℕ → ℕ
number [] = 0
number (b ∷ s) = b + 256 * number s

-- The lowest `w` bytes of a number.
abbrev pub bytes : ℕ → ℕ → List ℕ
bytes zero n = []
bytes (suc w) n = n % 256 ∷ bytes w (n / 256)

abbrev pub take {ℓ} : {A : Type ℓ} → ℕ → List A → List A
take zero s = []
take (suc n) [] = []
take (suc n) (c ∷ s) = c ∷ take n s

abbrev pub skip {ℓ} : {A : Type ℓ} → ℕ → List A → List A
skip zero s = s
skip (suc n) [] = []
skip (suc n) (c ∷ s) = skip n s

-- A packed structure is its fields, one behind the other; `ws` holds their sizes.
abbrev pub fields : List ℕ → List ℕ → List (List ℕ)
fields [] s = []
fields (w ∷ ws) s = take w s ∷ fields ws (skip w s)

abbrev pub join : List (List ℕ) → List ℕ
join [] = []
join (f ∷ fs) = f ++ join fs

abbrev pub total : List ℕ → ℕ
total [] = 0
total (w ∷ ws) = w + total ws

-- A list of bytes, of a length.
abbrev pub IsBytes : ℕ → List ℕ → Type 0
IsBytes zero [] = Unit
IsBytes zero (b ∷ s) = ⊥
IsBytes (suc w) [] = ⊥
IsBytes (suc w) (b ∷ s) = (b < 256) × IsBytes w s

pub number-bytes : (w n : ℕ) → n < 256 ^ w → number (bytes w n) ≡ n
number-bytes zero n h = omega arith
number-bytes (suc w) n h = grind (arith, number-bytes w (n / 256))

pub IsBytes-bytes : (w n : ℕ) → IsBytes w (bytes w n)
IsBytes-bytes zero n = tt
IsBytes-bytes (suc w) n = (omega arith, IsBytes-bytes w (n / 256))

pub suc-add : (a b : ℕ) → suc a + b ≡ suc (a + b)
suc-add a b = omega arith

IsBytes-++ : (v w : ℕ) (s t : List ℕ) → IsBytes v s → IsBytes w t → IsBytes (v + w) (s ++ t)
IsBytes-++ zero w [] t h k = rw (zero-add w) k
IsBytes-++ zero w (b ∷ s) t h k = elim h [ ]
IsBytes-++ (suc v) w [] t h k = elim h [ ]
IsBytes-++ (suc v) w (b ∷ s) t h k = rw (suc-add v w) (h.0, IsBytes-++ v w s t h.1 k)

pub number_lt : (w : ℕ) (s : List ℕ) → IsBytes w s → number s < 256 ^ w
number_lt zero [] h = omega arith
number_lt zero (b ∷ s) h = elim h [ ]
number_lt (suc w) [] h = elim h [ ]
number_lt (suc w) (b ∷ s) h = ground (arith, number_lt w s h.1)

pub bytes-number : (w : ℕ) (s : List ℕ) → IsBytes w s → bytes w (number s) ≡ s
bytes-number zero [] h = refl
bytes-number zero (b ∷ s) h = elim h [ ]
bytes-number (suc w) [] h = elim h [ ]
bytes-number (suc w) (b ∷ s) h = ground (arith, bytes-number w s h.1)

-- Fields of the given sizes.
abbrev pub HaveSizes : List ℕ → List (List ℕ) → Type 0
HaveSizes [] [] = Unit
HaveSizes [] (f ∷ fs) = ⊥
HaveSizes (w ∷ ws) [] = ⊥
HaveSizes (w ∷ ws) (f ∷ fs) = IsBytes w f × HaveSizes ws fs

take_append : (w : ℕ) (s t : List ℕ) → IsBytes w s → take w (s ++ t) ≡ s
take_append zero [] t h = refl
take_append zero (b ∷ s) t h = elim h [ ]
take_append (suc w) [] t h = elim h [ ]
take_append (suc w) (b ∷ s) t h = ap (λ u. b ∷ u) (take_append w s t h.1)

skip_append : (w : ℕ) (s t : List ℕ) → IsBytes w s → skip w (s ++ t) ≡ t
skip_append zero [] t h = refl
skip_append zero (b ∷ s) t h = elim h [ ]
skip_append (suc w) [] t h = elim h [ ]
skip_append (suc w) (b ∷ s) t h = skip_append w s t h.1

pub fields-join : (ws : List ℕ) (fs : List (List ℕ)) → HaveSizes ws fs → fields ws (join fs) ≡ fs
fields-join [] [] h = refl
fields-join [] (f ∷ fs) h = elim h [ ]
fields-join (w ∷ ws) [] h = elim h [ ]
fields-join (w ∷ ws) (f ∷ fs) h =
    rw (take_append w f (join fs) h.0)
      (rw (skip_append w f (join fs) h.0) (ap (λ u. f ∷ u) (fields-join ws fs h.1)))

pub IsBytes-join :
    (ws : List ℕ) (fs : List (List ℕ)) → HaveSizes ws fs → IsBytes (total ws) (join fs)
IsBytes-join [] [] h = tt
IsBytes-join [] (f ∷ fs) h = elim h [ ]
IsBytes-join (w ∷ ws) [] h = elim h [ ]
IsBytes-join (w ∷ ws) (f ∷ fs) h = IsBytes-++ w (total ws) f (join fs) h.0 (IsBytes-join ws fs h.1)

IsBytes-split :
    (v w : ℕ) (s : List ℕ)
    → IsBytes (v + w) s
    → IsBytes v (take v s) × IsBytes w (skip v s) × (take v s ++ skip v s ≡ s)
IsBytes-split zero w s h = (tt, rw zero-add at h, refl)
IsBytes-split (suc v) w [] h = elim (rw (suc-add v w) at h) [ ]
IsBytes-split (suc v) w (b ∷ s) h =
    let g = rw (suc-add v w) at h in
    let p = IsBytes-split v w s g.1 in ((g.0, p.0), p.1, ap (λ u. b ∷ u) p.2)

pub fields-HaveSizes : (ws s : List ℕ) → IsBytes (total ws) s → HaveSizes ws (fields ws s)
fields-HaveSizes [] s h = tt
fields-HaveSizes (w ∷ ws) s h =
    let p = IsBytes-split w (total ws) s h in (p.0, fields-HaveSizes ws (skip w s) p.1)

pub join-fields : (ws s : List ℕ) → IsBytes (total ws) s → join (fields ws s) ≡ s
join-fields [] [] h = refl
join-fields [] (b ∷ s) h = elim h [ ]
join-fields (w ∷ ws) s h =
    let p = IsBytes-split w (total ws) s h in
    ap (λ u. take w s ++ u) (join-fields ws (skip w s) p.1) ∙ p.2

pub cons_eq {ℓ} : {A : Type ℓ} {x y : A} {xs ys : List A} → x ≡ y → xs ≡ ys → (x ∷ xs) ≡ (y ∷ ys)
cons_eq e es = cc
