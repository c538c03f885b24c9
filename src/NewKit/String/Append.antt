-- ===== src/NewKit/String/Append.antt =====
-- What the appending of texts does to a string, and the strings that StringBuilder::Construct makes.
use zka.Common.{
  ℕ, zero, suc, ◌+◌, ◌-◌, ◌<◌, ◌≡◌, ◌≢◌, refl, ◌∙◌, arith, true, false, List, some, ltb, leb, ◌&&◌,
  ◌==◌, if◌then◌else◌, set, length, length-set, get_or-set_self, get_or-set_ne, length-replicate,
}
use zka.NewKit.Utils.{at, string_len}
use zka.NewKit.Utils.Text.{Agree, equals_loop-Agree}
use zka.NewKit.String.{KString, new_string, text_equal, append_loop, append_text, construct}

length-append_loop :
    (n i : ℕ) (lhs rhs : List ℕ) (cur : ℕ) → length (append_loop n i lhs rhs cur) ≡ length lhs
unfolding append_loop
length-append_loop zero i lhs rhs cur = refl
length-append_loop (suc n) i lhs rhs cur =
    length-append_loop n (i + 1) (set lhs (i + cur) (at rhs i)) rhs cur
    ∙ length-set lhs (i + cur) (at rhs i)

at-append_loop :
    (n i : ℕ) (lhs rhs : List ℕ) (cur j : ℕ)
    → j < length lhs
    → at (append_loop n i lhs rhs cur) j
      ≡ (if leb (i + cur) j && ltb j (i + n + cur) then at rhs (j - cur) else at lhs j)
unfolding append_loop
at-append_loop zero i lhs rhs cur j h = ground arith
at-append_loop (suc n) i lhs rhs cur j h = ground (
  arith,
  length-set lhs (i + cur) (at rhs i),
  at-append_loop n (i + 1) (set lhs (i + cur) (at rhs i)) rhs cur j,
  get_or-set_self lhs (i + cur) (at rhs i) 0,
  get_or-set_ne lhs (i + cur) j (at rhs i) 0,
)

-- Appending a text to a string writes the text's bytes from the cursor on, as far as the buffer
-- goes, keeps every other byte and the buffer's size, and moves the cursor by the text's length.
pub append_text-at :
    (s : KString) (rhs : List ℕ) (j : ℕ)
    → j < length s.chars
    → let t = append_text s rhs in
      (at t.chars j ≡ (
        if leb s.cur j && ltb j (s.cur + string_len rhs) then at rhs (j - s.cur) else at s.chars j))
      × (length t.chars ≡ length s.chars)
      × (t.data_sz ≡ s.data_sz)
      × (t.cur ≡ s.cur + string_len rhs)
unfolding append_text
append_text-at s rhs j h = (
  at-append_loop (string_len rhs) 0 s.chars rhs s.cur j h ∙ ground arith,
  length-append_loop (string_len rhs) 0 s.chars rhs s.cur,
  refl,
  refl,
)

-- The string that StringBuilder::Construct makes of a text that does not begin with a NUL has the
-- text's length as its size, its cursor at the end, and is equal to the text.
pub text_equal-construct :
    (text : List ℕ)
    → at text 0 ≢ 0
    → (s : KString) × (construct (some text) ≡ some s)
      × (s.data_sz ≡ string_len text)
      × (s.cur ≡ string_len text)
      × (text_equal s text ≡ true)
unfolding construct new_string text_equal
text_equal-construct text h =
    let start = new_string (string_len text) in
    let s = append_text start text in
    let made : length start.chars ≡ string_len text = length-replicate (string_len text) 0 in
    let same : Agree s.chars text 0 (string_len text) =
      λ k lo hi. (append_text-at start text k (omega arith)).0 ∙ ground arith in
    let not_empty : (at text 0 == 0) ≡ false = ground arith in
    let all = equals_loop-Agree (string_len text) 0 s.chars text same in
    (s, rw not_empty refl, refl, omega arith, ground arith)
