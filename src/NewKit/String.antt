-- ===== src/NewKit/String.antt =====
-- The kernel's strings, dev/ZKAKit/src/KString.cc and NewKit/KString.h: a buffer, its size and a cursor.
-- What the code writes behind a string's buffer is not in it.
pub mod Append
pub mod Compare
pub mod Format
use zka.Common.{
  ℕ, zero, suc, ◌+◌, ◌-◌, Bool, true, false, List, [], ◌∷◌, Option, none, some, ltb, ◌==◌,
  if◌then◌else◌, set, update, replicate,
}
use zka.NewKit.Utils.{at, string_len, equals_loop}

-- KString. Only the first `data_sz` bytes of `chars` belong to it.
pub record KString : Type 0 where
  pub chars : List ℕ
  pub data_sz : ℕ
  pub cur : ℕ

-- The constructor with a size, which clears the buffer.
unfoldable pub new_string : ℕ → KString
new_string size = record { chars = replicate size 0; data_sz = size; cur = 0 }

-- operator== of two strings.
unfoldable pub string_equal : KString → KString → Bool
unfolding equals_loop
string_equal s rhs =
    if rhs.data_sz == s.data_sz then equals_loop s.data_sz 0 s.chars rhs.chars else false

-- operator== of a string and a text.
unfoldable pub text_equal : KString → List ℕ → Bool
unfolding equals_loop string_len
text_equal s rhs =
    if string_len rhs == s.data_sz then equals_loop (string_len rhs) 0 s.chars rhs else false

-- The loop of operator!=: `n` rounds are left, from `i` on.
unfoldable pub differ_loop : ℕ → ℕ → List ℕ → List ℕ → Bool
differ_loop zero i lhs rhs = true
differ_loop (suc n) i lhs rhs =
    let rest = differ_loop n (i + 1) lhs rhs in if at rhs i == at lhs i then false else rest

-- operator!= of two strings, and of a string and a text.
unfoldable pub string_differ : KString → KString → Bool
unfolding differ_loop
string_differ s rhs =
    if rhs.data_sz == s.data_sz then differ_loop rhs.data_sz 0 s.chars rhs.chars else false

unfoldable pub text_differ : KString → List ℕ → Bool
unfolding differ_loop string_len
text_differ s rhs =
    if string_len rhs == s.data_sz then differ_loop (string_len rhs) 0 s.chars rhs else false

-- The loop of rt_string_append: `n` rounds are left, from `i` on.
unfoldable pub append_loop : ℕ → ℕ → List ℕ → List ℕ → ℕ → List ℕ
append_loop zero i lhs rhs cur = lhs
append_loop (suc n) i lhs rhs cur = append_loop n (i + 1) (set lhs (i + cur) (at rhs i)) rhs cur

-- operator+= of a text.
unfoldable pub append_text : KString → List ℕ → KString
unfolding append_loop string_len
append_text s rhs = record s {
  chars = append_loop (string_len rhs) 0 s.chars rhs s.cur;
  cur = s.cur + string_len rhs;
}

-- operator+= of a string.
unfoldable pub append_string : KString → KString → KString
unfolding append_text string_len
append_string s rhs = if ltb s.data_sz (string_len rhs.chars) then s else append_text s rhs.chars

-- StringBuilder::Construct; `none` is the empty ErrorOr.
unfoldable pub construct : Option (List ℕ) → Option KString
unfolding new_string append_text string_len
construct none = none
construct (some text) =
    if at text 0 == 0 then none else some (append_text (new_string (string_len text)) text)

-- The inner loop of FromBool and Format: `n` bytes of the expression, from `y` on, go to `r` and on. The
-- buffer of rtl_alloca is a function, since the code writes behind it.
unfoldable pub insert_loop : (n y r : ℕ) → List ℕ → (ℕ → ℕ) → ℕ → ℕ
insert_loop zero y r expr ret = ret
insert_loop (suc n) y r expr ret = insert_loop n (y + 1) (r + 1) expr (update ret r (at expr y))

-- The outer loop of StringBuilder::FromBool.
unfoldable pub from_bool_loop : (n i : ℕ) → List ℕ → List ℕ → (ℕ → ℕ) → ℕ → ℕ
unfolding insert_loop string_len
from_bool_loop zero i fmt expr ret = ret
from_bool_loop (suc n) i fmt expr ret =
    let rest = from_bool_loop n (i + 1) fmt expr (update ret i (at fmt i)) in
    if at fmt i == b'%' then insert_loop (string_len expr - i) i i expr ret else rest

abbrev pub boolean_expr : Bool → List ℕ
boolean_expr true = b'Y' ∷ b'E' ∷ b'S' ∷ 0 ∷ []
boolean_expr false = b'N' ∷ b'O' ∷ 0 ∷ []

-- StringBuilder::FromBool of a format that is not null, in a buffer that was allocated.
unfoldable pub from_bool : List ℕ → Bool → (ℕ → ℕ) → ℕ → ℕ
unfolding from_bool_loop string_len
from_bool fmt i ret = from_bool_loop (string_len fmt) 0 fmt (boolean_expr i) ret

-- The outer loop of StringBuilder::Format.
unfoldable pub format_loop : (n i : ℕ) → List ℕ → List ℕ → (ℕ → ℕ) → ℕ → ℕ
unfolding insert_loop string_len
format_loop zero i fmt fmt2 ret = ret
format_loop (suc n) i fmt fmt2 ret =
    let rest = format_loop n (i + 1) fmt fmt2 (update ret i (at fmt i)) in
    if at fmt i == b'%' then insert_loop (string_len fmt2) 0 i fmt2 ret else rest

-- StringBuilder::Format of two texts that are not null, in a buffer that was allocated.
unfoldable pub format : List ℕ → List ℕ → (ℕ → ℕ) → ℕ → ℕ
unfolding format_loop string_len
format fmt fmt2 ret = format_loop (string_len fmt) 0 fmt fmt2 ret

-- StringBuilder::Equals of wide texts, from `i` on: the loop runs up to the NUL of the second.
unfoldable pub equals_wide : ℕ → List ℕ → List ℕ → Bool
equals_wide i lhs [] = true
equals_wide i lhs (c ∷ rhs) =
    let rest = equals_wide (i + 1) lhs rhs in
    if c == 0 then true else if c == at lhs i then rest else false
