-- ===== src/NewKit/Utils.antt =====
-- The memory and string routines of dev/ZKAKit/src/Utils.cc, over buffers of bytes. A `Char*` is the
-- list of the bytes that can be read through it; a read past its end gives a NUL.
pub mod Copy
pub mod Search
pub mod Text
use zka.Common.{
  ℕ, zero, suc, ◌+◌, ◌-◌, Bool, true, false, ◌&&◌, List, [], ◌∷◌, Option, none, some, ltb, leb,
  ◌==◌, if◌then◌else◌, get_or, set,
}

-- `str[i]`.
abbrev pub at : List ℕ → ℕ → ℕ
at s i = get_or s i 0

-- `while (str[len] != '\0') ++len`: how many bytes stand before the first NUL.
abbrev pub run_length : List ℕ → ℕ
run_length [] = 0
run_length (c ∷ s) = let rest = run_length s in if c == 0 then 0 else suc rest

-- `rt_string_len(ptr)`: a `do` loop, which counts the first byte before it tests any.
unfoldable pub string_len : List ℕ → ℕ
string_len [] = 1
string_len (c ∷ s) = suc (run_length s)

-- `rt_string_len(str, _len)` from `len` on: the body tests the bound, then counts.
abbrev pub string_len_loop : ℕ → ℕ → List ℕ → ℕ
string_len_loop bound len [] = if ltb bound len then bound else len + 1
string_len_loop bound len (c ∷ s) =
    let rest = string_len_loop bound (len + 1) s in
    if ltb bound len then bound else if at s 0 == 0 then len + 1 else rest

unfoldable pub string_len_max : List ℕ → ℕ → ℕ
string_len_max s bound = string_len_loop bound 0 s

-- The loop of `rt_string_cmp`: `n` rounds are left, from `i` on.
unfoldable pub string_cmp_loop : ℕ → ℕ → List ℕ → List ℕ → ℕ
string_cmp_loop zero i src cmp = 0
string_cmp_loop (suc n) i src cmp =
    (if at src i == at cmp i then 0 else 1) + string_cmp_loop n (i + 1) src cmp

-- `rt_string_cmp`: how many of the first `size` bytes differ; 1 if a pointer is null.
unfoldable pub string_cmp : Option (List ℕ) → Option (List ℕ) → ℕ → ℕ
unfolding string_cmp_loop
string_cmp (some src) (some cmp) size = string_cmp_loop size 0 src cmp
string_cmp none cmp size = 1
string_cmp src none size = 1

-- The loop of `rt_copy_memory`: `dstChar[index] = srcChr[index]` for `n` rounds from `i` on.
unfoldable pub copy_loop : ℕ → ℕ → List ℕ → List ℕ → List ℕ
copy_loop zero i src dst = dst
copy_loop (suc n) i src dst = copy_loop n (i + 1) src (set dst i (at src i))

-- `rt_copy_memory`: the new destination, and the count that it returns.
unfoldable pub copy_memory : List ℕ → List ℕ → ℕ → List ℕ × ℕ
unfolding copy_loop
copy_memory src dst len = (copy_loop len 0 src dst, len)

pub record Moved : Type 0 where
  pub src : List ℕ
  pub dst : List ℕ

-- The loop of `rt_move_memory`: each byte is copied, then cleared at its source.
unfoldable pub move_loop : ℕ → ℕ → Moved → Moved
move_loop zero i m = m
move_loop (suc n) i m =
    move_loop n (i + 1) (record { src = set m.src i 0; dst = set m.dst i (at m.src i) })

-- `rt_move_memory` on two buffers that do not overlap: the buffers, and the status that it returns.
unfoldable pub move_memory : Option (List ℕ) → Option (List ℕ) → ℕ → Option Moved × ℕ
unfolding move_loop
move_memory (some src) (some dst) len =
    if ltb len 1
    then (some (record { src = src; dst = dst }), 2)
    else (some (move_loop len 0 (record { src = src; dst = dst })), 0)
move_memory none dst len = (none, if ltb len 1 then 2 else 1)
move_memory src none len = (none, if ltb len 1 then 2 else 1)

unfoldable pub to_uppercase : ℕ → ℕ
to_uppercase c = if leb b'a' c && leb c b'z' then c - 0x20 else c

unfoldable pub to_lower : ℕ → ℕ
to_lower c = if leb b'A' c && leb c b'Z' then c + 0x20 else c

-- `in + i`.
abbrev pub drop : ℕ → List ℕ → List ℕ
drop zero s = s
drop (suc n) [] = []
drop (suc n) (c ∷ s) = drop n s

-- The loop of `rt_string_in_string`: `n` offsets are left, from `i` on.
unfoldable pub search_loop : ℕ → ℕ → List ℕ → List ℕ → Option ℕ
search_loop zero i text needle = none
search_loop (suc n) i text needle =
    let rest = search_loop n (i + 1) text needle in
    if string_cmp (some (drop i text)) (some needle) (string_len needle) == 0 then some i else rest

-- `rt_string_in_string`: the offset of the pointer that it returns.
unfoldable pub string_in_string : List ℕ → List ℕ → Option ℕ
unfolding search_loop string_len
string_in_string text needle = search_loop (string_len text) 0 text needle

-- `rt_string_has_char`: the test of `*str` against NUL follows the step.
unfoldable pub string_has_char : ℕ → List ℕ → ℕ → Option ℕ
string_has_char i [] chr = if chr == 0 then some i else none
string_has_char i (c ∷ s) chr =
    let rest = string_has_char (i + 1) s chr in
    if c == chr then some i else if at s 0 == 0 then none else rest

-- The loop of `StringBuilder::Equals`: `n` rounds are left, from `i` on.
unfoldable pub equals_loop : ℕ → ℕ → List ℕ → List ℕ → Bool
equals_loop zero i lhs rhs = true
equals_loop (suc n) i lhs rhs =
    let rest = equals_loop n (i + 1) lhs rhs in if at rhs i == at lhs i then rest else false

-- `StringBuilder::Equals(const Char*, const Char*)` of dev/ZKAKit/src/KString.cc.
unfoldable pub equals : List ℕ → List ℕ → Bool
unfolding equals_loop string_len
equals lhs rhs =
    if string_len rhs == string_len lhs then equals_loop (string_len rhs) 0 lhs rhs else false
