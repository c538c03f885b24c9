-- ===== src/Nefs/Path.antt =====
-- The parent's name, as FindCatalog and CreateCatalog of dev/ZKAKit/src/FS/NeFS.cc compute it in
-- `parentName`, an array of 256 bytes. `none` where the code leaves that array.
pub mod Parent
use zka.Common.{
  ℕ, false, zero, suc, ◌+◌, ◌≤◌, ◌<◌, ◌≡◌, refl, ◌≢◌, ◌⊎◌, inl, inr, List, Option, none, some, ◌&&◌,
  replicate, set, length, if◌then◌else◌, ltb, leb, ◌==◌, Bool-cases, arith, get_or-set_self,
  get_or-set_ne, get_or_beyond, length-set, length-replicate,
}
use zka.NewKit.Utils.{at, string_len, copy_loop}
use zka.NewKit.Utils.Copy.{at-copy_loop, length-copy_loop}
use zka.NewKit.Utils.Text.{string_len-first, string_len-first_nul, string_len_pos}
use zka.Nefs.{separator}

-- `while (parentName[indexReverseCopy] != Separator())`, from an index on.
unfoldable pub strip : ℕ → List ℕ → Option (List ℕ)
strip zero buf = if at buf 0 == separator then some buf else none
strip (suc i) buf =
    let rest = strip i (set buf (suc i) 0) in if at buf (suc i) == separator then some buf else rest

-- The two bytes that are cleared first, where the name has `len` bytes.
unfoldable pub clear_and_strip : ℕ → List ℕ → Option (List ℕ)
unfolding strip
clear_and_strip (suc (suc i)) buf = strip i (set (set buf (suc i) 0) i 0)
clear_and_strip len buf = none

-- The array, with the name copied into it.
unfoldable pub fill : List ℕ → List ℕ
unfolding copy_loop string_len
fill name = copy_loop (string_len name) 0 name (replicate 256 0)

unfoldable pub parent_name : List ℕ → Option (List ℕ)
unfolding clear_and_strip fill string_len
parent_name name =
    if ltb 255 (string_len name) then none else clear_and_strip (string_len (fill name)) (fill name)
