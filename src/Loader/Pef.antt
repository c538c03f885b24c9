-- ===== src/Loader/Pef.antt =====
-- PEFLoader of dev/ZKAKit/src/PEFCodeMgr.cc. A blob is the list of the bytes that can be read through its pointer;
-- that blobs are freed is left out. The build is the one for AMD64, with NeFS as the loader's filesystem.
pub mod Symbol
pub mod Magic
pub mod OnNefs
use zka.Common.{
  ℕ, zero, suc, ◌+◌, Bool, true, false, not, ◌&&◌, ◌||◌, Option, none, some, List, [], ◌∷◌, ◌++◌,
  if◌then◌else◌, ltb, ◌==◌, get_or, set, replicate, take, number, fields,
}
use zka.NewKit.Utils.{at, drop, string_len, string_len_max, copy_memory, equals}
use zka.Nefs.Volume.{Result, ok, fault, out_of_fuel, ◌>>=◌}

-- PEFContainer, as far as the loader reads it.
pub record Container : Type 0 where
  pub magic : List ℕ
  pub abi : ℕ
  pub cpu : ℕ
  pub count : ℕ

-- PEFCommandHeader, its name apart.
pub record CommandHeader : Type 0 where
  pub cpu : ℕ
  pub kind : ℕ
  pub size : ℕ

abbrev container_layout : List ℕ
container_layout = 5 ∷ 4 ∷ 4 ∷ 4 ∷ 4 ∷ 4 ∷ 4 ∷ 8 ∷ 8 ∷ 8 ∷ []

abbrev command_layout : List ℕ
command_layout = 255 ∷ 4 ∷ 4 ∷ 4 ∷ 2 ∷ 8 ∷ 8 ∷ []

-- `sizeof(PEFCommandHeader)`.
abbrev pub command_header_size : ℕ
command_header_size = 285

abbrev container_from : List (List ℕ) → Container
container_from fs = record {
  magic = get_or fs 0 [];
  abi = number (get_or fs 4 []);
  cpu = number (get_or fs 5 []);
  count = number (get_or fs 9 []);
}

unfoldable pub decode_container : List ℕ → Container
decode_container s = container_from (fields container_layout s)

abbrev command_from : List (List ℕ) → CommandHeader
command_from fs = record {
  cpu = number (get_or fs 1 []);
  kind = number (get_or fs 4 []);
  size = number (get_or fs 6 []);
}

unfoldable pub decode_command : List ℕ → CommandHeader
decode_command s = command_from (fields command_layout s)

-- `kPefMagic`, `kPefAbi` and the kinds of a command.
abbrev pub pef_magic : List ℕ
pef_magic = b'J' ∷ b'o' ∷ b'y' ∷ b'!' ∷ 0 ∷ []

abbrev pub pef_abi : ℕ
pef_abi = 0x5046

abbrev pub pef_code : ℕ
pef_code = 12

abbrev pub pef_data : ℕ
pef_data = 13

abbrev pub pef_zero : ℕ
pef_zero = 14

-- `kPefNameLen`.
abbrev pub pef_name_len : ℕ
pef_name_len = 255

-- ldr_get_platform, `kPefArchAMD64`.
abbrev pub platform : ℕ
platform = 1

-- "PEF_CONTAINER", `kPefStart`, and the symbols of a process.
abbrev pub pef_header : List ℕ
pef_header =
    b'P' ∷ b'E' ∷ b'F' ∷ b'_' ∷ b'C' ∷ b'O' ∷ b'N' ∷ b'T' ∷ b'A' ∷ b'I' ∷ b'N' ∷ b'E' ∷ b'R' ∷ []

abbrev pub pef_start : List ℕ
pef_start = b'_' ∷ b'_' ∷ b'I' ∷ b'm' ∷ b'a' ∷ b'g' ∷ b'e' ∷ b'S' ∷ b't' ∷ b'a' ∷ b'r' ∷ b't' ∷ []

-- PEFLoader. Without a stream `fFile` is null.
pub record Loader : Type 0 where
  pub cached_blob : Option (List ℕ)
  pub bad : Bool
  pub fat_binary : Bool
  pub has_file : Bool

-- The constructor from a blob; it gives `fFatBinary` no value.
unfoldable pub load_blob : Bool → Option (List ℕ) → Loader
load_blob fat_binary blob = record {
  cached_blob = blob;
  bad = false;
  fat_binary = fat_binary;
  has_file = false;
}

-- The bytes of the magic, from the first one and from the last one on.
unfoldable pub has_magic : List ℕ → Bool
has_magic m =
    at m 0 == at pef_magic 0
    && at m 1 == at pef_magic 1
    && at m 2 == at pef_magic 2
    && at m 3 == at pef_magic 3
    && at m 4 == at pef_magic 4

unfoldable pub has_fat_magic : List ℕ → Bool
has_fat_magic m =
    at m 4 == at pef_magic 0
    && at m 3 == at pef_magic 1
    && at m 2 == at pef_magic 2
    && at m 1 == at pef_magic 3
    && at m 0 == at pef_magic 4

-- What the constructor from a path makes of the container that it has read.
unfoldable pub check_container : List ℕ → Loader
check_container blob =
    let c = decode_container blob in
    if c.cpu == platform && has_magic c.magic && c.abi == pef_abi
    then record { cached_blob = some blob; bad = false; fat_binary = false; has_file = true }
    else if has_fat_magic c.magic && c.abi == pef_abi
    then record { cached_blob = some blob; bad = false; fat_binary = true; has_file = true }
    else record { cached_blob = none; bad = true; fat_binary = false; has_file = true }

-- IsLoaded.
unfoldable pub is_loaded : Loader → Bool
is_loaded l = elim l.cached_blob [ none ↦ false | some b ↦ not l.bad ]

-- `cContainerKinds` of a kind; without one the switch returns null.
unfoldable pub container_kind : ℕ → Option (List ℕ)
container_kind kind =
    if kind == pef_code
    then some (b'.' ∷ b'c' ∷ b'o' ∷ b'd' ∷ b'e' ∷ b'6' ∷ b'4' ∷ [])
    else if kind == pef_data
    then some (b'.' ∷ b'd' ∷ b'a' ∷ b't' ∷ b'a' ∷ b'6' ∷ b'4' ∷ [])
    else if kind == pef_zero
    then some (b'.' ∷ b'z' ∷ b'e' ∷ b'r' ∷ b'o' ∷ b'6' ∷ b'4' ∷ [])
    else none

-- The loop that puts a `$` for each space of the name: `n` rounds are left, from `i` on.
unfoldable pub mangle_loop : ℕ → ℕ → List ℕ → List ℕ
mangle_loop zero i name = name
mangle_loop (suc n) i name =
    mangle_loop n (i + 1) (if at name i == b' ' then set name i b'$' else name)

unfoldable pub mangle : List ℕ → List ℕ
unfolding mangle_loop string_len_max
mangle name = mangle_loop (string_len_max name pef_name_len) 0 name

-- `error_or_symbol.Leak().Leak() += name`, as it is then read: the buffer ends behind the kind's name, so the bytes
-- of the name stand behind it, and no NUL is put behind them.
unfoldable pub symbol_text : List ℕ → List ℕ → List ℕ → List ℕ
unfolding string_len
symbol_text prefix name behind = prefix ++ (take (string_len name) name ++ behind)

-- The bytes that a match copies.
unfoldable pub content_of : List ℕ → List ℕ
content_of blob =
    let size = (decode_command blob).size in
    (copy_memory (drop command_header_size blob) (replicate size 0) size).0

-- The loop of FindSymbol over `count` headers: `container_header` stays at the blob's start. A read through
-- null is a fault.
unfoldable pub symbol_loop : ℕ → Bool → List ℕ → ℕ → Option (List ℕ) → Result (Option (List ℕ))
symbol_loop zero fat symbol kind blob = ok none
symbol_loop (suc count) fat symbol kind none = fault
symbol_loop (suc count) fat symbol kind (some blob) =
    let h = decode_command blob in
    let rest = symbol_loop count fat symbol kind (some blob) in
    if equals blob symbol && h.kind == kind
    then ok (if not (h.cpu == platform) && not fat then none else some (content_of blob))
    else rest

-- What is read from a file, by a fork's name, and the bytes that stand behind the symbol's text.
module _ (read : List ℕ → Result (Option (List ℕ))) (behind : List ℕ) where
  -- The constructor from a path.
  unfoldable pub load_path : Result Loader
  unfolding check_container
  load_path =
      read pef_header >>= λ blob. elim blob [ none ↦ fault | some b ↦ ok (check_container b) ]

  -- Behind the tests of FindSymbol.
  unfoldable pub find_in : List ℕ → Bool → List ℕ → ℕ → Option (List ℕ) → Result (Option (List ℕ))
  unfolding symbol_loop mangle container_kind symbol_text
  find_in container fat name kind blob = elim (container_kind kind) [
    | none ↦ ok none
    | some prefix ↦
        symbol_loop (decode_container container).count fat (symbol_text prefix (mangle name) behind)
          kind blob
  ]

  unfoldable pub find_cached : Loader → Option (List ℕ) → List ℕ → ℕ → Result (Option (List ℕ))
  unfolding find_in
  find_cached l none name kind = ok none
  find_cached l (some container) name kind =
      if l.bad
      then ok none
      else if not l.has_file
      then fault
      else (read name >>= find_in container l.fat_binary name kind)

  -- FindSymbol.
  unfoldable pub find_symbol : Loader → Option (List ℕ) → ℕ → Result (Option (List ℕ))
  unfolding find_cached
  find_symbol l none kind = ok none
  find_symbol l (some name) kind = find_cached l l.cached_blob name kind

  -- FindStart; no symbol is kErrorExecutable.
  unfoldable pub find_start : Loader → Result (Option (List ℕ))
  unfolding find_symbol
  find_start l = find_symbol l (some pef_start) pef_code
