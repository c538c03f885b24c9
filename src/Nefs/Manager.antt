-- ===== src/Nefs/Manager.antt =====
-- NeFS behind the file manager: dev/ZKAKit/src/NeFS+FileMgr.cc, dev/ZKAKit/src/NeFS+IO.cc and what NeFSParser of
-- dev/ZKAKit/src/FS/NeFS.cc does not implement. `depth` and `fuel` are those of the searches.
pub mod Stream
use zka.Common.{
  ℕ, zero, suc, ◌-◌, ◌^◌, Bool, true, false, ◌||◌, Option, none, some, List, [], ◌∷◌, if◌then◌else◌,
  ltb, ◌==◌, any_bits,
}
use zka.Storage.{Drive}
use zka.NewKit.Utils.{at}
use zka.Files.{FilesystemMgr}
use zka.Nefs.{error_file_not_found, kind_file, kind_dir, kind_alias, kind_page}
use zka.Nefs.Structs.{Catalog, Fork}
use zka.Nefs.Volume.{Result, ok, fault, out_of_fuel, ◌>>=◌, Reply}
use zka.Nefs.Find.{Entry, find_catalog}
use zka.Nefs.Remove.{remove_catalog}
use zka.Nefs.Create.{create_catalog, create_file}
use zka.Nefs.Fork.{write_data, read_data, fork_struct_size}

-- `kErrorUnimplemented`, which has the number of success.
abbrev pub error_unimplemented : ℕ
error_unimplemented = 0

-- `kNPos`.
abbrev pub npos : ℕ
npos = 2 ^ 64 - 1

abbrev pub file_flag_rsrc : ℕ
file_flag_rsrc = 104

-- `kNeFSDataFork`, "main_data".
abbrev pub main_data : List ℕ
main_data = b'm' ∷ b'a' ∷ b'i' ∷ b'n' ∷ b'_' ∷ b'd' ∷ b'a' ∷ b't' ∷ b'a' ∷ []

-- NeFSParser::CloseCatalog, the object in memory apart.
unfoldable pub close_catalog : Option Catalog → Bool
close_catalog none = false
close_catalog (some c) = true

-- NeFSParser::Seek and ::Tell: the answer, and the error's code.
unfoldable pub seek_catalog : Option Catalog → ℕ → Bool × ℕ
seek_catalog none offset = (false, error_file_not_found)
seek_catalog (some c) offset = (false, error_unimplemented)

unfoldable pub tell_catalog : Option Catalog → ℕ × ℕ
tell_catalog none = (0, error_file_not_found)
tell_catalog (some c) = (0, error_unimplemented)

-- NeFileSystemMgr::Seek, ::Tell and ::Rewind.
unfoldable pub seek : Option Catalog → ℕ → Bool
unfolding seek_catalog
seek none offset = false
seek (some c) offset = if offset == 0 then false else (seek_catalog (some c) offset).0

unfoldable pub tell : Option Catalog → ℕ
unfolding tell_catalog
tell none = npos
tell (some c) = (tell_catalog (some c)).0

unfoldable pub rewind : Option Catalog → Bool
unfolding seek
rewind none = false
rewind (some c) = seek (some c) 0

-- `!path || *path == 0`.
abbrev pub is_blank : Option (List ℕ) → Bool
is_blank none = true
is_blank (some path) = at path 0 == 0

module _ (v : Drive) where
  -- fs_newfs_read and fs_newfs_write: only drive A reads and writes, and no drive sets `fPacketGood`.
  unfoldable pub newfs_read : v.State → Bool → ℕ → ℕ → ℕ → ℕ × Option (List ℕ)
  newfs_read d mounted index lba size =
      if mounted
      then (if index == 0 then (0, some (v.input d lba size)) else (0, none))
      else (1, none)

  unfoldable pub newfs_write : v.State → Bool → ℕ → ℕ → List ℕ → ℕ × v.State
  newfs_write d mounted index lba content =
      if mounted then (if index == 0 then (0, v.output d lba content) else (0, d)) else (1, d)

module _ (v : Drive) (depth fuel : ℕ) where
  -- NeFSParser::GetCatalog.
  unfoldable pub get_catalog : v.State → List ℕ → Result (Option Catalog)
  unfolding find_catalog
  get_catalog d name = find_catalog v d depth fuel name >>= λ o.
      ok (elim o [ none ↦ none | some e ↦ some e.catalog ])

  -- NeFileSystemMgr::Remove.
  unfoldable pub remove : v.State → Option (List ℕ) → Result (Reply v Bool)
  unfolding remove_catalog
  remove d path =
      if is_blank path
      then ok (record { value = false; disk = d; local_code = none })
      else remove_catalog v depth fuel d path

  -- NeFileSystemMgr::Create, ::CreateDirectory, ::CreateAlias and ::CreateSwapFile.
  abbrev pub create : v.State → List ℕ → Result (Reply v (Option Catalog))
  create d path = create_file v depth fuel d path

  abbrev pub create_directory : v.State → List ℕ → Result (Reply v (Option Catalog))
  create_directory d path = create_catalog v depth fuel d path 0 kind_dir

  abbrev pub create_alias : v.State → List ℕ → Result (Reply v (Option Catalog))
  create_alias d path = create_catalog v depth fuel d path 0 kind_alias

  abbrev pub create_swap_file : v.State → List ℕ → Result (Reply v (Option Catalog))
  create_swap_file d path = create_catalog v depth fuel d path 0 kind_page

  -- NeFileSystemMgr::Open.
  unfoldable pub open_catalog :
      v.State → Option (List ℕ) → Option (List ℕ) → Result (Option Catalog)
  unfolding get_catalog
  open_catalog d none restrict_type = ok none
  open_catalog d (some path) restrict_type =
      if at path 0 == 0
      then ok none
      else if is_blank restrict_type
      then ok none
      else get_catalog d path

  -- NeFileSystemMgr::Write with a fork's name; the node is read without a test.
  unfoldable pub write_fork_named :
      v.State → List ℕ → Option Catalog → Option (List ℕ) → ℕ → ℕ → Result v.State
  write_fork_named d name target none flags size = ok d
  write_fork_named d name none (some content) flags size =
      if size == 0 || ltb fork_struct_size size then ok d else fault
  write_fork_named d name (some c) (some content) flags size =
      if size == 0 || ltb fork_struct_size size
      then ok d
      else if c.kind == kind_file
      then (write_data v fuel d c (any_bits 32 flags file_flag_rsrc) content size name >>= λ r.
          ok r.disk)
      else ok d

  -- NeFileSystemMgr::Write.
  unfoldable pub write_node : v.State → Option Catalog → Option (List ℕ) → ℕ → ℕ → Result v.State
  unfolding write_fork_named
  write_node d none content flags size = ok d
  write_node d (some c) content flags size =
      if size == 0 then ok d else write_fork_named d main_data (some c) content flags size

  -- NeFileSystemMgr::Read with a fork's name.
  unfoldable pub read_fork_named : v.State → List ℕ → Option Catalog → ℕ → ℕ → Result (Option Fork)
  read_fork_named d name node flags size =
      if ltb fork_struct_size size then ok none else if size == 0 then ok none else elim node [
        | none ↦ fault
        | some c ↦
            if c.kind == kind_file
            then (read_data v fuel d (some c) (any_bits 32 flags file_flag_rsrc) name >>= λ r.
                ok r.0)
            else ok none
      ]

  -- NeFileSystemMgr::Read.
  unfoldable pub read_node : v.State → Option Catalog → ℕ → ℕ → Result (Option Fork)
  unfolding read_fork_named
  read_node d none flags size = ok none
  read_node d (some c) flags size =
      if size == 0 then ok none else read_fork_named d main_data (some c) flags size

  -- NeFileSystemMgr as a filesystem of the file manager.
  abbrev pub ne_file_system_mgr : FilesystemMgr
  ne_file_system_mgr = record {
    State = v.State;
    Node = Catalog;
    Content = Fork;
    Answer = Result;
    returns = ok;
    open_node = open_catalog;
    read = read_node;
    read_named = λ d name node flags size. read_fork_named d name node flags size;
    write = write_node;
    seek_node = λ d node offset. seek node offset;
  }
