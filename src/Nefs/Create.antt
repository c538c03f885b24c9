-- ===== src/Nefs/Create.antt =====
-- NeFSParser::CreateCatalog of dev/ZKAKit/src/FS/NeFS.cc.
pub mod Place
pub mod First
pub mod Fail
use zka.Common.{
  ℕ, zero, suc, ◌+◌, ◌-◌, ◌*◌, ◌%◌, ◌^◌, not, ◌&&◌, Option, none, some, List, if◌then◌else◌, ltb,
  leb, ◌==◌, or_bits, replicate,
}
use zka.Storage.{Drive}
use zka.NewKit.Utils.{at, string_len, equals, copy_memory}
use zka.Nefs.{
  error_file_not_found, root_catalog_start_address, flag_created, kind_dir, kind_file, separator,
  sub64,
}
use zka.Nefs.Structs.{Catalog, Block}
use zka.Nefs.Path.{fill, parent_name}
use zka.Nefs.Volume.{
  Result, ok, fault, out_of_fuel, ◌>>=◌, Reply, is_created, read_catalog, read_block, write_catalog,
  write_block,
}
use zka.Nefs.Find.{Entry, find_catalog}

abbrev pub error_file_exists : ℕ
error_file_exists = 46

-- `sizeof(NFS_CATALOG_STRUCT) * cNeFSCatalogPadding`.
abbrev pub padding : ℕ
padding = 512 * 4

-- `kNeFSForkSize`, `sizeof(NFS_FORK_STRUCT)`.
abbrev pub fork_size : ℕ
fork_size = 512

-- The catalog before it has a place.
unfoldable pub new_catalog : List ℕ → ℕ → ℕ → ℕ → Catalog
unfolding copy_memory string_len
new_catalog name flags kind out_lba = record {
  name = (copy_memory name (replicate 256 0) (string_len name)).0;
  mime = replicate 200 0;
  flags = or_bits 16 flag_created flags;
  filk_mm_flags = 0;
  kind = kind;
  data_fork_size = fork_size;
  resource_fork_size = fork_size;
  data_fork = 0;
  resource_fork = 0;
  next_sibling = out_lba;
  prev_sibling = out_lba;
}

-- The catalog at its place, `start_free`, where `next` stood.
unfoldable pub place : List ℕ → Catalog → Block → ℕ → Catalog → Catalog
place parent next block start_free c = record c {
  data_fork = sub64 block.disk_size start_free;
  resource_fork = sub64 block.disk_size start_free;
  next_sibling =
      if equals parent next.name then c.next_sibling else (start_free + padding) % 2 ^ 64;
}

-- `FreeSectors -= 1; CatalogCount += 1; FreeCatalog -= 1`.
abbrev pub count_one : Block → Block
count_one b = record b {
  free_sectors = sub64 b.free_sectors 1;
  catalog_count = (b.catalog_count + 1) % 2 ^ 64;
  free_catalog = sub64 b.free_catalog 1;
}

-- `name[rt_string_len(name) - 1]`.
abbrev pub last_char : List ℕ → ℕ
last_char name = at name (string_len name - 1)

module _ (v : Drive) where
  abbrev pub reply : {A : Type 0} → A → v.State → Result (Reply v A)
  reply a d = ok (record { value = a; disk = d; local_code = none })

  -- The writes of the catalog and of the partition's block.
  unfoldable pub write_created : v.State → ℕ → Catalog → v.State
  write_created d lba c =
      let written = write_catalog v d lba c in
      write_block v written (count_one (read_block v written))

  -- A free place is taken, if the partition has a catalog left.
  unfoldable pub take_free : List ℕ → Catalog → v.State → ℕ → Result (Reply v (Option Catalog))
  unfolding write_created place
  take_free parent child d start_free =
      let block = read_block v d in
      let c = place parent (read_catalog v d start_free) block start_free child in
      if ltb block.free_catalog 1
      then reply none d
      else reply (some c) (write_created d start_free c)

  -- The loop over the places.
  unfoldable pub allocate :
      ℕ → List ℕ → List ℕ → Catalog → v.State → ℕ → Result (Reply v (Option Catalog))
  unfolding take_free
  allocate zero parent name child d start_free = out_of_fuel
  allocate (suc fuel) parent name child d start_free =
      let next = read_catalog v d start_free in
      let rest = allocate fuel parent name child d ((start_free + padding) % 2 ^ 64) in
      if leb start_free root_catalog_start_address
      then reply none d
      else if not (is_created next)
      then take_free parent child d start_free
      else if equals next.name name
      then reply (some next) d
      else rest

  -- Behind the search for the parent.
  unfoldable pub create_below :
      ℕ → List ℕ → List ℕ → ℕ → ℕ → v.State → Option Entry → Result (Reply v (Option Catalog))
  unfolding allocate new_catalog
  create_below fuel parent name flags kind d none =
      let out_lba = (read_block v d).start_catalog in
      let start_free = (read_catalog v d out_lba).next_sibling in
      allocate fuel parent name (new_catalog name flags kind out_lba) d start_free
  create_below fuel parent name flags kind d (some e) =
      let start_free = (read_catalog v d e.lba).next_sibling in
      if e.catalog.kind == kind_file
      then reply none d
      else allocate fuel parent name (new_catalog name flags kind e.lba) d start_free

  -- Behind the search for the name itself.
  unfoldable pub create_new :
      ℕ → ℕ → List ℕ → ℕ → ℕ → v.State → Option Entry → Result (Reply v (Option Catalog))
  unfolding create_below fill
  create_new depth fuel name flags kind d (some e) =
      ok (record { value = some e.catalog; disk = d; local_code = some error_file_exists })
  create_new depth fuel name flags kind d none =
      if at (fill name) 0 == 0
      then ok (record { value = none; disk = d; local_code = some error_file_not_found })
      else elim (parent_name name) [
        | none ↦ fault
        | some p ↦ find_catalog v d depth fuel p >>= create_below fuel p name flags kind d
      ]

  unfoldable pub create_catalog :
      ℕ → ℕ → v.State → List ℕ → ℕ → ℕ → Result (Reply v (Option Catalog))
  unfolding create_new string_len
  create_catalog depth fuel d name flags kind =
      if kind == kind_dir && not (last_char name == separator)
      then reply none d
      else if not (kind == kind_dir) && last_char name == separator
      then reply none d
      else (find_catalog v d depth fuel name >>= create_new depth fuel name flags kind d)

  -- CreateCatalog(name).
  abbrev pub create_file : ℕ → ℕ → v.State → List ℕ → Result (Reply v (Option Catalog))
  create_file depth fuel d name = create_catalog depth fuel d name 0 kind_file
