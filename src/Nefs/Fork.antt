-- ===== src/Nefs/Fork.antt =====
-- The forks of a catalog: CreateFork, FindFork, WriteCatalog and ReadCatalog of dev/ZKAKit/src/FS/NeFS.cc.
pub mod Created
pub mod Twice
pub mod Data
pub mod Stored
use zka.Common.{
  ℕ, zero, suc, ◌+◌, ◌*◌, ◌%◌, ◌^◌, Bool, true, false, not, ◌&&◌, ◌||◌, Option, none, some, List,
  if◌then◌else◌, ltb, leb, ◌==◌, or_bits, any_bits, replicate,
}
use zka.Storage.{Drive}
use zka.NewKit.Utils.{at, equals, copy_memory}
use zka.Nefs.{
  error_file_not_found, catalog_start_address, flag_created, flag_deleted, flag_unallocated,
  fork_data_size, sub64,
}
use zka.Nefs.Structs.{Catalog, Fork}
use zka.Nefs.Volume.{Result, ok, fault, out_of_fuel, ◌>>=◌, Reply, read_fork, write_fork}

-- `kNeFSDataForkKind`.
abbrev pub data_fork_kind : ℕ
data_fork_kind = 1

-- `sizeof(NFS_FORK_STRUCT)`.
abbrev pub fork_struct_size : ℕ
fork_struct_size = 512

abbrev pub error_disk_is_corrupted : ℕ
error_disk_is_corrupted = 54

-- `NFS_FORK_STRUCT prevFork{0}`.
abbrev pub no_fork : Fork
no_fork = record {
  fork_name = replicate 200 0;
  catalog_name = replicate 256 0;
  flags = 0;
  kind = 0;
  resource_id = 0;
  resource_kind = 0;
  resourck_mm_flags = 0;
  data_offset = 0;
  data_size = 0;
  next_sibling = 0;
  previous_sibling = 0;
}

-- The same fork of the same catalog.
abbrev pub same_fork : List ℕ → List ℕ → Fork → Bool
same_fork name catalog f = equals f.fork_name name && equals f.catalog_name catalog

-- The fork as it is written to `lba`, behind the one at `previous`.
unfoldable pub placed_fork : ℕ → ℕ → Fork → Fork
placed_fork previous lba f =
    let offset = sub64 lba fork_struct_size in
    record f {
      flags = or_bits 32 f.flags flag_created;
      data_offset = offset;
      previous_sibling = previous;
      next_sibling = sub64 (sub64 offset f.data_size) fork_struct_size;
    }

-- FindFork: the fork is read through `the_fork`, which is null.
unfoldable pub find_fork : Catalog → List ℕ → Bool → Result (Option Fork)
find_fork c name is_data_fork =
    let lba = if is_data_fork then c.data_fork else c.resource_fork in
    if lba == 0 then ok none else fault

-- What WriteCatalog asks of a fork.
unfoldable pub takes_data : Catalog → List ℕ → ℕ → Fork → Bool
takes_data c name size f =
    not (f.flags == flag_unallocated)
    && not (f.flags == flag_deleted)
    && same_fork name c.name f
    && f.data_size == size

-- `buf`, the data with zeros behind it. The clear of the buffer writes words for bytes, and so 64 MiB over its 16
-- MiB; what it overwrites of the kernel's memory behind the buffer is not modelled.
unfoldable pub padded_data : List ℕ → ℕ → List ℕ
unfolding fork_data_size copy_memory
padded_data content size = (copy_memory content (replicate fork_data_size 0) size).0

module _ (v : Drive) where
  abbrev pub fork_reply : {A : Type 0} → A → v.State → Result (Reply v A)
  fork_reply a d = ok (record { value = a; disk = d; local_code = none })

  -- Behind the loop of CreateFork.
  unfoldable pub write_new_fork : v.State → Fork → ℕ → ℕ → Result (Reply v (Option Fork))
  unfolding placed_fork
  write_new_fork d f previous lba =
      let g = placed_fork previous lba f in fork_reply (some g) (write_fork v d lba g)

  -- The loop of CreateFork: `prev` was read from `previous`.
  unfoldable pub fork_loop :
      ℕ → Catalog → Fork → v.State → Fork → ℕ → ℕ → Result (Reply v (Option Fork))
  unfolding write_new_fork any_bits
  fork_loop zero c f d prev previous lba = out_of_fuel
  fork_loop (suc fuel) c f d prev previous lba =
      let cur = read_fork v d lba in
      let rest = fork_loop fuel c f d cur lba cur.next_sibling in
      if leb lba catalog_start_address
      then write_new_fork d f previous lba
      else if ltb 0 cur.next_sibling
      then write_new_fork d f previous lba
      else if any_bits 32 cur.flags flag_created
      then (if same_fork f.fork_name c.name cur then fork_reply none d else rest)
      else write_new_fork (write_fork v d previous (record prev { next_sibling = lba })) f previous
          lba

  unfoldable pub create_fork : v.State → Option Catalog → Fork → Result (Reply v (Option Fork))
  unfolding fork_loop fork_data_size
  create_fork d none f = fork_reply none d
  create_fork d (some c) f =
      let lba = if f.kind == data_fork_kind then c.data_fork else c.resource_fork in
      if at f.fork_name 0 == 0 || ltb fork_data_size f.data_size
      then fork_reply none d
      else if leb lba catalog_start_address
      then fork_reply none d
      else fork_loop 2 c f d no_fork lba lba

  -- The two writes of WriteCatalog.
  unfoldable pub write_blob : v.State → List ℕ → ℕ → ℕ → Fork → v.State
  write_blob d content size lba f =
      write_fork v (v.output d f.data_offset (padded_data content size))
        (sub64 lba fork_struct_size) (record f { flags = or_bits 32 f.flags flag_created })

  -- The loop of WriteCatalog. The last component tells whether the catalog was deleted.
  unfoldable pub write_loop :
      ℕ → v.State → Catalog → List ℕ → ℕ → List ℕ → ℕ → Result (Reply v Bool)
  unfolding takes_data write_blob
  write_loop zero d c content size name lba = out_of_fuel
  write_loop (suc fuel) d c content size name lba =
      let f = read_fork v d lba in
      let rest = write_loop fuel d c content size name f.next_sibling in
      if ltb lba catalog_start_address
      then fork_reply false d
      else if leb f.data_offset catalog_start_address
      then ok (record { value = false; disk = d; local_code = some error_disk_is_corrupted })
      else if takes_data c name size f
      then fork_reply true (write_blob d content size lba f)
      else rest

  -- WriteCatalog. Where it answers true it has deleted the catalog's object in memory.
  unfoldable pub write_data :
      ℕ → v.State → Catalog → Bool → List ℕ → ℕ → List ℕ → Result (Reply v Bool)
  unfolding write_loop fork_data_size
  write_data fuel d c is_rsrc_fork content size name =
      if ltb fork_data_size size || size == 0
      then fork_reply false d
      else write_loop fuel d c content size name
          (if is_rsrc_fork then c.resource_fork else c.data_fork)

  -- The loop of ReadCatalog: `last` is what `fs_fork_data` points to.
  unfoldable pub read_loop : ℕ → v.State → Catalog → List ℕ → Option Fork → ℕ → Result (Option Fork)
  read_loop zero d c name last lba = out_of_fuel
  read_loop (suc fuel) d c name last lba =
      let f = read_fork v d lba in
      let rest = read_loop fuel d c name (some f) f.next_sibling in
      if leb lba catalog_start_address
      then ok (if ltb lba catalog_start_address then none else last)
      else if equals name f.fork_name && equals c.name f.catalog_name
      then ok (some f)
      else rest

  -- ReadCatalog: the fork, and the code of the error.
  unfoldable pub read_data :
      ℕ → v.State → Option Catalog → Bool → List ℕ → Result (Option Fork × Option ℕ)
  unfolding read_loop
  read_data fuel d none is_rsrc_fork name = ok (none, some error_file_not_found)
  read_data fuel d (some c) is_rsrc_fork name =
      read_loop fuel d c name none (if is_rsrc_fork then c.resource_fork else c.data_fork) >>= λ f.
      ok (f, none)
