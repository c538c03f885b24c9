-- ===== src/Boot.antt =====
-- The boot loader's formatter of drives, BDiskFormatFactory of dev/ZBAKit/BootKit/BootKit.h, over the drive that it is
-- made for, whose addresses are those of whole sectors: dev/ZBAKit/src/HEL/AMD64/BootATA.cc divides them.
pub mod Written
pub mod Root
use zka.Common.{
  ℕ, zero, suc, ◌+◌, ◌*◌, ◌/◌, ◌^◌, Bool, true, false, not, ◌||◌, Option, none, some, List, [], ◌∷◌,
  if◌then◌else◌, ltb, ◌==◌, replicate,
}
use zka.Storage.{Drive}
use zka.NewKit.Utils.{at, drop, copy_memory}
use zka.Nefs.{sector_size, root_catalog_start_address, catalog_start_address, flag_created}
use zka.Nefs.Structs.{Catalog, Block}
use zka.Nefs.Layout.Catalogs.{encode_catalog}
use zka.Nefs.Layout.Blocks.{encode_block}
use zka.Nefs.Volume.{read_block}
use zka.Nefs.Format.{BootBlock, encode_boot_block, version_integer}

-- BFileDescriptor.
pub record FileDescriptor : Type 0 where
  pub file_name : List ℕ
  pub kind : ℕ

-- strlen of dev/ZBAKit/src/BootSupport.cc.
unfoldable pub strlen : List ℕ → ℕ
strlen [] = 0
strlen (b ∷ s) = if b == 0 then 0 else 1 + strlen s

-- memcpy of the same file: it copies words of four bytes, as many as it is asked for bytes. Here what reaches past the
-- field is dropped.
unfoldable pub memcpy : List ℕ → List ℕ → ℕ → List ℕ
unfolding copy_memory
memcpy src dst len = (copy_memory src dst (4 * len)).0

-- The bytes that can be read through the pointers of the texts: each text, with what stands behind it.
pub record Literals : Type 0 where
  pub ident : List ℕ
  pub fs_name : List ℕ
  pub block_name : List ℕ
  pub magic : List ℕ

-- `kNeFSMinimumDiskSize`.
abbrev pub minimum_disk_size : ℕ
minimum_disk_size = 4 * 1024 * 1024 * 1024

-- The partition block; `sectors` and `size` are what GetSectorsCount and GetDiskSize return. The copy of the
-- identification goes on into the name, and that of the name into fields that are then assigned.
unfoldable pub new_partition : Literals → (sectors size blob_count : ℕ) → List ℕ → Block
unfolding memcpy strlen
new_partition lits sectors size blob_count part_name = record {
  ident = memcpy lits.ident (replicate 8 0) 7;
  partition_name =
      memcpy part_name (copy_memory (drop 8 lits.ident) (replicate 32 0) 20).0 (strlen part_name);
  flags = 15;
  kind = 0xC0;
  start_catalog = catalog_start_address;
  catalog_count = blob_count;
  disk_size = size;
  free_catalog = sectors / 512;
  free_sectors = sectors;
  sector_count = sectors;
  sector_size = sector_size;
  version = version_integer;
  epm_block = 0;
  pad = replicate 392 0;
}

-- The copy of the magic goes on into the name.
unfoldable pub epm_boot : Literals → ℕ → BootBlock
unfolding memcpy
epm_boot lits blob_count = record {
  magic = memcpy lits.magic (replicate 5 0) 5;
  name = (copy_memory (drop 5 lits.magic) (memcpy lits.block_name (replicate 32 0) 4) 15).0;
  uuid = replicate 16 0;
  version = 0;
  num_blocks = blob_count;
  sector_sz = sector_size;
  lba_start = root_catalog_start_address;
  lba_end = 0;
  kind = 0x1F;
  fs_version = version_integer;
  fs = memcpy lits.fs_name (replicate 16 0) 4;
  reserved = replicate 401 0;
}

-- The catalog that WriteRootCatalog makes of the first descriptor.
unfoldable pub first_catalog : FileDescriptor → Catalog
unfolding memcpy strlen
first_catalog blob = record {
  name = memcpy blob.file_name (replicate 256 0) (strlen blob.file_name);
  mime = replicate 200 0;
  flags = flag_created;
  filk_mm_flags = 0;
  kind = blob.kind;
  data_fork_size = 0;
  resource_fork_size = 0;
  data_fork = 0;
  resource_fork = 0;
  next_sibling = catalog_start_address + 512 * 4;
  prev_sibling = catalog_start_address;
}

-- The comparison of the identification, byte by byte; the last one is read behind the literal.
unfoldable pub ident_loop : ℕ → ℕ → List ℕ → List ℕ → Bool
ident_loop zero i literal s = true
ident_loop (suc n) i literal s =
    let rest = ident_loop n (i + 1) literal s in
    if not (at s i == at literal i) then false else rest

-- The longest names whose copies reach into no field that is not assigned behind them.
abbrev pub part_name_limit : ℕ
part_name_limit = 26

abbrev pub file_name_limit : ℕ
file_name_limit = 64

module _ (v : Drive) (lits : Literals) where
  abbrev pub write_at : v.State → ℕ → List ℕ → v.State
  write_at d base s = v.output d (base / 512 * 512) s

  -- WriteRootCatalog; the counts that it changes stand in memory only.
  unfoldable pub write_root_catalog : v.State → FileDescriptor → v.State
  unfolding first_catalog
  write_root_catalog d blob = write_at d catalog_start_address (encode_catalog (first_catalog blob))

  -- Format of the first descriptor and the number of all of them; without a result a name is longer than its limit.
  unfoldable pub format_drive :
      (sectors size : ℕ) → v.State → List ℕ → Option FileDescriptor → ℕ → Option (Bool × v.State)
  unfolding new_partition epm_boot write_root_catalog strlen
  format_drive sectors size d part_name none blob_count = some (false, d)
  format_drive sectors size d part_name (some blob) blob_count =
      let parted =
        write_at d root_catalog_start_address
          (encode_block (new_partition lits sectors size blob_count part_name)) in
      let booted = write_at parted 1 (encode_boot_block (epm_boot lits blob_count)) in
      if blob_count == 0 || ltb size minimum_disk_size
      then some (false, d)
      else if ltb part_name_limit (strlen part_name) || ltb file_name_limit (strlen blob.file_name)
      then none
      else some (true, write_root_catalog booted blob)

  -- IsPartitionValid.
  unfoldable pub is_partition_valid : (size : ℕ) → v.State → Bool
  unfolding ident_loop
  is_partition_valid size d =
      let b = read_block v d in
      if not (ident_loop 8 0 lits.ident b.ident)
      then false
      else if not (b.disk_size == size)
          || ltb b.disk_size 1
          || not (b.sector_size == sector_size)
          || not (b.version == version_integer)
          || b.start_catalog == 0
      then false
      else not (at b.partition_name 0 == 0)
