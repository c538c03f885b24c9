-- ===== src/Nefs/Format.antt =====
-- NeFSParser::Format of dev/ZKAKit/src/FS/NeFS.cc, on the drive that is mounted as A, with the boot block of
-- dev/ZKAKit/FirmwareKit/EPM.h that it may write. What the code prints is left out.
pub mod Taken
pub mod Again
use zka.Common.{
  ℕ, zero, suc, ◌+◌, ◌/◌, ◌%◌, ◌^◌, Bool, true, false, not, ◌&&◌, ◌||◌, Option, none, some, List,
  [], ◌∷◌, ◌++◌, if◌then◌else◌, ltb, ◌==◌, get_or, replicate, any_bits, number, bytes, fields, join,
}
use zka.Storage.{Drive}
use zka.NewKit.Utils.{at, string_len, string_cmp, copy_memory}
use zka.Nefs.{sector_size, root_catalog_start_address, catalog_start_address, kind_dir, root}
use zka.Nefs.Structs.{Block}
use zka.Nefs.Layout.Blocks.{encode_block, decode_block}
use zka.Nefs.Volume.{Result, ok, fault, out_of_fuel, ◌>>=◌, Reply, write_block}
use zka.Nefs.Create.{create_catalog}
use zka.Nefs.Fork.{error_disk_is_corrupted}

-- BOOT_BLOCK_STRUCT.
pub record BootBlock : Type 0 where
  pub magic : List ℕ
  pub name : List ℕ
  pub uuid : List ℕ
  pub version : ℕ
  pub num_blocks : ℕ
  pub sector_sz : ℕ
  pub lba_start : ℕ
  pub lba_end : ℕ
  pub kind : ℕ
  pub fs_version : ℕ
  pub fs : List ℕ
  pub reserved : List ℕ

unfoldable pub encode_boot_block : BootBlock → List ℕ
encode_boot_block b = join (
    b.magic
    ∷ b.name
    ∷ b.uuid
    ∷ bytes 4 b.version
    ∷ bytes 8 b.num_blocks
    ∷ bytes 8 b.sector_sz
    ∷ bytes 8 b.lba_start
    ∷ bytes 8 b.lba_end
    ∷ bytes 2 b.kind
    ∷ bytes 4 b.fs_version
    ∷ b.fs
    ∷ b.reserved
    ∷ [])

-- `LbaStart + LbaEnd` of the block in a sector.
unfoldable pub boot_block_end : List ℕ → ℕ
boot_block_end s =
    let fs = fields (5 ∷ 32 ∷ 16 ∷ 4 ∷ 8 ∷ 8 ∷ 8 ∷ 8 ∷ []) s in
    (number (get_or fs 6 []) + number (get_or fs 7 [])) % 2 ^ 64

-- `kNeFSVersionInteger`, `kNeFSPartitionTypeStandard` and `kNeFSPartitionTypeBoot`.
abbrev pub version_integer : ℕ
version_integer = 0x129

abbrev pub partition_type_standard : ℕ
partition_type_standard = 7

abbrev pub partition_type_boot : ℕ
partition_type_boot = 9

-- `epmBoot` behind the copies of its texts.
unfoldable pub new_boot_block : BootBlock
new_boot_block = record {
  magic = b'E' ∷ b'P' ∷ b'M' ∷ b'A' ∷ b'M' ∷ [];
  name = b'Z' ∷ b'K' ∷ b'A' ∷ b':' ∷ replicate 28 0;
  uuid = replicate 16 0;
  version = 0;
  num_blocks = 0;
  sector_sz = sector_size;
  lba_start = root_catalog_start_address;
  lba_end = 0;
  kind = 0;
  fs_version = version_integer;
  fs = b'N' ∷ b'e' ∷ b'F' ∷ b'S' ∷ replicate 12 0;
  reserved = replicate 401 0;
}

-- `kNeFSIdent`: eight bytes are taken of a literal of seven; the one behind it is a parameter.
abbrev pub ident : ℕ → List ℕ
ident beyond = b' ' ∷ b' ' ∷ b'N' ∷ b'e' ∷ b'F' ∷ b'S' ∷ 0 ∷ beyond ∷ []

-- A place for a partition: without a name, and without the identification.
unfoldable pub is_empty : ℕ → Block → Bool
unfolding string_cmp
is_empty beyond b =
    at b.partition_name 0 == 0 && not (string_cmp (some b.ident) (some (ident beyond)) 8 == 0)

-- The block that is written over an empty one; `sectors` and `size` are what drv_get_sector_count and drv_get_size
-- return. FreeSectors and SectorSize stay as they were read.
unfoldable pub fresh : ℕ → (sectors size : ℕ) → List ℕ → Block → Block
unfolding copy_memory string_len
fresh beyond sectors size part_name b = record b {
  ident = ident beyond;
  partition_name = (copy_memory part_name b.partition_name (string_len part_name)).0;
  version = version_integer;
  kind = partition_type_standard;
  flags = partition_type_standard;
  start_catalog = catalog_start_address;
  catalog_count = sectors / 512;
  free_catalog = sectors / 512;
  sector_count = sectors;
  disk_size = size;
}

module _ (v : Drive) where
  -- The loop over the boot blocks, up to a sector whose first byte is 0; blocks stand 512 bytes apart.
  unfoldable pub boot_loop : ℕ → v.State → (end_lba lba prev_start count : ℕ) → Result v.State
  unfolding encode_boot_block new_boot_block boot_block_end
  boot_loop zero d end_lba lba prev_start count = out_of_fuel
  boot_loop (suc fuel) d end_lba lba prev_start count =
      let buf = v.input d lba sector_size in
      let rest = boot_loop fuel d end_lba ((lba + 512) % 2 ^ 64) (boot_block_end buf) (count + 1) in
      let boot = record new_boot_block {
        lba_start = if prev_start == 0 then 0 else lba;
        lba_end = end_lba;
        num_blocks = count;
      } in
      if at buf 0 == 0 then ok (v.output d lba (encode_boot_block boot)) else rest

  -- What makes the disk bootable.
  unfoldable pub make_bootable : ℕ → v.State → ℕ → ℕ → Result v.State
  unfolding boot_loop
  make_bootable fuel d end_lba flags =
      if any_bits 32 flags partition_type_boot then boot_loop fuel d end_lba 0 0 0 else ok d

  module _ (depth beyond sectors size : ℕ) where
    -- An empty partition is taken: its block is written to the start, and the root is created. A name of more than
    -- 32 bytes leaves its field, and is taken for a fault.
    unfoldable pub take_partition : ℕ → v.State → List ℕ → Block → Result (Reply v Bool)
    unfolding create_catalog fresh string_len
    take_partition fuel d part_name b =
        let written = write_block v d (fresh beyond sectors size part_name b) in
        if ltb 32 (string_len part_name)
        then fault
        else (create_catalog v depth fuel written root 0 kind_dir >>= λ r.
            ok (record { value = true; disk = r.disk; local_code = r.local_code }))

    -- The loop over the partitions: `b` is the block that was read at `start`.
    unfoldable pub partition_loop : ℕ → ℕ → v.State → List ℕ → ℕ → Block → Result (Reply v Bool)
    unfolding take_partition is_empty
    partition_loop zero fuel d part_name start b = out_of_fuel
    partition_loop (suc rounds) fuel d part_name start b =
        let start' = (start + b.disk_size) % 2 ^ 64 in
        let rest =
          partition_loop rounds fuel d part_name start'
            (decode_block (v.input d start' sector_size)) in
        if is_empty beyond b then take_partition fuel d part_name b else rest

    -- Format; `good` is the drive's `fPacketGood`.
    unfoldable pub format :
        ℕ → ℕ → Bool → v.State → (end_lba flags : ℕ) → List ℕ → Result (Reply v Bool)
    unfolding partition_loop make_bootable
    format rounds fuel good d end_lba flags part_name =
        let block = decode_block (v.input d root_catalog_start_address sector_size) in
        if at part_name 0 == 0 || end_lba == 0
        then ok (record { value = false; disk = d; local_code = none })
        else if not good
        then ok (record { value = false; disk = d; local_code = some error_disk_is_corrupted })
        else (make_bootable rounds d end_lba flags >>= λ booted.
            partition_loop rounds fuel booted part_name root_catalog_start_address block)
