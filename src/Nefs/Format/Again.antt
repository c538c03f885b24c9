-- ===== src/Nefs/Format/Again.antt =====
-- Format of dev/ZKAKit/src/FS/NeFS.cc on a disk that has a partition.
use zka.Common.{ℕ, suc, ◌+◌, ◌%◌, ◌^◌, ◌≤◌, ◌≡◌, refl, ap, ◌∙◌, true, false, some, List}
use zka.Storage.{Drive, IsLawful, gap}
use zka.Nefs.{root_catalog_start_address, catalog_start_address, kind_dir, root, sector_size}
use zka.Nefs.Structs.{Block}
use zka.Nefs.Layout.Blocks.{decode_block, decode_block-IsBlock}
use zka.Nefs.Volume.{ok, read_catalog, read_block}
use zka.Nefs.Find.{find_catalog, matches, scan, Entry}
use zka.Nefs.Create.{create_catalog, create_new, error_file_exists}
use zka.Nefs.Format.{is_empty, fresh, take_partition, partition_loop, format}
use zka.Nefs.Format.Taken.{
  IsRequest, last_char-root, le_ltb-false, formatted, read_block-formatted, read_catalog-formatted,
  scan_start, format-partition_loop,
}

scan_found :
    (v : Drive) (d : v.State) (fuel lba : ℕ)
    → matches root (read_catalog v d lba) ≡ true
    → scan v d (suc fuel) lba root
      ≡ ok (some (record { lba = lba; catalog = read_catalog v d lba }))
unfolding scan
scan_found v d fuel lba h = rw h refl

create_again :
    (v : Drive) (depth fuel : ℕ) (d : v.State) (e : Entry)
    → find_catalog v d (suc depth) fuel root ≡ ok (some e)
    → create_catalog v (suc depth) fuel d root 0 kind_dir
      ≡ ok (record { value = some e.catalog; disk = d; local_code = some error_file_exists })
unfolding create_catalog create_new
create_again v depth fuel d e h = rw (last_char-root, h) refl

-- The block behind the first partition.
abbrev pub second_block : (v : Drive) → v.State → Block
second_block v d =
    let a = (root_catalog_start_address + (read_block v d).disk_size) % 2 ^ 64 in
    decode_block (v.input d a sector_size)

module _ (v : Drive) (capacity : ℕ) (law : IsLawful v capacity)
    (room : catalog_start_address + gap ≤ capacity) (depth beyond sectors size end_lba flags : ℕ)
    (part_name : List ℕ) (r : IsRequest beyond sectors size end_lba flags part_name)
    (d : v.State) where
  -- On a drive that keeps its sectors apart, where a partition with its root stands and the block
  -- behind that partition is empty, a Format without a boot block answers true, with the code of a
  -- catalog that exists already, and has written the new partition over the block of the first one,
  -- made from what stood in the second.
  pub format-overwrites :
      (rounds fuel : ℕ)
      → is_empty beyond (read_block v d) ≡ false
      → is_empty beyond (second_block v d) ≡ true
      → matches root (read_catalog v d catalog_start_address) ≡ true
      → (d' : v.State) × (format v
            (suc depth)
            beyond
            sectors
            size
            (suc (suc rounds))
            (suc fuel)
            true
            d
            end_lba
            flags
            part_name
          ≡ ok (record { value = true; disk = d'; local_code = some error_file_exists }))
        × (read_block v d' ≡ fresh beyond sectors size part_name (second_block v d))
  unfolding partition_loop take_partition
  format-overwrites rounds fuel taken empty rooted =
      let h = decode_block-IsBlock _ (law.input-IsBytes d _) in
      let w =
        formatted v capacity law room depth beyond sectors size end_lba flags part_name r d
          (second_block v d) in
      let same =
        read_catalog-formatted v capacity law room depth beyond sectors size end_lba flags part_name
          r d (second_block v d) h in
      let found =
        scan_start v capacity law room depth beyond sectors size end_lba flags part_name r d
          (second_block v d) (suc fuel) h
        ∙ scan_found v w fuel catalog_start_address (ap (matches root) same ∙ rooted) in
      (
        w,
        format-partition_loop v capacity law room depth beyond sectors size end_lba flags part_name
              r (suc (suc rounds)) (suc fuel) d
            ∙ rw (taken, empty, le_ltb-false _ 32 r.fits)
                (rw (create_again v depth (suc fuel) w _ found) refl),
        read_block-formatted v capacity law room depth beyond sectors size end_lba flags part_name r
            d (second_block v d) h,
      )
