-- ===== src/Nefs/Remove.antt =====
-- NeFSParser::RemoveCatalog of dev/ZKAKit/src/FS/NeFS.cc.
pub mod Still
use zka.Common.{
  ℕ, ◌+◌, ◌%◌, ◌^◌, Bool, true, false, ◌||◌, Option, none, some, List, if◌then◌else◌, leb, or_bits,
}
use zka.Storage.{Drive}
use zka.NewKit.Utils.{equals}
use zka.Memory.Heap.{error_internal}
use zka.Nefs.{catalog_start_address, flag_deleted, root, sub64}
use zka.Nefs.Structs.{Catalog, Block}
use zka.Nefs.Volume.{
  Result, ok, fault, out_of_fuel, ◌>>=◌, Reply, is_created, read_block, write_catalog, write_block,
}
use zka.Nefs.Find.{Entry, find_catalog}

-- `catalog->Flags |= kNeFSFlagDeleted`.
abbrev pub mark_deleted : Catalog → Catalog
mark_deleted c = record c { flags = or_bits 16 c.flags flag_deleted }

-- `--part_block->CatalogCount; ++part_block->FreeSectors`.
abbrev pub forget_one : Block → Block
forget_one b = record b {
  catalog_count = sub64 b.catalog_count 1;
  free_sectors = (b.free_sectors + 1) % 2 ^ 64;
}

module _ (v : Drive) where
  -- The two writes.
  unfoldable pub write_removed : v.State → Entry → v.State
  write_removed d e =
      let marked = write_catalog v d e.lba (mark_deleted e.catalog) in
      write_block v marked (forget_one (read_block v marked))

  -- What follows the search. Without a catalog, `out_lba` is 0 and `catalog->Flags` is read through null.
  unfoldable pub remove_found : v.State → Option Entry → Result (Reply v Bool)
  unfolding write_removed
  remove_found d none = fault
  remove_found d (some e) = ok (
      if leb catalog_start_address e.lba || is_created e.catalog
      then record { value = true; disk = write_removed d e; local_code = none }
      else record { value = false; disk = d; local_code = none })

  unfoldable pub remove_catalog : ℕ → ℕ → v.State → Option (List ℕ) → Result (Reply v Bool)
  unfolding remove_found
  remove_catalog depth fuel d none =
      ok (record { value = false; disk = d; local_code = some error_internal })
  remove_catalog depth fuel d (some name) =
      if equals name root
      then ok (record { value = false; disk = d; local_code = some error_internal })
      else (find_catalog v d depth fuel name >>= remove_found d)
