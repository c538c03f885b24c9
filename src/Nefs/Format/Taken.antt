-- ===== src/Nefs/Format/Taken.antt =====
-- Format of dev/ZKAKit/src/FS/NeFS.cc takes an empty partition, and asks for its root.
use zka.Common.{
  ℕ, suc, ◌+◌, ◌/◌, ◌^◌, ◌≤◌, ◌<◌, ◌≡◌, ◌≢◌, refl, ap, ◌∙◌, inl, inr, true, false, ◌||◌, none, List,
  ltb, leb, ◌==◌, any_bits, Bool-cases, arith,
}
use zka.Storage.{Drive, IsLawful, gap}
use zka.NewKit.Utils.{at, string_len, equals, equals_loop, copy_memory, copy_loop}
use zka.Nefs.{root_catalog_start_address, catalog_start_address, kind_dir, root, separator}
use zka.Nefs.Structs.{Catalog, Block}
use zka.Nefs.Path.{parent_name, fill, clear_and_strip}
use zka.Nefs.Layout.Blocks.{IsBlock}
use zka.Nefs.Volume.{ok, fault, is_created, read_catalog, read_block, write_block}
use zka.Nefs.Volume.Frame.{read_block-IsBlock, read_block-write_block, read_catalog-write_block}
use zka.Nefs.Find.{find_catalog, matches, scan}
use zka.Nefs.Create.{create_catalog, create_new, last_char}
use zka.Nefs.Create.Place.{AreBytes, IsBytes-copy_loop}
use zka.Nefs.Format.{
  is_empty, fresh, make_bootable, take_partition, partition_loop, format, partition_type_boot,
}

-- What Format is asked for: a partition with a name that fits its field, on a disk of some size, and no boot block.
pub record IsRequest (beyond sectors size end_lba flags : ℕ) (part_name : List ℕ) : Type 0 where
  pub named : at part_name 0 ≢ 0
  pub fits : string_len part_name ≤ 32
  pub are_bytes : AreBytes part_name
  pub byte : beyond < 256
  pub sectors_lt : sectors < 2 ^ 64
  pub size_lt : size < 2 ^ 64
  pub some_end : end_lba ≢ 0
  pub no_boot : any_bits 32 flags partition_type_boot ≡ false

equals-root : equals root root ≡ true
unfolding equals equals_loop string_len
equals-root = refl

fill-root : at (fill root) 0 ≡ 47
unfolding fill copy_loop string_len
fill-root = refl

pub last_char-root : last_char root ≡ separator
unfolding string_len
last_char-root = refl

-- The name of the root has no parent's name: the code leaves its array.
parent_name-root : parent_name root ≡ none
unfolding parent_name clear_and_strip fill copy_loop string_len
parent_name-root = refl

not_matching : (c : Catalog) → is_created c ≡ false → matches root c ≡ false
not_matching c free = elim (Bool-cases (equals root c.name)) [
  | inl e ↦ rw (e, free) refl
  | inr e ↦ rw e refl
]

le_leb : (a b : ℕ) → a ≤ b → leb a b ≡ true
le_leb a b h = ground arith

pub le_ltb-false : (a b : ℕ) → a ≤ b → ltb b a ≡ false
le_ltb-false a b h = ground arith

-- A root that is not found cannot be created.
create_root :
    (v : Drive) (depth fuel : ℕ) (d : v.State)
    → find_catalog v d (suc depth) fuel root ≡ ok none
    → create_catalog v (suc depth) fuel d root 0 kind_dir ≡ fault
unfolding create_catalog create_new
create_root v depth fuel d h = rw (last_char-root, h, fill-root, parent_name-root) refl

sectors_fit : (n : ℕ) → n < 2 ^ 64 → n / 512 < 2 ^ 64
sectors_fit n h = omega arith

named_test : (name : List ℕ) (n : ℕ) → at name 0 ≢ 0 → n ≢ 0 → (at name 0 == 0 || n == 0) ≡ false
named_test name n h k = ground arith

module _ (beyond sectors size end_lba flags : ℕ) (part_name : List ℕ) where
  pub fresh-IsBlock :
      (b : Block)
      → IsRequest beyond sectors size end_lba flags part_name
      → IsBlock b
      → IsBlock (fresh beyond sectors size part_name b)
  unfolding fresh copy_memory
  fresh-IsBlock b r h = (
    (
      omega arith,
      (
        omega arith,
        (omega arith, (omega arith, (omega arith, (omega arith, (omega arith, (r.byte, tt)))))),
      ),
    ),
    IsBytes-copy_loop (string_len part_name) 0 32 part_name b.partition_name r.are_bytes h.1,
    omega arith,
    omega arith,
    omega arith,
    sectors_fit sectors r.sectors_lt,
    r.size_lt,
    sectors_fit sectors r.sectors_lt,
    h.8,
    r.sectors_lt,
    h.10,
    omega arith,
    h.12,
    h.13,
  )

module _ (v : Drive) (capacity : ℕ) (law : IsLawful v capacity)
    (room : catalog_start_address + gap ≤ capacity) (depth beyond sectors size end_lba flags : ℕ)
    (part_name : List ℕ) (r : IsRequest beyond sectors size end_lba flags part_name) where
  -- The disk with the block that is written.
  abbrev pub formatted : v.State → Block → v.State
  formatted d b = write_block v d (fresh beyond sectors size part_name b)

  pub read_block-formatted :
      (d : v.State) (b : Block)
      → IsBlock b
      → read_block v (formatted d b) ≡ fresh beyond sectors size part_name b
  read_block-formatted d b h =
      read_block-write_block v capacity law d (fresh beyond sectors size part_name b)
        (fresh-IsBlock beyond sectors size end_lba flags part_name b r h) (omega (arith, room))

  pub read_catalog-formatted :
      (d : v.State) (b : Block)
      → IsBlock b
      → read_catalog v (formatted d b) catalog_start_address
        ≡ read_catalog v d catalog_start_address
  read_catalog-formatted d b h =
      read_catalog-write_block v capacity law d catalog_start_address
        (fresh beyond sectors size part_name b)
        (fresh-IsBlock beyond sectors size end_lba flags part_name b r h) room (omega arith)

  -- The search for the root begins at the first catalog.
  pub scan_start :
      (d : v.State) (b : Block) (fuel : ℕ)
      → IsBlock b
      → find_catalog v (formatted d b) (suc depth) fuel root
        ≡ scan v (formatted d b) fuel catalog_start_address root
  unfolding find_catalog fresh
  scan_start d b fuel h = rw equals-root (
      ap (λ (c : Block). scan v (formatted d b) fuel c.start_catalog root)
        (read_block-formatted d b h))

  pub format-partition_loop :
      (rounds fuel : ℕ) (d : v.State)
      → format v (suc depth) beyond sectors size rounds fuel true d end_lba flags part_name
        ≡ partition_loop v
            (suc depth)
            beyond
            sectors
            size
            rounds
            fuel
            d
            part_name
            root_catalog_start_address
            (read_block v d)
  unfolding format make_bootable
  format-partition_loop rounds fuel d =
      rw (named_test part_name end_lba r.named r.some_end, r.no_boot) refl

  scan_blank :
      (d : v.State) (fuel : ℕ)
      → is_created (read_catalog v d catalog_start_address) ≡ false
      → (read_catalog v d catalog_start_address).next_sibling ≤ root_catalog_start_address
      → scan v d (suc fuel) catalog_start_address root ≡ ok none
  unfolding scan
  scan_blank d fuel free last =
      rw (not_matching (read_catalog v d catalog_start_address) free, le_leb _ _ last) refl

  -- On a drive that keeps its sectors apart, a Format without a boot block that finds an empty
  -- partition, whose first catalog is free and has no sibling, leaves an array, which the model
  -- calls a fault: behind the write of the partition's block, the creation of the root catalog
  -- looks for the parent of `/`, and reads and writes in front of the name's array.
  pub format-no_root :
      (rounds fuel : ℕ) (d : v.State)
      → is_empty beyond (read_block v d) ≡ true
      → is_created (read_catalog v d catalog_start_address) ≡ false
      → (read_catalog v d catalog_start_address).next_sibling ≤ root_catalog_start_address
      → format v
          (suc depth)
          beyond
          sectors
          size
          (suc rounds)
          (suc fuel)
          true
          d
          end_lba
          flags
          part_name
        ≡ fault
  unfolding partition_loop take_partition
  format-no_root rounds fuel d empty free last =
      let b = read_block v d in
      let h = read_block-IsBlock v capacity law d in
      let same = read_catalog-formatted d b h in
      let searched =
        scan_start d b (suc fuel) h
        ∙ scan_blank (formatted d b) fuel (ap is_created same ∙ free) (rw same last) in
      format-partition_loop (suc rounds) (suc fuel) d
      ∙ rw (empty, le_ltb-false (string_len part_name) 32 r.fits)
          (rw (create_root v depth (suc fuel) (formatted d b) searched) refl)
