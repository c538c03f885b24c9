-- ===== src/Boot/Root.antt =====
-- The disk that the boot loader formats, dev/ZBAKit/BootKit/BootKit.h, as the boot loader and the kernel read it.
use zka.Common.{
  ℕ, zero, suc, ◌+◌, ◌*◌, ◌^◌, ◌≤◌, ◌<◌, ◌≡◌, ◌≢◌, refl, ap, sym, ◌∙◌, inl, true, false, not, ◌||◌,
  some, List, [], ◌∷◌, ltb, ◌==◌, any_bits, and_bits, neq-test, eq-test, replicate, arith, length,
  lt→ltb,
}
use zka.Storage.{Drive, IsLawful, gap}
use zka.NewKit.Utils.{at, drop, string_len, equals, equals_loop, copy_memory, copy_loop}
use zka.Nefs.{sector_size, root_catalog_start_address, catalog_start_address, root}
use zka.Nefs.Structs.{Catalog, Block}
use zka.Nefs.Layout.Blocks.{decode_block}
use zka.Nefs.Volume.{ok, is_created, read_catalog, read_block, write_block, write_catalog}
use zka.Nefs.Volume.Frame.{
  read_block-write_block, read_catalog-write_catalog, read_block-write_catalog,
}
use zka.Nefs.Find.{find_catalog, scan, matches, Entry}
use zka.Nefs.Create.Place.{AreBytes}
use zka.Nefs.Format.{encode_boot_block, version_integer}
use zka.NewKit.Utils.Copy.{copy_memory-at}
use zka.Boot.{
  Literals, strlen, memcpy, minimum_disk_size, new_partition, epm_boot, first_catalog, ident_loop,
  write_root_catalog, format_drive, is_partition_valid, part_name_limit,
}
use zka.Boot.Written.{
  root_blob, IsText, new_partition-IsBlock, epm_boot-IsBytes, first_catalog-IsCatalog,
}

matches-first_catalog : (rest : List ℕ) → matches root (first_catalog (root_blob rest)) ≡ true
unfolding equals equals_loop string_len is_created any_bits and_bits first_catalog memcpy
    copy_memory copy_loop strlen
matches-first_catalog rest = refl

-- A field whose bytes are those of the literal.
ident_loop-same :
    (n i : ℕ) (literal s : List ℕ)
    → ((j : ℕ) → j < i + n → at s j ≡ at literal j)
    → ident_loop n i literal s ≡ true
unfolding ident_loop
ident_loop-same zero i literal s h = refl
ident_loop-same (suc n) i literal s h =
    rw (eq-test (at s i) (at literal i) (h i (omega arith)))
      (ident_loop-same n (i + 1) literal s (λ j l. h j (omega (arith, l))))

memcpy-at :
    (n size : ℕ) (src dst : List ℕ) (j : ℕ)
    → length dst ≡ size
    → j < size
    → j < 4 * n
    → at (memcpy src dst n) j ≡ at src j
unfolding memcpy
memcpy-at n size src dst j e h k =
    (copy_memory-at src dst (4 * n) j (rw e h)).0 ∙ rw (lt→ltb j (4 * n) k) refl

strlen_pos : (s : List ℕ) → at s 0 ≢ 0 → 1 ≤ strlen s
unfolding strlen
strlen_pos [] h = absurd (h refl)
strlen_pos (b ∷ s) h = rw (neq-test b 0 h) (omega arith)

-- What the boot loader is asked for: a name that fits, on a disk that is large enough.
pub record IsOrder (lits : Literals) (sectors size blob_count : ℕ) (part_name rest : List ℕ)
    : Type 0 where
  pub texts : IsText lits
  pub are_bytes : AreBytes part_name
  pub named : at part_name 0 ≢ 0
  pub fits : strlen part_name ≤ part_name_limit
  pub rest_are_bytes : AreBytes rest
  pub large : minimum_disk_size ≤ size
  pub size_lt : size < 2 ^ 64
  pub sectors_lt : sectors < 2 ^ 64
  pub some_blob : blob_count ≢ 0
  pub blobs_lt : blob_count < 2 ^ 64

not_under : (a b : ℕ) → b ≤ a → ltb a b ≡ false
not_under a b h = ground arith

equals-root : equals root root ≡ true
unfolding equals equals_loop string_len
equals-root = refl

abbrev entry_with : Catalog → Entry
entry_with c = record { lba = catalog_start_address; catalog = c }

scan-here :
    (v : Drive) (d : v.State) (fuel lba : ℕ)
    → matches root (read_catalog v d lba) ≡ true
    → scan v d (suc fuel) lba root
      ≡ ok (some (record { lba = lba; catalog = read_catalog v d lba }))
unfolding scan
scan-here v d fuel lba h = rw h refl

module _ (v : Drive) (capacity : ℕ) (law : IsLawful v capacity)
    (room : catalog_start_address + gap ≤ capacity) (lits : Literals) (sectors size blob_count : ℕ)
    (part_name rest : List ℕ) (o : IsOrder lits sectors size blob_count part_name rest)
    (d : v.State) where
  abbrev parted_block : Block
  parted_block = new_partition lits sectors size blob_count part_name

  abbrev booted : v.State
  booted = v.output (write_block v d parted_block) 0 (encode_boot_block (epm_boot lits blob_count))

  abbrev formatted : v.State
  formatted = write_catalog v booted catalog_start_address (first_catalog (root_blob rest))

  format_drive-formatted :
      format_drive v lits sectors size d part_name (some (root_blob rest)) blob_count
      ≡ some (true, formatted)
  unfolding format_drive write_root_catalog strlen
  format_drive-formatted =
      rw
        (
          neq-test blob_count 0 o.some_blob,
          not_under size minimum_disk_size o.large,
          not_under part_name_limit (strlen part_name) o.fits,
        )
        refl

  read_block-formatted : read_block v formatted ≡ parted_block
  read_block-formatted =
      read_block-write_catalog v capacity law booted catalog_start_address
        (first_catalog (root_blob rest)) (first_catalog-IsCatalog rest o.rest_are_bytes) room
        (omega arith)
      ∙ ap decode_block (
          law.input-output_apart (write_block v d parted_block) 0 root_catalog_start_address _
            (epm_boot-IsBytes lits blob_count o.texts) (omega (arith, room)) (omega (arith, room))
            (inl (omega arith)))
      ∙ read_block-write_block v capacity law d parted_block
          (new_partition-IsBlock lits sectors size blob_count part_name o.texts o.are_bytes
            o.sectors_lt o.size_lt o.blobs_lt)
          (omega (arith, room))

  ident-parted : ident_loop 8 0 lits.ident parted_block.ident ≡ true
  unfolding new_partition
  ident-parted =
      ident_loop-same 8 0 lits.ident (memcpy lits.ident (replicate 8 0) 7)
        λ j h. memcpy-at 7 8 lits.ident (replicate 8 0) j refl h (omega (arith, h))

  name-parted : at parted_block.partition_name 0 ≢ 0
  unfolding new_partition
  name-parted e =
      let ground_name = (copy_memory (drop 8 lits.ident) (replicate 32 0) 20).0 in
      o.named (
        sym (
          memcpy-at (strlen part_name) 32 part_name ground_name 0
            (copy_memory-at (drop 8 lits.ident) (replicate 32 0) 20 0 (omega arith)).1 (omega arith)
            (omega (arith, strlen_pos part_name o.named)))
        ∙ e)

  checks-parted :
      (not (parted_block.disk_size == size)
        || ltb parted_block.disk_size 1
        || not (parted_block.sector_size == sector_size)
        || not (parted_block.version == version_integer)
        || parted_block.start_catalog == 0)
      ≡ false
  unfolding new_partition
  checks-parted = rw (eq-test size size refl, not_under size 1 (omega (arith, o.large))) refl

  valid-formatted : is_partition_valid v lits size formatted ≡ true
  unfolding is_partition_valid
  valid-formatted =
      rw
        (
          read_block-formatted,
          ident-parted,
          checks-parted,
          neq-test (at parted_block.partition_name 0) 0 name-parted,
        )
        refl

  start-parted : parted_block.start_catalog ≡ catalog_start_address
  unfolding new_partition
  start-parted = refl

  found-formatted :
      (depth fuel : ℕ)
      → find_catalog v formatted (suc depth) (suc fuel) root
        ≡ ok (
            some (record { lba = catalog_start_address; catalog = first_catalog (root_blob rest) }))
  unfolding find_catalog
  found-formatted depth fuel =
      let same =
        read_catalog-write_catalog v capacity law booted catalog_start_address
          (first_catalog (root_blob rest)) (first_catalog-IsCatalog rest o.rest_are_bytes) room in
      rw equals-root (
        ap (λ (b : Block). scan v formatted (suc fuel) b.start_catalog root) read_block-formatted
        ∙ ap (λ (a : ℕ). scan v formatted (suc fuel) a root) start-parted
        ∙ scan-here v formatted fuel catalog_start_address
            (ap (matches root) same ∙ matches-first_catalog rest)
        ∙ ap (λ (c : Catalog). ok (some (entry_with c))) same)

-- On a drive that keeps its sectors apart, of 4 GiB at least, the boot loader's Format with the
-- root as its directory, some number of descriptors and a partition's name of 1 to 26 bytes answers
-- true. The disk that it leaves is a valid partition to the boot loader, with the same literals,
-- and the kernel's FindCatalog finds its root there, with any bound on the depth and any fuel above
-- zero.
pub format_drive-find_catalog :
    (v : Drive) (capacity : ℕ)
    → IsLawful v capacity
    → catalog_start_address + gap ≤ capacity
    → (lits : Literals) (sectors size blob_count : ℕ) (part_name rest : List ℕ)
    → IsOrder lits sectors size blob_count part_name rest
    → (d : v.State) (depth fuel : ℕ)
    → (d' : v.State) × (format_drive v lits sectors size d part_name
          (some (root_blob rest))
          blob_count
        ≡ some (true, d'))
      × (is_partition_valid v lits size d' ≡ true)
      × (find_catalog v d' (suc depth) (suc fuel) root
          ≡ ok (
              some
                (record { lba = catalog_start_address; catalog = first_catalog (root_blob rest) })))
format_drive-find_catalog v capacity law room lits sectors size blob_count part_name rest o d depth
      fuel =
    (
      formatted v capacity law room lits sectors size blob_count part_name rest o d,
      format_drive-formatted v capacity law room lits sectors size blob_count part_name rest o d,
      valid-formatted v capacity law room lits sectors size blob_count part_name rest o d,
      found-formatted v capacity law room lits sectors size blob_count part_name rest o d depth
          fuel,
    )
