-- ===== src/Examples/Nefs.antt =====
-- A NeFS volume on a drive whose addresses are sectors of their own: the partition's block, the root, the
-- file "/ab" and a free place behind it.
pub mod Search
pub mod Files
pub mod Format
use zka.Common.{
  ℕ, zero, suc, none, some, ◌%◌, ◌^◌, ◌<◌, ◌≡◌, ◌≢◌, refl, ap, ◌∙◌, inl, inr, false, List, [], ◌∷◌,
  replicate, update, update_self, update_ne, any_bits, and_bits, IsBytes, arith,
}
use zka.Storage.{Drive, IsLawful, Apart}
use zka.NewKit.Utils.{at, string_len, equals, equals_loop, copy_loop}
use zka.Nefs.Structs.{Catalog, Block}
use zka.Nefs.Layout.Catalogs.{IsCatalog}
use zka.Nefs.Layout.Blocks.{IsBlock}
use zka.Nefs.Volume.{ok, read_catalog, read_block, write_catalog, write_block, is_created}
use zka.Nefs.Volume.Frame.{
  read_catalog-write_catalog, read_catalog-write_catalog-Apart, read_block-write_catalog,
  read_block-write_block,
}
use zka.Nefs.Path.{parent_name, strip, clear_and_strip, fill}
use zka.Nefs.Find.{Entry, find_catalog}
use zka.Nefs.Find.Lookup.{Chain, last, next, entry_at, resolve, result_of, find_catalog-resolve}

pub tabulate : ℕ → (ℕ → ℕ) → List ℕ
tabulate zero f = []
tabulate (suc n) f = f 0 % 256 ∷ tabulate n (λ i. f (suc i))

abbrev pub sparse : Drive
sparse = record {
  State = ℕ → ℕ → ℕ;
  input = λ d a n. tabulate n (d a);
  output = λ d a s. update d a (at s);
}

pub IsBytes-tabulate : (n : ℕ) (f : ℕ → ℕ) → IsBytes n (tabulate n f)
unfolding tabulate
IsBytes-tabulate zero f = tt
IsBytes-tabulate (suc n) f = (omega arith, IsBytes-tabulate n (λ i. f (suc i)))

mod_byte : (b : ℕ) → b < 256 → b % 256 ≡ b
mod_byte b h = omega arith

tabulate-at : (n : ℕ) (s : List ℕ) → IsBytes n s → tabulate n (at s) ≡ s
unfolding tabulate
tabulate-at zero [] h = refl
tabulate-at zero (b ∷ s) h = elim h [ ]
tabulate-at (suc n) [] h = elim h [ ]
tabulate-at (suc n) (b ∷ s) h = rw (mod_byte b h.0) (ap (λ u. b ∷ u) (tabulate-at n s h.1))

Apart-differ : (a b : ℕ) → Apart a b → b ≢ a
Apart-differ a b (inl h) = λ e. absurd (omega arith)
Apart-differ a b (inr h) = λ e. absurd (omega arith)

pub sparse-IsLawful : IsLawful sparse 1048576
sparse-IsLawful = record {
  input-IsBytes = λ d a. IsBytes-tabulate 512 (d a);
  input-output_self = λ d a s h k. ap (tabulate 512) (update_self d a (at s)) ∙ tabulate-at 512 s h;
  input-output_apart =
      λ d a b s h ka kb p. ap (tabulate 512) (update_ne d a b (at s) (Apart-differ a b p));
}

abbrev pub blank : ℕ → ℕ → ℕ
blank a k = 0

abbrev pub partition : Block
partition = record {
  ident = replicate 8 0;
  partition_name = replicate 32 0;
  flags = 7;
  kind = 7;
  start_catalog = 2560;
  catalog_count = 10;
  disk_size = 1048576;
  free_catalog = 9;
  free_sectors = 100;
  sector_count = 2048;
  sector_size = 512;
  version = 0x129;
  epm_block = 0;
  pad = replicate 392 0;
}

abbrev pub named : List ℕ → ℕ → ℕ → ℕ → ℕ → Catalog
named name flags kind following previous = record {
  name = name;
  mime = replicate 200 0;
  flags = flags;
  filk_mm_flags = 0;
  kind = kind;
  data_fork_size = 512;
  resource_fork_size = 512;
  data_fork = 900000;
  resource_fork = 900000;
  next_sibling = following;
  prev_sibling = previous;
}

abbrev pub root_catalog : Catalog
root_catalog = named (b'/' ∷ replicate 255 0) 71 2 4608 2560

abbrev pub file_catalog : Catalog
file_catalog = named (b'/' ∷ b'a' ∷ b'b' ∷ replicate 253 0) 71 1 6656 2560

abbrev pub free_place : Catalog
free_place = named (replicate 256 0) 0 0 0 0

pub IsBytes-zeros : (n : ℕ) → IsBytes n (replicate n 0)
IsBytes-zeros zero = tt
IsBytes-zeros (suc n) = (omega arith, IsBytes-zeros n)

named-IsCatalog :
    (name : List ℕ) (flags kind following previous : ℕ)
    → IsBytes 256 name
    → flags < 256
    → kind < 256
    → following < 2 ^ 32
    → previous < 2 ^ 32
    → IsCatalog (named name flags kind following previous)
named-IsCatalog name flags kind following previous h f k n p = (
  h,
  IsBytes-zeros 200,
  omega arith,
  omega arith,
  omega arith,
  omega arith,
  omega arith,
  omega arith,
  omega arith,
  omega arith,
  omega arith,
)

pub root-IsCatalog : IsCatalog root_catalog
root-IsCatalog =
    named-IsCatalog (b'/' ∷ replicate 255 0) 71 2 4608 2560 (omega arith, IsBytes-zeros 255)
      (omega arith) (omega arith) (omega arith) (omega arith)

pub file-IsCatalog : IsCatalog file_catalog
file-IsCatalog =
    named-IsCatalog (b'/' ∷ b'a' ∷ b'b' ∷ replicate 253 0) 71 1 6656 2560
      (omega arith, (omega arith, (omega arith, IsBytes-zeros 253))) (omega arith) (omega arith)
      (omega arith) (omega arith)

pub free-IsCatalog : IsCatalog free_place
free-IsCatalog =
    named-IsCatalog (replicate 256 0) 0 0 0 0 (IsBytes-zeros 256) (omega arith) (omega arith)
      (omega arith) (omega arith)

pub partition-IsBlock : IsBlock partition
partition-IsBlock = (
  IsBytes-zeros 8,
  IsBytes-zeros 32,
  omega arith,
  omega arith,
  omega arith,
  omega arith,
  omega arith,
  omega arith,
  omega arith,
  omega arith,
  omega arith,
  omega arith,
  omega arith,
  IsBytes-zeros 392,
)

abbrev disk1 : ℕ → ℕ → ℕ
disk1 = write_block sparse blank partition

abbrev disk2 : ℕ → ℕ → ℕ
disk2 = write_catalog sparse disk1 2560 root_catalog

abbrev disk3 : ℕ → ℕ → ℕ
disk3 = write_catalog sparse disk2 4608 file_catalog

abbrev pub volume : ℕ → ℕ → ℕ
volume = write_catalog sparse disk3 6656 free_place

pub read_free : read_catalog sparse volume 6656 ≡ free_place
read_free =
    read_catalog-write_catalog sparse 1048576 sparse-IsLawful disk3 6656 free_place free-IsCatalog
      (omega arith)

pub read_file : read_catalog sparse volume 4608 ≡ file_catalog
read_file =
    read_catalog-write_catalog-Apart sparse 1048576 sparse-IsLawful disk3 6656 4608 free_place
      free-IsCatalog (omega arith) (omega arith) (inr (omega arith))
    ∙ read_catalog-write_catalog sparse 1048576 sparse-IsLawful disk2 4608 file_catalog
        file-IsCatalog (omega arith)

pub read_root : read_catalog sparse volume 2560 ≡ root_catalog
read_root =
    read_catalog-write_catalog-Apart sparse 1048576 sparse-IsLawful disk3 6656 2560 free_place
      free-IsCatalog (omega arith) (omega arith) (inr (omega arith))
    ∙ read_catalog-write_catalog-Apart sparse 1048576 sparse-IsLawful disk2 4608 2560 file_catalog
        file-IsCatalog (omega arith) (omega arith) (inr (omega arith))
    ∙ read_catalog-write_catalog sparse 1048576 sparse-IsLawful disk1 2560 root_catalog
        root-IsCatalog (omega arith)

pub read_partition : read_block sparse volume ≡ partition
read_partition =
    read_block-write_catalog sparse 1048576 sparse-IsLawful disk3 6656 free_place free-IsCatalog
      (omega arith) (omega arith)
    ∙ read_block-write_catalog sparse 1048576 sparse-IsLawful disk2 4608 file_catalog file-IsCatalog
        (omega arith) (omega arith)
    ∙ read_block-write_catalog sparse 1048576 sparse-IsLawful disk1 2560 root_catalog root-IsCatalog
        (omega arith) (omega arith)
    ∙ read_block-write_block sparse 1048576 sparse-IsLawful blank partition partition-IsBlock
        (omega arith)

abbrev pub entries : List Entry
entries =
    entry_at sparse volume 2560 ∷ entry_at sparse volume 4608 ∷ entry_at sparse volume 6656 ∷ []

pub free_is_free : is_created free_place ≡ false
unfolding is_created any_bits and_bits
free_is_free = refl

pub chain : Chain sparse volume (read_block sparse volume).start_catalog entries
chain = rw read_partition (
    next 2560 (entry_at sparse volume 4608 ∷ entry_at sparse volume 6656 ∷ [])
      (rw read_root (omega arith))
      (rw read_root (
        next 4608 (entry_at sparse volume 6656 ∷ []) (rw read_file (omega arith))
          (rw read_file (last 6656 (rw read_free (omega arith)) (rw read_free free_is_free))))))

abbrev pub ab : List ℕ
ab = b'/' ∷ b'a' ∷ b'b' ∷ []

abbrev pub cd : List ℕ
cd = b'/' ∷ b'c' ∷ b'd' ∷ []

abbrev pub file_entry : Entry
file_entry = record { lba = 4608; catalog = file_catalog }

abbrev pub known : List Entry
known =
    record { lba = 2560; catalog = root_catalog }
    ∷ file_entry
    ∷ record { lba = 6656; catalog = free_place }
    ∷ []

resolve-ab : result_of (resolve 3 known ab) ≡ ok (some file_entry)
unfolding equals equals_loop string_len is_created any_bits and_bits parent_name strip
    clear_and_strip fill copy_loop
resolve-ab = refl

resolve-cd : result_of (resolve 3 known cd) ≡ ok none
unfolding equals equals_loop string_len is_created any_bits and_bits parent_name strip
    clear_and_strip fill copy_loop
resolve-cd = refl

pub entries-known : entries ≡ known
entries-known = rw (read_root, read_file, read_free) refl

pub find_ab : find_catalog sparse volume 3 3 ab ≡ ok (some file_entry)
find_ab =
    find_catalog-resolve sparse volume 3 3 ab entries chain (omega arith)
    ∙ ap (λ es. result_of (resolve 3 es ab)) entries-known
    ∙ resolve-ab

pub find_cd : find_catalog sparse volume 3 3 cd ≡ ok none
find_cd =
    find_catalog-resolve sparse volume 3 3 cd entries chain (omega arith)
    ∙ ap (λ es. result_of (resolve 3 es cd)) entries-known
    ∙ resolve-cd
