-- ===== src/Examples/Nefs/Format.antt =====
-- Format of a blank disk, and of one that has a partition.
use zka.Common.{
  ℕ, zero, suc, ◌≤◌, ◌<◌, ◌≡◌, refl, ◌∙◌, true, false, some, List, [], ◌∷◌, replicate, any_bits,
  and_bits, arith,
}
use zka.NewKit.Utils.{at, string_len, string_cmp, string_cmp_loop, equals, equals_loop}
use zka.Nefs.{root}
use zka.Nefs.Structs.{Block}
use zka.Nefs.Layout.Blocks.{IsBlock, decode_block}
use zka.Nefs.Layout.Catalogs.{decode_catalog}
use zka.Nefs.Volume.{ok, fault, is_created, read_catalog, read_block, write_block, write_catalog}
use zka.Nefs.Volume.Frame.{
  read_block-write_block, read_block-write_catalog, read_catalog-write_catalog,
}
use zka.Nefs.Find.{matches}
use zka.Nefs.Format.{is_empty, fresh, format}
use zka.Nefs.Format.Taken.{IsRequest, format-no_root}
use zka.Nefs.Format.Again.{second_block, format-overwrites}
use zka.Examples.Nefs.{
  sparse, sparse-IsLawful, tabulate, blank, partition, root_catalog, root-IsCatalog, IsBytes-zeros,
}

abbrev volume_name : List ℕ
volume_name = b'A' ∷ b'B' ∷ []

AreBytes-volume_name : (i : ℕ) → at volume_name i < 256
AreBytes-volume_name zero = omega arith
AreBytes-volume_name (suc zero) = omega arith
AreBytes-volume_name (suc (suc i)) = omega arith

volume_name-IsRequest : IsRequest 0 2048 1048576 2047 2 volume_name
unfolding string_len any_bits and_bits
volume_name-IsRequest = record {
  named = λ e. omega arith;
  fits = omega arith;
  are_bytes = AreBytes-volume_name;
  byte = omega arith;
  sectors_lt = omega arith;
  size_lt = omega arith;
  some_end = λ e. omega arith;
  no_boot = refl;
}

-- No partition stands on the blank disk.
blank-is_empty : is_empty 0 (read_block sparse blank) ≡ true
unfolding is_empty string_cmp string_cmp_loop decode_block tabulate
blank-is_empty = refl

blank_is_free : is_created (read_catalog sparse blank 2560) ≡ false
unfolding is_created any_bits and_bits decode_catalog tabulate
blank_is_free = refl

blank_is_last : (read_catalog sparse blank 2560).next_sibling ≤ 1024
unfolding decode_catalog tabulate
blank_is_last = omega arith

format-no_root_example : format sparse 1 0 2048 1048576 1 1 true blank 2047 2 volume_name ≡ fault
format-no_root_example =
    format-no_root sparse 1048576 sparse-IsLawful (omega arith) 0 0 2048 1048576 2047 2 volume_name
      volume_name-IsRequest 0 0 blank blank-is_empty blank_is_free blank_is_last

-- A disk with a partition and its root.
abbrev old_partition : Block
old_partition = record partition { partition_name = b'O' ∷ replicate 31 0 }

old-IsBlock : IsBlock old_partition
old-IsBlock = (
  IsBytes-zeros 8,
  (omega arith, IsBytes-zeros 31),
  omega arith,
  omega arith,
  omega arith,
  omega arith,
  omega arith,
  omega arith,
  omega arith,
  omega arith,
  omega arith,
  omega arith,
  omega arith,
  IsBytes-zeros 392,
)

abbrev old_block : ℕ → ℕ → ℕ
old_block = write_block sparse blank old_partition

abbrev old_disk : ℕ → ℕ → ℕ
old_disk = write_catalog sparse old_block 2560 root_catalog

read_old : read_block sparse old_disk ≡ old_partition
read_old =
    read_block-write_catalog sparse 1048576 sparse-IsLawful old_block 2560 root_catalog
      root-IsCatalog (omega arith) (omega arith)
    ∙ read_block-write_block sparse 1048576 sparse-IsLawful blank old_partition old-IsBlock
        (omega arith)

old_is_taken : is_empty 0 (read_block sparse old_disk) ≡ false
unfolding is_empty string_cmp string_cmp_loop
old_is_taken = rw read_old refl

old_root : matches root (read_catalog sparse old_disk 2560) ≡ true
unfolding equals equals_loop string_len is_created any_bits and_bits
old_root =
    rw
      (read_catalog-write_catalog sparse 1048576 sparse-IsLawful old_block 2560 root_catalog
        root-IsCatalog (omega arith))
      refl

-- Behind the old partition the disk is blank.
far_block : Block
far_block = decode_block (sparse.input old_disk 1049600 512)

far_is_empty : is_empty 0 far_block ≡ true
unfolding far_block is_empty string_cmp string_cmp_loop decode_block tabulate
far_is_empty = refl

second_is_empty : is_empty 0 (second_block sparse old_disk) ≡ true
unfolding far_block
second_is_empty = rw read_old far_is_empty

format-overwrites_example :
    (d' : ℕ → ℕ → ℕ) × (format sparse 1 0 2048 1048576 2 1 true old_disk 2047 2 volume_name
      ≡ ok (record { value = true; disk = d'; local_code = some 46 }))
    × (read_block sparse d' ≡ fresh 0 2048 1048576 volume_name (second_block sparse old_disk))
format-overwrites_example =
    format-overwrites sparse 1048576 sparse-IsLawful (omega arith) 0 0 2048 1048576 2047 2
      volume_name volume_name-IsRequest old_disk 0 0 old_is_taken second_is_empty old_root
