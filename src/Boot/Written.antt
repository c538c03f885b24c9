-- ===== src/Boot/Written.antt =====
-- The sizes of what the formatter of dev/ZBAKit/BootKit/BootKit.h writes.
use zka.Common.{
  ℕ, zero, suc, ◌*◌, ◌^◌, ◌<◌, List, [], ◌∷◌, IsBytes, IsBytes-bytes, IsBytes-join, replicate,
  bytes, arith,
}
use zka.NewKit.Utils.{drop, copy_memory}
use zka.Nefs.{kind_dir}
use zka.Nefs.Layout.Catalogs.{IsCatalog}
use zka.Nefs.Layout.Blocks.{IsBlock}
use zka.Nefs.Create.Place.{AreBytes, IsBytes-copy_loop, IsBytes-replicate}
use zka.Nefs.Format.{encode_boot_block}
use zka.Boot.{Literals, FileDescriptor, strlen, memcpy, new_partition, epm_boot, first_catalog}

-- The descriptor of BootMain.cc: a directory with the name of the root, and what stands behind it in its array.
abbrev pub root_blob : List ℕ → FileDescriptor
root_blob rest = record { file_name = b'/' ∷ 0 ∷ rest; kind = kind_dir }

-- The texts' bytes are bytes.
pub record IsText (lits : Literals) : Type 0 where
  pub ident : AreBytes lits.ident
  pub fs_name : AreBytes lits.fs_name
  pub block_name : AreBytes lits.block_name
  pub magic : AreBytes lits.magic

AreBytes-drop : (n : ℕ) (s : List ℕ) → AreBytes s → AreBytes (drop n s)
AreBytes-drop zero s h i = h i
AreBytes-drop (suc n) [] h i = omega arith
AreBytes-drop (suc n) (c ∷ s) h i = AreBytes-drop n s (λ j. h (suc j)) i

copied-IsBytes :
    (n w : ℕ) (src dst : List ℕ)
    → AreBytes src
    → IsBytes w dst
    → IsBytes w (copy_memory src dst n).0
unfolding copy_memory
copied-IsBytes n w src dst h k = IsBytes-copy_loop n 0 w src dst h k

memcpy-IsBytes :
    (n w : ℕ) (src dst : List ℕ) → AreBytes src → IsBytes w dst → IsBytes w (memcpy src dst n)
unfolding memcpy
memcpy-IsBytes n w src dst h k = copied-IsBytes (4 * n) w src dst h k

pub new_partition-IsBlock :
    (lits : Literals) (sectors size blob_count : ℕ) (part_name : List ℕ)
    → IsText lits
    → AreBytes part_name
    → sectors < 2 ^ 64
    → size < 2 ^ 64
    → blob_count < 2 ^ 64
    → IsBlock (new_partition lits sectors size blob_count part_name)
unfolding new_partition
new_partition-IsBlock lits sectors size blob_count part_name t h i j k = (
  memcpy-IsBytes 7 8 lits.ident (replicate 8 0) t.ident (IsBytes-replicate 8),
  memcpy-IsBytes (strlen part_name) 32 part_name _ h (
      copied-IsBytes 20 32 (drop 8 lits.ident) (replicate 32 0) (AreBytes-drop 8 lits.ident t.ident)
        (IsBytes-replicate 32)),
  omega arith,
  omega arith,
  omega arith,
  k,
  j,
  omega (arith, i),
  i,
  i,
  omega arith,
  omega arith,
  omega arith,
  IsBytes-replicate 392,
)

abbrev boot_layout : List ℕ
boot_layout = 5 ∷ 32 ∷ 16 ∷ 4 ∷ 8 ∷ 8 ∷ 8 ∷ 8 ∷ 2 ∷ 4 ∷ 16 ∷ 401 ∷ []

pub epm_boot-IsBytes :
    (lits : Literals) (blob_count : ℕ)
    → IsText lits
    → IsBytes 512 (encode_boot_block (epm_boot lits blob_count))
unfolding encode_boot_block epm_boot
epm_boot-IsBytes lits n t =
    let b = epm_boot lits n in
    IsBytes-join boot_layout
      (b.magic
        ∷ b.name
        ∷ b.uuid
        ∷ bytes 4 b.version
        ∷ bytes 8 b.num_blocks
        ∷ bytes 8 b.sector_sz
        ∷ bytes 8 b.lba_start
        ∷ bytes 8 b.lba_end
        ∷ bytes 2 b.kind
        ∷ bytes 4 b.fs_version
        ∷ b.fs
        ∷ b.reserved
        ∷ [])
      (
        memcpy-IsBytes 5 5 lits.magic (replicate 5 0) t.magic (IsBytes-replicate 5),
        (
          copied-IsBytes 15 32 (drop 5 lits.magic) (memcpy lits.block_name (replicate 32 0) 4)
              (AreBytes-drop 5 lits.magic t.magic)
              (memcpy-IsBytes 4 32 lits.block_name (replicate 32 0) t.block_name
                (IsBytes-replicate 32)),
          (
            IsBytes-replicate 16,
            (
              IsBytes-bytes 4 b.version,
              (
                IsBytes-bytes 8 b.num_blocks,
                (
                  IsBytes-bytes 8 b.sector_sz,
                  (
                    IsBytes-bytes 8 b.lba_start,
                    (
                      IsBytes-bytes 8 b.lba_end,
                      (
                        IsBytes-bytes 2 b.kind,
                        (
                          IsBytes-bytes 4 b.fs_version,
                          (
                            memcpy-IsBytes 4 16 lits.fs_name (replicate 16 0) t.fs_name
                                (IsBytes-replicate 16),
                            (IsBytes-replicate 401, tt),
                          ),
                        ),
                      ),
                    ),
                  ),
                ),
              ),
            ),
          ),
        ),
      )

AreBytes-root : (rest : List ℕ) → AreBytes rest → AreBytes (b'/' ∷ 0 ∷ rest)
AreBytes-root rest h zero = omega arith
AreBytes-root rest h (suc zero) = omega arith
AreBytes-root rest h (suc (suc i)) = h i

pub first_catalog-IsCatalog :
    (rest : List ℕ) → AreBytes rest → IsCatalog (first_catalog (root_blob rest))
unfolding first_catalog
first_catalog-IsCatalog rest h = (
  memcpy-IsBytes (strlen (b'/' ∷ 0 ∷ rest)) 256 (b'/' ∷ 0 ∷ rest) (replicate 256 0)
      (AreBytes-root rest h) (IsBytes-replicate 256),
  IsBytes-replicate 200,
  omega arith,
  omega arith,
  omega arith,
  omega arith,
  omega arith,
  omega arith,
  omega arith,
  omega arith,
  omega arith,
)
