-- ===== src/Nefs/Volume/Frame.antt =====
-- The reads and writes of the structures of a NeFS volume, on a drive that keeps its sectors apart.
use zka.Common.{ℕ, ◌+◌, ◌≤◌, ◌≡◌, ap, ◌∙◌, inl, inr, arith}
use zka.Storage.{Drive, IsLawful, Apart, gap}
use zka.Nefs.{root_catalog_start_address}
use zka.Nefs.Structs.{Catalog, Fork, Block}
use zka.Nefs.Layout.Catalogs.{
  IsCatalog, encode_catalog-IsBytes, decode_catalog, decode_catalog-encode_catalog,
  decode_catalog-IsCatalog,
}
use zka.Nefs.Layout.Forks.{
  IsFork, encode_fork-IsBytes, decode_fork, decode_fork-encode_fork, decode_fork-IsFork,
}
use zka.Nefs.Layout.Blocks.{
  IsBlock, encode_block-IsBytes, decode_block, decode_block-encode_block, decode_block-IsBlock,
}
use zka.Nefs.Volume.{read_catalog, read_fork, read_block, write_catalog, write_fork, write_block}

-- Behind the partition block, and within the disk.
abbrev pub IsPlaced : ℕ → ℕ → Type 0
IsPlaced capacity a = (root_catalog_start_address + gap ≤ a) × (a + gap ≤ capacity)

module _ (v : Drive) (capacity : ℕ) (law : IsLawful v capacity) (d : v.State) where
  pub read_catalog-IsCatalog : (a : ℕ) → IsCatalog (read_catalog v d a)
  read_catalog-IsCatalog a = decode_catalog-IsCatalog _ (law.input-IsBytes d a)

  pub read_fork-IsFork : (a : ℕ) → IsFork (read_fork v d a)
  read_fork-IsFork a = decode_fork-IsFork _ (law.input-IsBytes d a)

  pub read_block-IsBlock : IsBlock (read_block v d)
  read_block-IsBlock = decode_block-IsBlock _ (law.input-IsBytes d root_catalog_start_address)

  pub read_catalog-write_catalog :
      (a : ℕ) (c : Catalog)
      → IsCatalog c
      → a + gap ≤ capacity
      → read_catalog v (write_catalog v d a c) a ≡ c
  read_catalog-write_catalog a c h k =
      ap decode_catalog (law.input-output_self d a _ (encode_catalog-IsBytes c h) k)
      ∙ decode_catalog-encode_catalog c h

  pub read_catalog-write_catalog-Apart :
      (a b : ℕ) (c : Catalog)
      → IsCatalog c
      → a + gap ≤ capacity
      → b + gap ≤ capacity
      → Apart a b
      → read_catalog v (write_catalog v d a c) b ≡ read_catalog v d b
  read_catalog-write_catalog-Apart a b c h ka kb p =
      ap decode_catalog (law.input-output_apart d a b _ (encode_catalog-IsBytes c h) ka kb p)

  pub read_block-write_catalog :
      (a : ℕ) (c : Catalog)
      → IsCatalog c
      → a + gap ≤ capacity
      → root_catalog_start_address + gap ≤ a
      → read_block v (write_catalog v d a c) ≡ read_block v d
  read_block-write_catalog a c h ka p = ap decode_block (
      law.input-output_apart d a root_catalog_start_address _ (encode_catalog-IsBytes c h) ka
        (omega arith) (inr p))

  pub read_block-write_block :
      (b : Block)
      → IsBlock b
      → root_catalog_start_address + gap ≤ capacity
      → read_block v (write_block v d b) ≡ b
  read_block-write_block b h k =
      ap decode_block
        (law.input-output_self d root_catalog_start_address _ (encode_block-IsBytes b h) k)
      ∙ decode_block-encode_block b h

  pub read_catalog-write_block :
      (a : ℕ) (b : Block)
      → IsBlock b
      → a + gap ≤ capacity
      → root_catalog_start_address + gap ≤ a
      → read_catalog v (write_block v d b) a ≡ read_catalog v d a
  read_catalog-write_block a b h k p = ap decode_catalog (
      law.input-output_apart d root_catalog_start_address a _ (encode_block-IsBytes b h)
        (omega arith) k (inl p))

  pub read_fork-write_fork :
      (a : ℕ) (f : Fork) → IsFork f → a + gap ≤ capacity → read_fork v (write_fork v d a f) a ≡ f
  read_fork-write_fork a f h k =
      ap decode_fork (law.input-output_self d a _ (encode_fork-IsBytes f h) k)
      ∙ decode_fork-encode_fork f h
