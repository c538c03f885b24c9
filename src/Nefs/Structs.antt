-- ===== src/Nefs/Structs.antt =====
-- The structures on a NeFS disk, dev/ZKAKit/FSKit/NeFS.h.
use zka.Common.{ℕ, List}

-- NFS_CATALOG_STRUCT.
pub record Catalog : Type 0 where
  pub name : List ℕ
  pub mime : List ℕ
  pub flags : ℕ
  pub filk_mm_flags : ℕ
  pub kind : ℕ
  pub data_fork_size : ℕ
  pub resource_fork_size : ℕ
  pub data_fork : ℕ
  pub resource_fork : ℕ
  pub next_sibling : ℕ
  pub prev_sibling : ℕ

-- NFS_FORK_STRUCT.
pub record Fork : Type 0 where
  pub fork_name : List ℕ
  pub catalog_name : List ℕ
  pub flags : ℕ
  pub kind : ℕ
  pub resource_id : ℕ
  pub resource_kind : ℕ
  pub resourck_mm_flags : ℕ
  pub data_offset : ℕ
  pub data_size : ℕ
  pub next_sibling : ℕ
  pub previous_sibling : ℕ

-- NFS_ROOT_PARTITION_BLOCK.
pub record Block : Type 0 where
  pub ident : List ℕ
  pub partition_name : List ℕ
  pub flags : ℕ
  pub kind : ℕ
  pub start_catalog : ℕ
  pub catalog_count : ℕ
  pub disk_size : ℕ
  pub free_catalog : ℕ
  pub free_sectors : ℕ
  pub sector_count : ℕ
  pub sector_size : ℕ
  pub version : ℕ
  pub epm_block : ℕ
  pub pad : List ℕ
