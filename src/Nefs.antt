-- ===== src/Nefs.antt =====
-- The New File System, dev/ZKAKit/FSKit/NeFS.h and dev/ZKAKit/src/FS/NeFS.cc. What stands on the disk are
-- packed structures of one sector each, addressed in bytes, with numbers in little-endian order.
pub mod Structs
pub mod Layout
pub mod Path
pub mod Volume
pub mod Find
pub mod Remove
pub mod Create
pub mod Fork
pub mod Manager
pub mod Format
use zka.Common.{ℕ, ◌+◌, ◌-◌, ◌*◌, ◌%◌, ◌^◌, List, [], ◌∷◌}

abbrev pub sector_size : ℕ
sector_size = 512

abbrev pub root_catalog_start_address : ℕ
root_catalog_start_address = 1024

-- `2048 + sizeof(NFS_ROOT_PARTITION_BLOCK)`.
abbrev pub catalog_start_address : ℕ
catalog_start_address = 2048 + 512

-- `kNeFSForkDataSz`, 16 MiB.
unfoldable pub fork_data_size : ℕ
fork_data_size = 16 * 1024 * 1024

abbrev pub flag_deleted : ℕ
flag_deleted = 70

abbrev pub flag_unallocated : ℕ
flag_unallocated = 0

abbrev pub flag_created : ℕ
flag_created = 71

abbrev pub kind_file : ℕ
kind_file = 1

abbrev pub kind_dir : ℕ
kind_dir = 2

abbrev pub kind_alias : ℕ
kind_alias = 3

abbrev pub kind_page : ℕ
kind_page = 8

-- `kNeFSSeparator`.
abbrev pub separator : ℕ
separator = b'/'

-- `kNeFSRoot`.
abbrev pub root : List ℕ
root = b'/' ∷ []

-- Unsigned 64-bit subtraction.
abbrev pub sub64 : ℕ → ℕ → ℕ
sub64 a b = (a + 2 ^ 64 - b % 2 ^ 64) % 2 ^ 64

abbrev pub error_file_not_found : ℕ
error_file_not_found = 35
