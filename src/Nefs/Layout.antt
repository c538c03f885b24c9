-- ===== src/Nefs/Layout.antt =====
-- How the structures of dev/ZKAKit/FSKit/NeFS.h lie in a sector: they are declared PACKED, and the code
-- casts the sector's bytes to them.
pub mod Catalogs
pub mod Forks
pub mod Blocks
