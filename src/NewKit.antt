-- ===== src/NewKit.antt =====
-- The kernel's base library, dev/ZKAKit/NewKit and its sources under dev/ZKAKit/src.
pub mod Crc
pub mod String
pub mod Utils
