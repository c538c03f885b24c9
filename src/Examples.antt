-- ===== src/Examples.antt =====
-- Tests on concrete inputs, and the concrete runs of what is stated of every input.
pub mod Heap
pub mod Nefs
pub mod Text
pub mod Team
pub mod Services
pub mod Ata
pub mod Loader
pub mod Hal
pub mod Boot
