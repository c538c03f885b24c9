-- ===== src/Hal.antt =====
-- The hardware's side of the kernel on AMD64, dev/ZKAKit/HALKit/AMD64.
pub mod Paging
pub mod Interrupts
pub mod Pci
pub mod Acpi
