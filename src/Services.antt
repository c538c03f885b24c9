-- ===== src/Services.antt =====
-- What the kernel offers to its processes: users, semaphores and timers, the check of a thread's block, and addresses
-- and packets.
pub mod Tls
pub mod User
pub mod Semaphore
pub mod Ip
pub mod Ipc
