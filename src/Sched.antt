-- ===== src/Sched.antt =====
-- Scheduling: the hardware threads, the processes and the team that they run in.
pub mod Thread
pub mod Process
pub mod Team
