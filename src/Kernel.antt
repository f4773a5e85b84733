-- ===== src/Kernel.antt =====
-- harness2/kernel: events, tasks and resources.
pub mod Events
pub mod Tasks
