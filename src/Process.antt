-- ===== src/Process.antt =====
-- kernel/process.c and kernel/process.h: the table of 64 processes, their creation, the round-robin
-- scheduler and the life of a process until its parent collects it.
pub mod Types
pub mod Search
pub mod Create
pub mod Scheduler
mod Tests
