-- ===== src/Syscall.antt =====
-- kernel/syscall.c: the table of open files and the calls of the programs.
pub mod Types
pub mod Files
pub mod Stat
pub mod Handler
mod Tests
