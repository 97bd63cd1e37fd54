-- ===== src/Memory.antt =====
-- kernel/memory.c: the page allocator over the 64 MB heap and the calls that stand on it.
pub mod Words
pub mod Types
pub mod Buddy
pub mod Pages
pub mod Slabs
pub mod Tables
mod Tests
