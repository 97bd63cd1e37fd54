-- ===== src/Fat.antt =====
-- fs/fat32.c: the FAT32 driver, and the two calls of drivers/ata.c that it stands on.
pub mod Types
pub mod Words
pub mod Disk
pub mod Name
pub mod Table
pub mod Layout
pub mod Chain
pub mod Walk
pub mod Entry
pub mod Dir
pub mod Files
pub mod Tree
pub mod Path
mod Tests
