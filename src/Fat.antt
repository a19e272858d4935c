-- ===== src/Fat.antt =====
-- The FAT16 file system of src/fat.c and src/fat.h.
pub mod State
pub mod Rows
pub mod Volume
pub mod Names
pub mod Open
pub mod Create
pub mod Io
pub mod Flush
pub mod Sample
mod Examples
pub mod Table
pub mod Cluster
