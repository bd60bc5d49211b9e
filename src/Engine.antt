-- ===== src/Engine.antt =====
-- The storage engine of projects/data/storage-engine.
pub mod Bloom
pub mod Compare
pub mod Crc32
pub mod Memtable
pub mod SkipList
pub mod Storage
mod Tests
pub mod Wal
