-- ===== src/Cache.antt =====
-- Skyrim/src/DecompCache.h and DecompCache.cpp: the decompression cache in memory.
pub mod State
pub mod Lookup
pub mod Record
pub mod Volume
pub mod Commit
pub mod Evict
pub mod Flush
pub mod Mapped
pub mod Load
pub mod Warm
pub mod Sample
mod Tests
