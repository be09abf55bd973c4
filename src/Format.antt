-- ===== src/Format.antt =====
-- Skyrim/src/CacheFormat.h: the format of a persistent decompression-cache file.
pub mod Checksum
pub mod Layout
pub mod Encode
pub mod Validate
mod Tests
