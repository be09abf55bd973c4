-- ===== src/Archive.antt =====
-- Skyrim/src/BSAMemoryMap.h and BSAMemoryMap.cpp: opened BSA archives and their manager.
pub mod State
pub mod Open
pub mod Read
pub mod Manager
mod Tests
