-- ===== src/Policy.antt =====
-- The header-only policies of the Skyrim plugin: pure decisions over machine words.
pub mod Limit
pub mod Warm
pub mod Progress
pub mod Layout
pub mod Section
mod Tests
