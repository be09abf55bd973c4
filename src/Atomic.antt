-- ===== src/Atomic.antt =====
-- Lock-free loops on one std::atomic word, interleaved: Skyrim/src/AtomicByteBudget.h and
-- Skyrim/src/StreamCursor.h.
pub mod Machine
pub mod Budget
pub mod Cursor
mod Tests
