-- ===== src/Cache/Flush/Memory.antt =====
-- Skyrim/src/DecompCache.cpp: how much memory the queues take in a session, and what HasPending says of them.
use faster_file_copy.Cache.Flush.Session.{Session}
use faster_file_copy.Cache.Flush.Charged.{QueuesCharged, WorkCharged}
use faster_file_copy.Cache.Flush.Untouched.{Untouched}

abbrev pub Paid : Session → Type 0
Paid p = WorkCharged p.work × QueuesCharged p.state.caches
