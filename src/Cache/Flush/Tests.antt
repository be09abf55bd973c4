-- ===== src/Cache/Flush/Tests.antt =====
-- Runs of a flush on one archive, and the witnesses of the theorems on flushes.
use faster_file_copy.Prelude.{none, ℕ, ◌≡◌, refl, true, false, some, List, [], ◌∷◌}
use faster_file_copy.Cache.State.{
  contains, MappedView, PendingEntry, ArchiveCache, DecompCache, find, replace,
}
use faster_file_copy.Cache.Sample.{state_of, settings}
use faster_file_copy.Cache.Record.{
  record_decompressed, record_cache, is_committed, admit, admission_bytes, fixed_overhead,
  add_checked, enqueue,
}
use faster_file_copy.Cache.Flush.{
  needs_reset, take_pending, OlWork, OlResult, take_work, snapshot, plan_work, finish, finish_found,
  install, is_stale,
}
use faster_file_copy.Cache.Flush.Books.{Books}
use faster_file_copy.Cache.Flush.Session.{Session, Step, Reach, session-Books}
use faster_file_copy.Cache.Flush.Rollback.{fail_all, failed_flush_restores}
use faster_file_copy.Cache.Flush.Publish.{Finished, finish-Finished}

abbrev queue : List PendingEntry
queue =
    record { start_offset = 5; accounted_bytes = 600; payload = 97 ∷ 98 ∷ [] }
    ∷ record { start_offset = 9; accounted_bytes = 1; payload = 99 ∷ [] }
    ∷ []

abbrev archive_cache : List PendingEntry → List ℕ → ArchiveCache
archive_cache pending buffered = record {
  view = some 1;
  active_path = some 9;
  disk_invalidated = false;
  needs_replacement = false;
  last_access_ms = 0;
  on_disk_bytes = 547;
  index = [];
  pending = pending;
  buffered_offsets = buffered;
}

abbrev mapped : MappedView
mapped = record {
  base = 1000;
  size = 547;
  committed_size = 547;
  prefaulted_through = 0;
  unusable = false;
}

abbrev state : List PendingEntry → List ℕ → ℕ → DecompCache
state pending buffered bytes =
    state_of ((7, archive_cache pending buffered) ∷ []) (λ v. mapped) bytes

abbrev item : OlWork
item = record {
  archive = 7;
  base_path = 9;
  reset_file = false;
  source_view = some 1;
  pending = queue;
}

abbrev answer : OlResult
answer = record { view = 2; mapped = mapped; index = []; file_size = 1200 }

abbrev paths : ℕ → ℕ
paths archive = 9

taken : (snapshot paths (state queue (9 ∷ 5 ∷ []) 601)).0 ≡ item ∷ []
unfolding snapshot plan_work take_work find
taken = refl

abbrev start : DecompCache
start = state [] [] 0

-- One payload is queued, and its flush is in progress.
abbrev recorded_once : DecompCache
recorded_once = record_decompressed settings 60 (λ a. 1) (some 7) 5 (97 ∷ 98 ∷ []) start

abbrev in_progress : Session
in_progress = record {
  work = (snapshot paths recorded_once).0;
  state = (snapshot paths recorded_once).1;
}

-- Its append fails, without memory for the queue.
abbrev item_once : OlWork
item_once = record {
  archive = 7;
  base_path = 9;
  reset_file = false;
  source_view = some 1;
  pending = record { start_offset = 5; accounted_bytes = 2; payload = 97 ∷ 98 ∷ [] } ∷ [];
}

taken_once : in_progress.work ≡ item_once ∷ []
unfolding snapshot plan_work take_work take_pending find replace record_decompressed record_cache
    is_committed admit admission_bytes fixed_overhead add_checked enqueue contains needs_reset
taken_once = refl

abbrev dropped : Session
dropped = record { work = []; state = finish false item_once none in_progress.state }

reached : Reach settings (λ a. 1) paths (record { work = []; state = start }) dropped
reached =
    Reach.later
      (Reach.later (Reach.later Reach.none_yet (Step.recorded 60 (some 7) 5 (97 ∷ 98 ∷ [])))
        (Step.taken refl))
      (Step.finished false none item_once [] taken_once)

session-Books_example : Books dropped.work dropped.state
session-Books_example =
    session-Books settings (λ a. 1) paths start dropped ((refl, tt), refl, refl) reached

failed_flush_restores_example :
    let (work, left) = snapshot paths (state queue (9 ∷ 5 ∷ []) 601) in
    let t = fail_all work left in
    ((archive : ℕ) → find t.caches archive ≡ find (state queue (9 ∷ 5 ∷ []) 601).caches archive)
    × (t ≡ record (state queue (9 ∷ 5 ∷ []) 601) { caches = t.caches })
failed_flush_restores_example = failed_flush_restores paths (state queue (9 ∷ 5 ∷ []) 601)

-- The append of a queue that meets the mapping that it extended.
abbrev committed : ArchiveCache
committed = record (archive_cache [] []) { view = some 2; on_disk_bytes = 1200 }

first : find (state [] (9 ∷ 5 ∷ []) 601).caches 7 ≡ some (archive_cache [] (9 ∷ 5 ∷ []))
unfolding find
first = refl

committed_lem :
    find (finish true item (some answer) (state [] (9 ∷ 5 ∷ []) 601)).caches 7 ≡ some committed
unfolding finish finish_found install is_stale find replace
committed_lem = refl

finish-Finished_example : Finished item (some answer) (archive_cache [] (9 ∷ 5 ∷ [])) committed
finish-Finished_example =
    finish-Finished true item (some answer) (state [] (9 ∷ 5 ∷ []) 601)
      (archive_cache [] (9 ∷ 5 ∷ [])) committed first committed_lem
