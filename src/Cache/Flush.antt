-- ===== src/Cache/Flush.antt =====
-- Skyrim/src/DecompCache.cpp, FlushToDisk: how it takes the queued payloads, and what it does with the
-- result of AppendFile for each archive. Each function is what runs under
-- the cache lock at once; other threads run between them. An exception before the first payload is
-- taken leaves the state as it was, and is not modelled.
pub mod Upkeep
pub mod Books
pub mod Change
pub mod Finish
pub mod Snapshot
pub mod Untouched
pub mod Calls
pub mod Charged
pub mod Session
pub mod Memory
pub mod Rollback
pub mod Publish
mod Tests
use faster_file_copy.Prelude.{
  ℕ, ◌+◌, ◌-◌, ◌≡◌, refl, Bool, true, false, not, ◌&&◌, ◌||◌, Option, none, some, List, [], ◌∷◌,
  ◌++◌, ltb, ◌==◌, if◌then◌else◌, length,
}
use faster_file_copy.Prelude.Words.{add64, sub64}
use faster_file_copy.Policy.Limit.{add_saturating}
use faster_file_copy.Cache.State.{
  MappedView, CachedEntry, PendingEntry, ArchiveCache, DecompCache, Settings, find, replace,
  update_view, request_warmup,
}
use faster_file_copy.Cache.Record.{is_none, is_empty, add_checked}

abbrev pub same_option : Option ℕ → Option ℕ → Bool
same_option none none = true
same_option none (some y) = false
same_option (some x) none = false
same_option (some x) (some y) = x == y

-- What the flush takes off one archive's queue, without the archive's identity, which AppendFile reads.
pub record OlWork : Type 0 where
  pub archive : ℕ
  pub base_path : ℕ
  pub reset_file : Bool
  pub source_view : Option ℕ
  pub pending : List PendingEntry

pub record OlResult : Type 0 where
  pub view : ℕ
  pub mapped : MappedView
  pub index : List (ℕ × CachedEntry)
  pub file_size : ℕ

-- std::unordered_set::erase
unfoldable pub erase : List ℕ → ℕ → List ℕ
erase [] k = []
erase (j ∷ l) k = let rest = erase l k in if j == k then rest else j ∷ rest

unfoldable pub erase_all : List ℕ → List PendingEntry → List ℕ
unfolding erase
erase_all l [] = l
erase_all l (e ∷ es) = erase_all (erase l e.start_offset) es

unfoldable pub accounted : List PendingEntry → ℕ
accounted [] = 0
accounted (e ∷ l) = add64 e.accounted_bytes (accounted l)

-- The part of the charges that is not payload.
unfoldable pub overhead : List PendingEntry → ℕ
overhead [] = 0
overhead (e ∷ l) =
    let rest = overhead l in
    if ltb (length e.payload) e.accounted_bytes
    then add64 (e.accounted_bytes - length e.payload) rest
    else rest

-- The second pass moves the payloads.
unfoldable pub take_pending : OlWork → Option ArchiveCache → DecompCache → OlWork × DecompCache
take_pending item none s = (item, s)
take_pending item (some c) s = (
  record item { pending = item.pending ++ c.pending },
  record s { caches = replace s.caches item.archive (record c { pending = [] }) },
)

unfoldable pub take_work : List OlWork → DecompCache → List OlWork × DecompCache
unfolding take_pending
take_work [] s = ([], s)
take_work (item ∷ work) s =
    let (taken, next) = take_pending item (find s.caches item.archive) s in
    let (rest, last) = take_work work next in (taken ∷ rest, last)

module _ (path_for : ℕ → ℕ) where
  unfoldable pub needs_reset : ℕ → ArchiveCache → Bool
  needs_reset archive c =
      c.disk_invalidated
      || c.needs_replacement
      || is_none c.view
      || not (same_option c.active_path (some (path_for archive)))

  -- The first pass: the work, with nothing taken yet.
  unfoldable pub plan_work : List (ℕ × ArchiveCache) → List OlWork
  unfolding needs_reset
  plan_work [] = []
  plan_work ((archive, c) ∷ m) =
      let rest = plan_work m in
      if is_empty c.pending
      then rest
      else record {
        archive = archive;
        base_path = path_for archive;
        reset_file = needs_reset archive c;
        source_view = if needs_reset archive c then none else c.view;
        pending = [];
      }
        ∷ rest

  unfoldable pub snapshot : DecompCache → List OlWork × DecompCache
  unfolding plan_work take_work
  snapshot s = take_work (plan_work s.caches) s

-- An append whose source was replaced or invalidated meanwhile does not count.
unfoldable pub is_stale : OlWork → ArchiveCache → Bool
is_stale item c =
    not item.reset_file && (not (same_option c.view item.source_view) || c.disk_invalidated)

unfoldable pub install : OlWork → ArchiveCache → OlResult → DecompCache → DecompCache
unfolding erase_all accounted
install item c r s = record s {
  caches = replace s.caches item.archive (record c {
    view = some r.view;
    index = r.index;
    active_path = some item.base_path;
    on_disk_bytes = r.file_size;
    disk_invalidated = false;
    needs_replacement = false;
    buffered_offsets = erase_all c.buffered_offsets item.pending;
  });
  views = update_view s.views r.view r.mapped;
  cache_epoch = add64 s.cache_epoch 1;
  committed_reservations = add64 s.committed_reservations (accounted item.pending);
  ready = true;
}

unfoldable pub requeue : OlWork → ArchiveCache → DecompCache → DecompCache
requeue item c s = record s {
  caches = replace s.caches item.archive (record c { pending = c.pending ++ item.pending });
}

-- The payload that waits first takes the reservation for the absent file over, if it can.
unfoldable pub transfer_overhead : ArchiveCache → List PendingEntry → ℕ → Option (List PendingEntry)
transfer_overhead c [] fixed = none
transfer_overhead c (e ∷ l) fixed =
    if ltb 0 fixed && (is_none c.view || c.disk_invalidated)
    then elim (add_checked e.accounted_bytes fixed) [
      | none ↦ none
      | some bytes ↦ some (record e { accounted_bytes = bytes } ∷ l)
    ]
    else none

-- No memory to give the payloads back: they are dropped, and with them their charge.
unfoldable pub release :
    OlWork → ArchiveCache → Option (List PendingEntry) → DecompCache → DecompCache
unfolding erase_all accounted overhead
release item c none s = record s {
  caches =
      replace s.caches item.archive
        (record c { buffered_offsets = erase_all c.buffered_offsets item.pending });
  pending_bytes = sub64 s.pending_bytes (accounted item.pending);
}
release item c (some pending) s = record s {
  caches = replace s.caches item.archive (record c {
    pending = pending;
    buffered_offsets = erase_all c.buffered_offsets item.pending;
  });
  pending_bytes = sub64 s.pending_bytes (sub64 (accounted item.pending) (overhead item.pending));
}

unfoldable pub give_back : Bool → OlWork → ArchiveCache → DecompCache → DecompCache
unfolding requeue transfer_overhead release
give_back memory item c s =
    if memory
    then requeue item c s
    else release item c (transfer_overhead c c.pending (overhead item.pending)) s

unfoldable pub finish_found :
    Bool → OlWork → ArchiveCache → Option OlResult → DecompCache → DecompCache
unfolding give_back install
finish_found memory item c none s = give_back memory item c s
finish_found memory item c (some r) s =
    if is_stale item c then give_back memory item c s else install item c r s

-- One archive's work, with the result of AppendFile, and whether the queue can be extended.
unfoldable pub finish : Bool → OlWork → Option OlResult → DecompCache → DecompCache
unfolding finish_found
finish memory item result s = elim (find s.caches item.archive) [
  | none ↦ s
  | some c ↦ finish_found memory item c result s
]
