-- ===== src/Cache/Flush/Upkeep.antt =====
-- Skyrim/src/DecompCache.cpp: ReconcileDiskAccounting, and what FlushToDisk does before it takes work. Each
-- function is what runs under the cache lock at once.
use faster_file_copy.Prelude.{
  ℕ, ◌+◌, Bool, false, not, ◌&&◌, ◌||◌, Option, none, some, List, [], ◌∷◌, ltb, ◌==◌, if◌then◌else◌,
}
use faster_file_copy.Prelude.Words.{add64, sub64}
use faster_file_copy.Policy.Limit.{add_saturating}
use faster_file_copy.Cache.State.{ArchiveCache, DecompCache, Settings, request_warmup}
use faster_file_copy.Cache.Record.{is_none, is_empty}

-- The sizes of the cache files in the directory, added up.
unfoldable pub total_size : ℕ → List ℕ → ℕ
unfolding add_saturating
total_size total [] = total
total_size total (size ∷ sizes) = total_size (add_saturating total size) sizes

-- ReconcileDiskAccounting, with a complete scan or `none`.
unfoldable pub reconcile : Option (List ℕ) → DecompCache → DecompCache
unfolding total_size
reconcile none s = s
reconcile (some sizes) s = record s {
  total_cache_bytes = total_size 0 sizes;
  committed_reservations = 0;
  pending_bytes =
      if ltb 0 s.committed_reservations
      then sub64 s.pending_bytes s.committed_reservations
      else s.pending_bytes;
}

-- A round of the loop that retires invalid files: whether a save is being loaded, and whether the
-- file is gone after DeleteFileW.
pub record Retire : Type 0 where
  pub loading : Bool
  pub removed : Bool

-- view.reset(), index.clear() and the fields of the file.
unfoldable pub clear_file : ArchiveCache → ArchiveCache
clear_file c = record c {
  view = none;
  index = [];
  active_path = none;
  on_disk_bytes = 0;
  disk_invalidated = false;
  needs_replacement = false;
}

-- The caches, and how many of their files went.
unfoldable pub retire_invalid : (ℕ → Retire) → List (ℕ × ArchiveCache) → ℕ × List (ℕ × ArchiveCache)
unfolding clear_file
retire_invalid world [] = (0, [])
retire_invalid world ((archive, c) ∷ m) =
    let (count, rest) = retire_invalid world m in
    if (world archive).loading
    then (0, (archive, c) ∷ m)
    else if not c.disk_invalidated || not (is_empty c.pending) || not (is_empty c.buffered_offsets)
    then (count, (archive, c) ∷ rest)
    else if is_none c.active_path || (world archive).removed
    then (count + 1, (archive, clear_file c) ∷ rest)
    else (count, (archive, c) ∷ rest)

unfoldable pub any_usable : List (ℕ × ArchiveCache) → Bool
any_usable [] = false
any_usable ((archive, c) ∷ m) = (not (is_none c.view) && not c.disk_invalidated) || any_usable m

unfoldable pub retire : Settings → (ℕ → Retire) → DecompCache → DecompCache
unfolding retire_invalid any_usable request_warmup
retire cfg world s =
    let (count, caches) = retire_invalid world s.caches in
    let next = record s { caches = caches; cache_epoch = add64 s.cache_epoch count } in
    if count == 0 then next else request_warmup cfg (record next { ready = any_usable caches })

-- The tests before the flush begins. In startup mode the capture ends.
unfoldable pub begin_flush : Bool → DecompCache → Option DecompCache
begin_flush startup_only s =
    if startup_only
    then some (record s { building = false })
    else if s.building
    then some s
    else none
