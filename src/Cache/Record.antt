-- ===== src/Cache/Record.antt =====
-- Skyrim/src/DecompCache.cpp: AddChecked and both overloads of DecompCache::RecordDecompressed.
-- Each call runs alone, as under its locks; an allocation that fails leaves the state as it was.
pub mod Outcome
pub mod Accounts
use faster_file_copy.Prelude.{
  ℕ, zero, suc, ◌+◌, ◌-◌, ◌*◌, max, ◌≡◌, refl, Bool, true, false, not, ◌&&◌, ◌||◌, Option, none,
  some, List, [], ◌∷◌, ◌++◌, ltb, leb, ◌==◌, if◌then◌else◌, length, take, u64_max,
}
use faster_file_copy.Prelude.Words.{add64, sub64, mul64}
use faster_file_copy.Format.Layout.{header_size, entry_size, max_payload_size}
use faster_file_copy.Policy.Limit.{required_headroom}
use faster_file_copy.Cache.State.{
  Verification, verify_unknown, verify_busy, verify_valid, verify_invalid, CachedEntry,
  PendingEntry, ArchiveCache, DecompCacheDiagnostics, DecompCache, Settings, find, replace,
  contains, request_flush,
}

abbrev pub cold_ms : ℕ
cold_ms = 60 * 1000

abbrev pub max_pending_memory_bytes : ℕ
max_pending_memory_bytes = 256 * 1024 * 1024

abbrev pub flush_wake_bytes : ℕ
flush_wake_bytes = 32 * 1024 * 1024

unfoldable pub add_checked : ℕ → ℕ → Option ℕ
add_checked lhs rhs = if ltb (u64_max - lhs) rhs then none else some (lhs + rhs)

unfoldable pub may_serve : Option Verification → Bool
may_serve none = false
may_serve (some verify_unknown) = true
may_serve (some verify_busy) = true
may_serve (some verify_valid) = true
may_serve (some verify_invalid) = false

-- The committed cache file has the entry, and it has not failed verification.
unfoldable pub is_committed : ArchiveCache → Option CachedEntry → Bool
unfolding may_serve
is_committed c none = false
is_committed c (some e) = not c.disk_invalidated && may_serve e.verification

abbrev pub is_none {ℓ} : {A : Type ℓ} → Option A → Bool
is_none none = true
is_none (some a) = false

abbrev pub is_empty {ℓ} : {A : Type ℓ} → List A → Bool
is_empty [] = true
is_empty (a ∷ l) = false

unfoldable pub fixed_overhead : ArchiveCache → ℕ → Option ℕ
unfolding add_checked
fixed_overhead c entry_count =
    if (is_none c.view || c.disk_invalidated) && is_empty c.buffered_offsets
    then add_checked header_size (mul64 entry_count entry_size)
    else some 0

unfoldable pub admission_bytes : ℕ → Option ℕ → Option ℕ
unfolding add_checked
admission_bytes size none = none
admission_bytes size (some overhead) = add_checked size overhead

unfoldable pub count_duplicate : DecompCache → DecompCache
count_duplicate s = record s {
  diagnostics = record s.diagnostics { duplicates = s.diagnostics.duplicates + 1 };
}

unfoldable pub count_disk_cap_reject : DecompCache → DecompCache
count_disk_cap_reject s = record s {
  diagnostics = record s.diagnostics { disk_cap_rejects = s.diagnostics.disk_cap_rejects + 1 };
}

unfoldable pub count_pending_cap_reject : DecompCache → DecompCache
count_pending_cap_reject s = record s {
  diagnostics = record s.diagnostics {
    pending_cap_rejects = s.diagnostics.pending_cap_rejects + 1;
  };
}

module _ (cfg : Settings) (now : ℕ) where
  -- An admission over the disk cap: the room that it needs is remembered, and the worker is woken
  -- at most once in a cold window.
  unfoldable pub reject_over_cap : ℕ → DecompCache → DecompCache
  unfolding count_disk_cap_reject request_flush
  reject_over_cap bytes s =
      let counted = count_disk_cap_reject s in
      if ltb 0 cfg.decomp_cache_max_bytes && leb bytes cfg.decomp_cache_max_bytes
      then (let required = required_headroom cfg.decomp_cache_max_bytes s.pending_bytes bytes in
          let asked = record counted { required_headroom = max s.required_headroom required } in
          if s.last_over_cap_notify_ms == 0 || leb cold_ms (sub64 now s.last_over_cap_notify_ms)
          then request_flush (record asked { last_over_cap_notify_ms = now })
          else asked)
      else counted

  unfoldable pub enqueue : ℕ → ℕ → List ℕ → ℕ → ArchiveCache → DecompCache → DecompCache
  unfolding request_flush
  enqueue archive start payload bytes c s =
      let entry : PendingEntry = record {
        start_offset = start;
        accounted_bytes = bytes;
        payload = payload;
      } in
      let queued = record c {
        pending = c.pending ++ entry ∷ [];
        buffered_offsets = start ∷ c.buffered_offsets;
        last_access_ms = now;
      } in
      let pending_bytes = add64 s.pending_bytes bytes in
      let next = record s {
        caches = replace s.caches archive queued;
        pending_bytes = pending_bytes;
        diagnostics = record s.diagnostics { queued = s.diagnostics.queued + 1 };
      } in
      if leb flush_wake_bytes pending_bytes then request_flush next else next

  abbrev pub over_pending_cap : ℕ → DecompCache → Bool
  over_pending_cap bytes s =
      ltb max_pending_memory_bytes s.pending_bytes
      || ltb (max_pending_memory_bytes - s.pending_bytes) bytes

  abbrev pub over_disk_cap : ℕ → DecompCache → Bool
  over_disk_cap bytes s =
      cfg.decomp_cache_max_bytes == 0
      || leb cfg.decomp_cache_max_bytes s.total_cache_bytes
      || ltb (cfg.decomp_cache_max_bytes - s.total_cache_bytes) s.pending_bytes
      || ltb (cfg.decomp_cache_max_bytes - s.total_cache_bytes - s.pending_bytes) bytes

  unfoldable pub admit : ℕ → ℕ → List ℕ → ArchiveCache → Option ℕ → DecompCache → DecompCache
  unfolding count_disk_cap_reject count_pending_cap_reject
  admit archive start payload c none s = count_disk_cap_reject s
  admit archive start payload c (some bytes) s =
      if over_pending_cap bytes s
      then count_pending_cap_reject s
      else if over_disk_cap bytes s
      then reject_over_cap bytes s
      else enqueue archive start payload bytes c s

  module _ (entry_count : ℕ → ℕ) where
    unfoldable pub record_cache : ℕ → ℕ → List ℕ → Option ArchiveCache → DecompCache → DecompCache
    unfolding count_duplicate
    record_cache archive start payload none s = s
    record_cache archive start payload (some c) s =
        if is_committed c (find c.index start) || contains c.buffered_offsets start
        then count_duplicate s
        else admit archive start payload c
            (admission_bytes (length payload) (fixed_overhead c (entry_count archive))) s

    -- The overload that takes the payload over; the archive is `none` for a null pointer.
    unfoldable pub record_decompressed : Option ℕ → ℕ → List ℕ → DecompCache → DecompCache
    record_decompressed none start payload s = s
    record_decompressed (some archive) start payload s =
        if not s.building || is_empty payload || ltb max_payload_size (length payload)
        then s
        else record_cache archive start payload (find s.caches archive) s

    -- The overload that copies the payload.
    unfoldable pub record_decompressed_copy :
        Option ℕ → ℕ → Option (List ℕ) → ℕ → DecompCache → DecompCache
    record_decompressed_copy archive start none size s = s
    record_decompressed_copy archive start (some bytes) size s =
        if not s.building || size == 0 || ltb max_payload_size size
        then s
        else record_decompressed archive start (take size bytes) s
