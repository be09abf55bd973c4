-- ===== src/Cache/Sample.antt =====
-- States of the cache for tests.
use faster_file_copy.Prelude.{ℕ, true, false, none, List, [], ◌∷◌}
use faster_file_copy.Cache.State.{
  MappedView, ArchiveCache, DecompCacheDiagnostics, DecompCache, Settings,
}

abbrev pub no_diagnostics : DecompCacheDiagnostics
no_diagnostics = record {
  queued = 0;
  duplicates = 0;
  pending_cap_rejects = 0;
  disk_cap_rejects = 0;
  lookup_attempts = 0;
  lookup_hits = 0;
  lookup_archive_misses = 0;
  lookup_invalid_misses = 0;
  lookup_entry_misses = 0;
  lookup_cold_misses = 0;
  lookup_cold_bytes = 0;
  checksum_computations = 0;
  checksum_bytes = 0;
  checksum_failures = 0;
  checksum_waits = 0;
  warm_requests = 0;
}

abbrev pub unmapped : MappedView
unmapped = record {
  base = 0;
  size = 0;
  committed_size = 0;
  prefaulted_through = 0;
  unusable = false;
}

-- An archive without a file, with one payload on its way.
abbrev pub empty_cache : ArchiveCache
empty_cache = record {
  view = none;
  active_path = none;
  disk_invalidated = false;
  needs_replacement = false;
  last_access_ms = 0;
  on_disk_bytes = 0;
  index = [];
  pending = [];
  buffered_offsets = 5 ∷ [];
}

abbrev pub state_of : List (ℕ × ArchiveCache) → (ℕ → MappedView) → ℕ → DecompCache
state_of caches views pending_bytes = record {
  caches = caches;
  views = views;
  building = true;
  ready = false;
  pending_bytes = pending_bytes;
  committed_reservations = 0;
  total_cache_bytes = 547;
  required_headroom = 0;
  last_over_cap_notify_ms = 0;
  cache_epoch = 0;
  flush_requested = false;
  warm_requested = false;
  warm_complete = true;
  warmed_bytes = 0;
  notifications = 0;
  diagnostics = no_diagnostics;
}

abbrev pub state : DecompCache
state = state_of ((7, empty_cache) ∷ []) (λ v. unmapped) 107

-- Without prefaulting.
abbrev pub settings : Settings
settings = record {
  measure_stats = false;
  prefault_decomp_cache = false;
  decomp_cache_max_bytes = 100000;
}
