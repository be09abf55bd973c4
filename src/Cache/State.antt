-- ===== src/Cache/State.antt =====
-- Skyrim/src/DecompCache.h: the state of DecompCache, and the requests to its worker. A pointer to an
-- archive, a mapping or a payload is a number; mappings are reached through a store, since a cache
-- and the streams that it serves share them. Handles, paths, timing counters, and members
-- that only the eviction and the warm pass use are left out.
use faster_file_copy.Prelude.{
  ℕ, ◌+◌, Bool, true, false, not, ◌||◌, Option, none, some, List, [], ◌∷◌, ◌==◌, if◌then◌else◌,
}

-- The states of an entry's verification byte.
pub data Verification : Type 0 where
  verify_unknown verify_busy verify_valid verify_invalid : Verification

pub record MappedView : Type 0 where
  pub base : ℕ
  pub size : ℕ
  pub committed_size : ℕ
  pub prefaulted_through : ℕ
  pub unusable : Bool

-- An entry with the verification byte that it points to, which belongs to it alone.
pub record CachedEntry : Type 0 where
  pub data_address : Option ℕ
  pub size : ℕ
  pub checksum_value : ℕ
  pub verification : Option Verification

pub record LookupResult : Type 0 where
  pub data_address : ℕ
  pub size : ℕ
  pub owner : ℕ

pub record PendingEntry : Type 0 where
  pub start_offset : ℕ
  pub accounted_bytes : ℕ
  pub payload : List ℕ

pub record ArchiveCache : Type 0 where
  pub view : Option ℕ
  -- A path is a number; `none` for an empty one.
  pub active_path : Option ℕ
  pub disk_invalidated : Bool
  pub needs_replacement : Bool
  pub last_access_ms : ℕ
  pub on_disk_bytes : ℕ
  pub index : List (ℕ × CachedEntry)
  pub pending : List PendingEntry
  pub buffered_offsets : List ℕ

pub record DecompCacheDiagnostics : Type 0 where
  pub queued : ℕ
  pub duplicates : ℕ
  pub pending_cap_rejects : ℕ
  pub disk_cap_rejects : ℕ
  pub lookup_attempts : ℕ
  pub lookup_hits : ℕ
  pub lookup_archive_misses : ℕ
  pub lookup_invalid_misses : ℕ
  pub lookup_entry_misses : ℕ
  pub lookup_cold_misses : ℕ
  pub lookup_cold_bytes : ℕ
  pub checksum_computations : ℕ
  pub checksum_bytes : ℕ
  pub checksum_failures : ℕ
  pub checksum_waits : ℕ
  pub warm_requests : ℕ

pub record DecompCache : Type 0 where
  pub caches : List (ℕ × ArchiveCache)
  pub views : ℕ → MappedView
  pub building : Bool
  pub ready : Bool
  pub pending_bytes : ℕ
  pub committed_reservations : ℕ
  pub total_cache_bytes : ℕ
  pub required_headroom : ℕ
  pub last_over_cap_notify_ms : ℕ
  pub cache_epoch : ℕ
  pub flush_requested : Bool
  pub warm_requested : Bool
  pub warm_complete : Bool
  pub warmed_bytes : ℕ
  -- How often the worker was notified.
  pub notifications : ℕ
  pub diagnostics : DecompCacheDiagnostics

-- Settings::bMeasureStats, bPrefaultDecompCache and uDecompCacheMaxBytes
pub record Settings : Type 0 where
  pub measure_stats : Bool
  pub prefault_decomp_cache : Bool
  pub decomp_cache_max_bytes : ℕ

-- std::unordered_map::find, and the assignment to the value found.
unfoldable pub find {ℓ} : {A : Type ℓ} → List (ℕ × A) → ℕ → Option A
find [] k = none
find ((j, a) ∷ m) k = if j == k then some a else find m k

unfoldable pub replace {ℓ} : {A : Type ℓ} → List (ℕ × A) → ℕ → A → List (ℕ × A)
replace [] k b = []
replace ((j, a) ∷ m) k b = if j == k then (j, b) ∷ m else (j, a) ∷ replace m k b

unfoldable pub contains : List ℕ → ℕ → Bool
contains [] k = false
contains (j ∷ l) k = j == k || contains l k

unfoldable pub update_view : (ℕ → MappedView) → ℕ → MappedView → ℕ → MappedView
update_view views v view u = if v == u then view else views u

unfoldable pub request_flush : DecompCache → DecompCache
request_flush s = record s {
  flush_requested = true;
  notifications = if s.flush_requested then s.notifications else s.notifications + 1;
}

unfoldable pub request_warmup : Settings → DecompCache → DecompCache
request_warmup cfg s =
    if not cfg.prefault_decomp_cache
    then record s { warmed_bytes = 0; warm_complete = true }
    else record s {
      warm_complete = false;
      warm_requested = true;
      notifications = if s.warm_requested then s.notifications else s.notifications + 1;
      diagnostics = record s.diagnostics {
        warm_requests =
            if cfg.measure_stats
            then s.diagnostics.warm_requests + 1
            else s.diagnostics.warm_requests;
      };
    }

unfoldable pub any_pending : List (ℕ × ArchiveCache) → Bool
any_pending [] = false
any_pending ((archive, cache) ∷ m) = elim cache.pending [ [] ↦ any_pending m | e ∷ rest ↦ true ]

unfoldable pub has_pending : DecompCache → Bool
unfolding any_pending
has_pending s = if s.pending_bytes == 0 then false else any_pending s.caches

unfoldable pub has_invalid_generation : List (ℕ × ArchiveCache) → Bool
has_invalid_generation [] = false
has_invalid_generation ((archive, cache) ∷ m) = cache.disk_invalidated || has_invalid_generation m
