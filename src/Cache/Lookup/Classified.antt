-- ===== src/Cache/Lookup/Classified.antt =====
-- DecompCache::Lookup in Skyrim/src/DecompCache.cpp: its outcomes.
use faster_file_copy.Prelude.{
  ℕ, ◌-◌, ◌<◌, ◌≡◌, ◌≢◌, ◌⊎◌, Bool, true, false, Option, none, some, List,
}
use faster_file_copy.Policy.Warm.{is_range_warm}
use faster_file_copy.Cache.State.{
  MappedView, CachedEntry, LookupResult, ArchiveCache, DecompCache, Settings, find,
}
use faster_file_copy.Cache.Lookup.{lookup}
use faster_file_copy.Cache.Lookup.Corrupt.{Corrupt}

-- Why a lookup has no answer although it verifies nothing.
pub data Miss (cfg : Settings) (archive start : ℕ) (caches : List (ℕ × ArchiveCache))
    (views : ℕ → MappedView) : Type 0 where
  no_cache : find caches archive ≡ none → Miss cfg archive start caches views
  no_view :
      (c : ArchiveCache)
      → find caches archive ≡ some c
      → c.view ≡ none
      → Miss cfg archive start caches views
  retired_before :
      (c : ArchiveCache) (v : ℕ)
      → find caches archive ≡ some c
      → c.view ≡ some v
      → ((views v).unusable ≡ true) ⊎ (c.disk_invalidated ≡ true)
      → Miss cfg archive start caches views
  no_entry :
      (c : ArchiveCache)
      → find caches archive ≡ some c
      → find c.index start ≡ none
      → Miss cfg archive start caches views
  no_address :
      (c : ArchiveCache) (e : CachedEntry)
      → find caches archive ≡ some c
      → find c.index start ≡ some e
      → e.data_address ≡ none
      → Miss cfg archive start caches views
  outside :
      (c : ArchiveCache) (v : ℕ) (e : CachedEntry) (address : ℕ)
      → find caches archive ≡ some c
      → c.view ≡ some v
      → find c.index start ≡ some e
      → e.data_address ≡ some address
      → address < (views v).base
      → Miss cfg archive start caches views
  not_warm :
      (c : ArchiveCache) (v : ℕ) (e : CachedEntry) (address : ℕ)
      → find caches archive ≡ some c
      → c.view ≡ some v
      → find c.index start ≡ some e
      → e.data_address ≡ some address
      → cfg.prefault_decomp_cache ≡ true
      → is_range_warm
          (address - (views v).base)
          e.size
          (views v).committed_size
          (views v).prefaulted_through
        ≡ false
      → Miss cfg archive start caches views

-- The other archives' caches are as they were, and this archive's cache has this flag.
pub record Flagged (archive : ℕ) (flag : Bool) (before after : List (ℕ × ArchiveCache))
    : Type 0 where
  pub others : (a : ℕ) → archive ≢ a → find after a ≡ find before a
  pub cache : ArchiveCache
  pub here : find after archive ≡ some cache
  pub flagged : cache.disk_invalidated ≡ flag

-- A corrupt entry was reached: its view, and no other, has become unusable, and its archive's cache file,
-- and no other, is to be replaced; from here on no lookup of this archive answers.
pub record Retirement (cfg : Settings) (read : ℕ → ℕ → Option (List ℕ)) (archive start : ℕ)
    (caches : List (ℕ × ArchiveCache)) (views : ℕ → MappedView) (after : DecompCache) : Type 0 where
  pub cache : ArchiveCache
  pub view : ℕ
  pub entry : CachedEntry
  pub address : ℕ
  pub cached : find caches archive ≡ some cache
  pub owned : cache.view ≡ some view
  pub indexed : find cache.index start ≡ some entry
  pub addressed : entry.data_address ≡ some address
  pub corrupt : Corrupt read address entry
  pub unusable : (after.views view).unusable ≡ true
  pub other_views : (v : ℕ) → view ≢ v → after.views v ≡ views v
  pub marked : Flagged archive true caches after.caches
  pub requested : after.flush_requested ≡ true
  pub no_more :
      (reads : ℕ → ℕ → Option (List ℕ)) (later offset : ℕ)
      → (lookup cfg reads later archive offset after).0 ≡ none

-- A lookup answers and retires nothing, or it misses and changes no cache and no view, or it retires the
-- view with a corrupt entry.
pub data Classified (cfg : Settings) (read : ℕ → ℕ → Option (List ℕ)) (archive start : ℕ)
    (caches : List (ℕ × ArchiveCache)) (views : ℕ → MappedView)
    (r : Option LookupResult × DecompCache) : Type 0 where
  hit :
      (x : LookupResult)
      → r.0 ≡ some x
      → r.1.views ≡ views
      → Flagged archive false caches r.1.caches
      → Classified cfg read archive start caches views r
  missed :
      r.0 ≡ none
      → r.1.views ≡ views
      → r.1.caches ≡ caches
      → Miss cfg archive start caches views
      → Classified cfg read archive start caches views r
  retired :
      r.0 ≡ none
      → Retirement cfg read archive start caches views r.1
      → Classified cfg read archive start caches views r
