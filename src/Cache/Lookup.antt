-- ===== src/Cache/Lookup.antt =====
-- Skyrim/src/DecompCache.cpp: VerifyEntry, DecompCache::Lookup and ReportMappingIoFailure.
-- The bytes that a read of a mapping delivers, or `none` for a page fault, are a parameter. A thread
-- that waits for a busy entry sees the verdict of the thread that verifies it, which runs the same
-- lines on the same entry.
pub mod Intact
pub mod Served
pub mod Marks
pub mod Retired
pub mod Corrupt
pub mod Classified
pub mod Outcome
use faster_file_copy.Prelude.{
  ℕ, zero, suc, ◌+◌, ◌-◌, ◌≡◌, refl, Bool, true, false, not, ◌&&◌, ◌||◌, Option, none, some, List,
  [], ◌∷◌, ltb, leb, ◌==◌, if◌then◌else◌,
}
use faster_file_copy.Format.Checksum.{checksum}
use faster_file_copy.Policy.Warm.{is_range_warm}
use faster_file_copy.Cache.State.{
  Verification, verify_unknown, verify_busy, verify_valid, verify_invalid, MappedView, CachedEntry,
  LookupResult, ArchiveCache, DecompCacheDiagnostics, DecompCache, Settings, find, replace,
  update_view, request_flush, request_warmup,
}

pub record VerificationResult : Type 0 where
  pub valid : Bool
  pub computed : Bool
  pub waited : Bool

module _ (read : ℕ → ℕ → Option (List ℕ)) where
  -- TryChecksumMapped, and the comparison with the recorded checksum.
  unfoldable pub payload_valid : Option ℕ → ℕ → ℕ → Bool
  payload_valid none size expected = false
  payload_valid (some address) size expected =
      if size == 0 then false else elim (read address size) [
        | none ↦ false
        | some bytes ↦ checksum (some bytes) size == expected
      ]

  -- The loop over the verification byte, with the byte that it leaves.
  unfoldable pub verify_state :
      CachedEntry → Option Verification → VerificationResult × Option Verification
  verify_state e none = (record { valid = false; computed = false; waited = false }, none)
  verify_state e (some verify_valid) =
      (record { valid = true; computed = false; waited = false }, some verify_valid)
  verify_state e (some verify_invalid) =
      (record { valid = false; computed = false; waited = false }, some verify_invalid)
  verify_state e (some verify_unknown) =
      let valid = payload_valid e.data_address e.size e.checksum_value in
      (
        record { valid = valid; computed = true; waited = false },
        some (if valid then verify_valid else verify_invalid),
      )
  verify_state e (some verify_busy) =
      let valid = payload_valid e.data_address e.size e.checksum_value in
      (
        record { valid = valid; computed = false; waited = true },
        some (if valid then verify_valid else verify_invalid),
      )

  unfoldable pub verify_data : CachedEntry → Option ℕ → VerificationResult × CachedEntry
  unfolding verify_state
  verify_data e none = (record { valid = false; computed = false; waited = false }, e)
  verify_data e (some address) =
      if e.size == 0
      then (record { valid = false; computed = false; waited = false }, e)
      else (let r = verify_state e e.verification in (r.0, record e { verification = r.1 }))

  unfoldable pub verify_entry : CachedEntry → VerificationResult × CachedEntry
  unfolding verify_data
  verify_entry e = verify_data e e.data_address

abbrev pub count : Bool → ℕ → ℕ → ℕ
count measured by n = if measured then n + by else n

unfoldable pub count_checksum :
    Settings → CachedEntry → VerificationResult → DecompCacheDiagnostics → DecompCacheDiagnostics
count_checksum cfg e v d = record d {
  checksum_computations = count (cfg.measure_stats && v.computed) 1 d.checksum_computations;
  checksum_bytes = count (cfg.measure_stats && v.computed) e.size d.checksum_bytes;
  checksum_waits = count (cfg.measure_stats && v.waited) 1 d.checksum_waits;
  checksum_failures = count (cfg.measure_stats && not v.valid) 1 d.checksum_failures;
  lookup_hits = count (cfg.measure_stats && v.valid) 1 d.lookup_hits;
}

-- The exchange of diskInvalidated, and what its first setter does.
unfoldable pub invalidate : Settings → Bool → DecompCache → DecompCache
unfolding request_flush request_warmup
invalidate cfg already s =
    if already
    then s
    else request_warmup cfg (request_flush (record s { cache_epoch = s.cache_epoch + 1 }))

module _ (cfg : Settings) (read : ℕ → ℕ → Option (List ℕ)) (now : ℕ) (archive start : ℕ) where
  -- makeResult, after lastAccessMs is set, for an entry of a cache with a view.
  unfoldable pub make_result :
      DecompCache
      → ArchiveCache
      → ℕ
      → ℕ
      → CachedEntry
      → VerificationResult × CachedEntry
      → Option LookupResult × DecompCache
  unfolding count_checksum invalidate
  make_result s c v address e (r, verified) =
      let touched = record c { last_access_ms = now; index = replace c.index start verified } in
      let counted = record s { diagnostics = count_checksum cfg e r s.diagnostics } in
      if r.valid
      then (
        some (record { data_address = address; size = e.size; owner = v }),
        record counted { caches = replace s.caches archive touched },
      )
      else (
        none,
        invalidate cfg c.disk_invalidated (record counted {
          caches = replace s.caches archive (record touched { disk_invalidated = true });
          views = update_view s.views v (record (s.views v) { unusable = true });
        }),
      )

  abbrev pub cold : DecompCache → ℕ → ℕ → CachedEntry → Bool
  cold s v address e =
      cfg.prefault_decomp_cache
      && not (
          is_range_warm (address - (s.views v).base) e.size (s.views v).committed_size
            (s.views v).prefaulted_through)

  -- The tests of an entry's address. A null pointer is below every mapping's base.
  unfoldable pub lookup_address :
      DecompCache → ArchiveCache → ℕ → CachedEntry → Option ℕ → Option LookupResult × DecompCache
  lookup_address s c v e none = (
    none,
    record s {
      diagnostics = record s.diagnostics {
        lookup_invalid_misses = count cfg.measure_stats 1 s.diagnostics.lookup_invalid_misses;
      };
    },
  )
  lookup_address s c v e (some address) =
      if ltb address (s.views v).base
      then (
        none,
        record s {
          diagnostics = record s.diagnostics {
            lookup_invalid_misses = count cfg.measure_stats 1 s.diagnostics.lookup_invalid_misses;
          };
        },
      )
      else if cold s v address e
      then (
        none,
        record s {
          diagnostics = record s.diagnostics {
            lookup_cold_misses = count cfg.measure_stats 1 s.diagnostics.lookup_cold_misses;
            lookup_cold_bytes = count cfg.measure_stats e.size s.diagnostics.lookup_cold_bytes;
          };
        },
      )
      else make_result s c v address e (verify_entry read e)

  unfoldable pub lookup_entry :
      DecompCache → ArchiveCache → ℕ → Option CachedEntry → Option LookupResult × DecompCache
  lookup_entry s c v none = (
    none,
    record s {
      diagnostics = record s.diagnostics {
        lookup_entry_misses = count cfg.measure_stats 1 s.diagnostics.lookup_entry_misses;
      };
    },
  )
  lookup_entry s c v (some e) = lookup_address s c v e e.data_address

  unfoldable pub lookup_view :
      DecompCache → ArchiveCache → Option ℕ → Option LookupResult × DecompCache
  lookup_view s c none = (
    none,
    record s {
      diagnostics = record s.diagnostics {
        lookup_invalid_misses = count cfg.measure_stats 1 s.diagnostics.lookup_invalid_misses;
      };
    },
  )
  lookup_view s c (some v) =
      if (s.views v).unusable || c.disk_invalidated
      then (
        none,
        record s {
          diagnostics = record s.diagnostics {
            lookup_invalid_misses = count cfg.measure_stats 1 s.diagnostics.lookup_invalid_misses;
          };
        },
      )
      else lookup_entry s c v (find c.index start)

  unfoldable pub lookup_archive :
      DecompCache → Option ArchiveCache → Option LookupResult × DecompCache
  lookup_archive s none = (
    none,
    record s {
      diagnostics = record s.diagnostics {
        lookup_archive_misses = count cfg.measure_stats 1 s.diagnostics.lookup_archive_misses;
      };
    },
  )
  lookup_archive s (some c) = lookup_view s c c.view

  unfoldable pub lookup : DecompCache → Option LookupResult × DecompCache
  lookup s =
      lookup_archive
        (record s {
          diagnostics = record s.diagnostics {
            lookup_attempts = count cfg.measure_stats 1 s.diagnostics.lookup_attempts;
          };
        })
        (find s.caches archive)

-- The first cache with this view becomes invalid; the flag says whether it was not before.
unfoldable pub invalidate_owner : ℕ → List (ℕ × ArchiveCache) → Bool × List (ℕ × ArchiveCache)
invalidate_owner owner [] = (false, [])
invalidate_owner owner ((archive, c) ∷ m) =
    let rest = invalidate_owner owner m in
    if elim c.view [ none ↦ false | some v ↦ v == owner ]
    then (not c.disk_invalidated, (archive, record c { disk_invalidated = true }) ∷ m)
    else (rest.0, (archive, c) ∷ rest.1)

unfoldable pub report_mapping_io_failure : Settings → Option ℕ → DecompCache → DecompCache
unfolding invalidate_owner invalidate
report_mapping_io_failure cfg none s = s
report_mapping_io_failure cfg (some owner) s =
    let r = invalidate_owner owner s.caches in
    invalidate cfg (not r.0) (record s {
      caches = r.1;
      views = update_view s.views owner (record (s.views owner) { unusable = true });
    })
