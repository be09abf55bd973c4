-- ===== src/Cache/Flush/Calls.antt =====
-- Skyrim/src/DecompCache.cpp: what the retirement of invalid files, Lookup and ReportMappingIoFailure
-- mean for the queues.
use faster_file_copy.Prelude.{
  ℕ, ◌≡◌, inl, inr, refl, ◌∙◌, Bool, true, false, not, ◌||◌, Option, none, some, List, [], ◌∷◌,
  ◌==◌, ltb, Bool-cases, Option-cases,
}
use faster_file_copy.Cache.State.{
  ArchiveCache, CachedEntry, DecompCache, Settings, find, replace, request_warmup, update_view,
}
use faster_file_copy.Prelude.Words.{add64}
use faster_file_copy.Cache.Record.{is_empty, is_none}
use faster_file_copy.Cache.Lookup.{
  VerificationResult, count, count_checksum, invalidate, make_result, cold, lookup_address,
  lookup_entry, lookup_view, lookup_archive, lookup, invalidate_owner, report_mapping_io_failure,
}
use faster_file_copy.Cache.Flush.Upkeep.{
  Retire, clear_file, retire_invalid, any_usable, retire, begin_flush,
}
use faster_file_copy.Cache.Flush.Untouched.{
  SameRows, Untouched, SameRows-refl, SameRows-cons, SameRows-replace,
}

retire_invalid-SameRows :
    (world : ℕ → Retire) (m : List (ℕ × ArchiveCache)) → SameRows m (retire_invalid world m).1
unfolding retire_invalid clear_file
retire_invalid-SameRows world [] = SameRows-refl []
retire_invalid-SameRows world ((archive, c) ∷ m) =
    let rest = retire_invalid-SameRows world m in
    let kept = SameRows-cons m _ archive c c refl refl rest in
    elim (Bool-cases (world archive).loading) [
      | inl loading ↦ rw loading (SameRows-refl ((archive, c) ∷ m))
      | inr running ↦
          elim (Bool-cases (
            not c.disk_invalidated
            || not (is_empty c.pending)
            || not (is_empty c.buffered_offsets))) [
              | inl needed ↦ rw (running, needed) kept
              | inr unused ↦ elim (Bool-cases (is_none c.active_path || (world archive).removed)) [
                | inl gone ↦
                    rw (running, unused, gone)
                      (SameRows-cons m _ archive c (clear_file c) refl refl rest)
                | inr stays ↦ rw (running, unused, stays) kept
              ]
            ]
    ]

-- What the worker is asked for does not touch the queues.
abbrev SameFields : DecompCache → DecompCache → Type 0
SameFields s t =
    (t.pending_bytes ≡ s.pending_bytes)
    × (t.committed_reservations ≡ s.committed_reservations)
    × (t.caches ≡ s.caches)

SameFields-Untouched : (s m t : DecompCache) → Untouched s m → SameFields m t → Untouched s t
SameFields-Untouched s m t u same = record {
  same_pending = same.0 ∙ u.same_pending;
  same_reservations = same.1 ∙ u.same_reservations;
  rows = rw (same.2) (u.rows);
}

request_warmup-SameFields : (cfg : Settings) (s : DecompCache) → SameFields s (request_warmup cfg s)
unfolding request_warmup
request_warmup-SameFields cfg s = elim (Bool-cases cfg.prefault_decomp_cache) [
  | inl on ↦ rw on (refl, refl, refl)
  | inr off ↦ rw off (refl, refl, refl)
]

invalidate-SameFields :
    (cfg : Settings) (already : Bool) (s : DecompCache) → SameFields s (invalidate cfg already s)
unfolding invalidate
invalidate-SameFields cfg true s = (refl, refl, refl)
invalidate-SameFields cfg false s = elim (Bool-cases cfg.prefault_decomp_cache) [
  | inl on ↦ rw on (refl, refl, refl)
  | inr off ↦ rw off (refl, refl, refl)
]

request_warmup-Untouched :
    (cfg : Settings) (s m : DecompCache) → Untouched s m → Untouched s (request_warmup cfg m)
request_warmup-Untouched cfg s m u =
    SameFields-Untouched s m (request_warmup cfg m) u (request_warmup-SameFields cfg m)

invalidate-Untouched :
    (cfg : Settings) (already : Bool) (s m : DecompCache)
    → Untouched s m
    → Untouched s (invalidate cfg already m)
invalidate-Untouched cfg already s m u =
    SameFields-Untouched s m (invalidate cfg already m) u (invalidate-SameFields cfg already m)

pub retire-Untouched :
    (cfg : Settings) (world : ℕ → Retire) (s : DecompCache) → Untouched s (retire cfg world s)
unfolding retire
retire-Untouched cfg world s =
    let rows = retire_invalid-SameRows world s.caches in
    elim (Bool-cases ((retire_invalid world s.caches).0 == 0)) [
      | inl none_gone ↦
          rw none_gone record { same_pending = refl; same_reservations = refl; rows = rows }
      | inr some_gone ↦
          let r = retire_invalid world s.caches in
          let next = record s {
            caches = r.1;
            cache_epoch = add64 s.cache_epoch r.0;
            ready = any_usable r.1;
          } in
          rw some_gone (
            request_warmup-Untouched cfg s next
              (record { same_pending = refl; same_reservations = refl; rows = rows }))
    ]

pub begin_flush-Untouched :
    (startup_only : Bool) (s t : DecompCache) → begin_flush startup_only s ≡ some t → Untouched s t
unfolding begin_flush
begin_flush-Untouched true s t h =
    let e : record s { building = false } ≡ t = cc in
    rw (← e) record { same_pending = refl; same_reservations = refl; rows = SameRows-refl s.caches }
begin_flush-Untouched false s t h = elim (Bool-cases s.building) [
  | inl on ↦
      let e : s ≡ t = (let j = rw on at h in cc j) in
      rw (← e)
        record { same_pending = refl; same_reservations = refl; rows = SameRows-refl s.caches }
  | inr off ↦ absurd (let j = rw off at h in cc j)
]

module _ (cfg : Settings) (read : ℕ → ℕ → Option (List ℕ)) (now archive start : ℕ) where
  make_result-Untouched :
      (s : DecompCache) (c : ArchiveCache) (v address : ℕ) (e : CachedEntry)
      (r : VerificationResult × CachedEntry)
      → find s.caches archive ≡ some c
      → Untouched s (make_result cfg read now archive start s c v address e r).1
  unfolding make_result
  make_result-Untouched s c v address e (r, verified) cached = elim (Bool-cases r.valid) [
    | inl good ↦ rw good record {
      same_pending = refl;
      same_reservations = refl;
      rows = SameRows-replace s.caches archive c _ cached refl refl;
    }
    | inr bad ↦
        let touched = record c { last_access_ms = now; index = replace c.index start verified } in
        let failed = record s {
          diagnostics = count_checksum cfg e (record r { valid = false }) s.diagnostics;
          caches = replace s.caches archive (record touched { disk_invalidated = true });
          views = update_view s.views v (record (s.views v) { unusable = true });
        } in
        rw bad (
          invalidate-Untouched cfg c.disk_invalidated s failed (record {
            same_pending = refl;
            same_reservations = refl;
            rows = SameRows-replace s.caches archive c _ cached refl refl;
          }))
  ]

  same_state : (s t : DecompCache) → SameFields s t → Untouched s t
  same_state s t same =
      SameFields-Untouched s s t
        (record { same_pending = refl; same_reservations = refl; rows = SameRows-refl s.caches })
        same

  lookup_address-Untouched :
      (s : DecompCache) (c : ArchiveCache) (v : ℕ) (e : CachedEntry) (d : Option ℕ)
      → find s.caches archive ≡ some c
      → Untouched s (lookup_address cfg read now archive start s c v e d).1
  unfolding lookup_address
  lookup_address-Untouched s c v e none cached = same_state s _ (refl, refl, refl)
  lookup_address-Untouched s c v e (some address) cached =
      elim (Bool-cases (ltb address (s.views v).base)) [
        | inl below ↦ rw below (same_state s _ (refl, refl, refl))
        | inr above ↦ elim (Bool-cases (cold cfg read now archive start s v address e)) [
          | inl c ↦ rw (above, c) (same_state s _ (refl, refl, refl))
          | inr w ↦ rw (above, w) (make_result-Untouched s c v address e _ cached)
        ]
      ]

  lookup_entry-Untouched :
      (s : DecompCache) (c : ArchiveCache) (v : ℕ) (e : Option CachedEntry)
      → find s.caches archive ≡ some c
      → Untouched s (lookup_entry cfg read now archive start s c v e).1
  unfolding lookup_entry
  lookup_entry-Untouched s c v none cached = same_state s _ (refl, refl, refl)
  lookup_entry-Untouched s c v (some e) cached = lookup_address-Untouched s c v e _ cached

  lookup_view-Untouched :
      (s : DecompCache) (c : ArchiveCache) (v : Option ℕ)
      → find s.caches archive ≡ some c
      → Untouched s (lookup_view cfg read now archive start s c v).1
  unfolding lookup_view
  lookup_view-Untouched s c none cached = same_state s _ (refl, refl, refl)
  lookup_view-Untouched s c (some v) cached =
      elim (Bool-cases ((s.views v).unusable || c.disk_invalidated)) [
        | inl bad ↦ rw bad (same_state s _ (refl, refl, refl))
        | inr good ↦ rw good (lookup_entry-Untouched s c v _ cached)
      ]

  pub lookup-Untouched : (s : DecompCache) → Untouched s (lookup cfg read now archive start s).1
  unfolding lookup lookup_archive
  lookup-Untouched s = elim (Option-cases (find s.caches archive)) [
    | inl missing ↦ rw missing (same_state s _ (refl, refl, refl))
    | inr (c, cached) ↦ rw cached (
        let counted = record s {
          diagnostics = record s.diagnostics {
            lookup_attempts = count cfg.measure_stats 1 s.diagnostics.lookup_attempts;
          };
        } in
        let u = lookup_view-Untouched counted c c.view cached in
        record {
          same_pending = u.same_pending;
          same_reservations = u.same_reservations;
          rows = u.rows;
        })
  ]

invalidate_owner-SameRows :
    (owner : ℕ) (m : List (ℕ × ArchiveCache)) → SameRows m (invalidate_owner owner m).1
unfolding invalidate_owner
invalidate_owner-SameRows owner [] = SameRows-refl []
invalidate_owner-SameRows owner ((archive, c) ∷ m) =
    elim (Bool-cases (elim c.view [ none ↦ false | some v ↦ v == owner ])) [
      | inl its ↦ rw its (SameRows-cons m m archive c _ refl refl (SameRows-refl m))
      | inr other ↦
          rw other (SameRows-cons m _ archive c c refl refl (invalidate_owner-SameRows owner m))
    ]

pub report-Untouched :
    (cfg : Settings) (owner : Option ℕ) (s : DecompCache)
    → Untouched s (report_mapping_io_failure cfg owner s)
unfolding report_mapping_io_failure
report-Untouched cfg none s = record {
  same_pending = refl;
  same_reservations = refl;
  rows = SameRows-refl s.caches;
}
report-Untouched cfg (some owner) s =
    let r = invalidate_owner owner s.caches in
    let reported = record s {
      caches = r.1;
      views = update_view s.views owner (record (s.views owner) { unusable = true });
    } in
    invalidate-Untouched cfg (not r.0) s reported (record {
      same_pending = refl;
      same_reservations = refl;
      rows = invalidate_owner-SameRows owner s.caches;
    })
