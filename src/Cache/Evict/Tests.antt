-- ===== src/Cache/Evict/Tests.antt =====
-- Two archives, the second one cold, and the witnesses of the theorems on the eviction.
use faster_file_copy.Prelude.{
  ℕ, ◌≡◌, refl, true, false, some, List, [], ◌∷◌, All, length, arith, ◌==◌, if◌then◌else◌,
}
use mathlib.Core.List.{Perm}
use faster_file_copy.Cache.Evict.{
  Resident, Candidate, Round, is_evictable, is_cold, candidates, goes_before, insert_candidate,
  sort_candidates, removable, evict, enforce,
}
use faster_file_copy.Cache.Evict.Order.{Ordered}
use faster_file_copy.Cache.Evict.Chosen.{Choice}
use faster_file_copy.Cache.Evict.Needed.{
  Needed, Justified, Willing, Unmapped, First, enforce-Removals, enforce_enough,
}

abbrev resident : ℕ → ℕ → ℕ → Resident
resident archive last size = record {
  archive = archive;
  has_view = true;
  has_path = true;
  buffered_offsets = [];
  last_access_ms = last;
  file_last_write = 5;
  on_disk_bytes = size;
}

abbrev two_caches : List Resident
two_caches = resident 1 100_000 30 ∷ resident 2 20_000 40 ∷ []

-- Every round finds the cache as it was and removes its file.
abbrev willing : Candidate → Round
willing c = record {
  loading = false;
  loading_locked = false;
  found = some (if c.archive == 1 then resident 1 100_000 30 else resident 2 20_000 40);
  removed = true;
}

one_evicted : (enforce false 110_000 10_000 50 willing 70 0 two_caches).files ≡ (2, 40) ∷ []
unfolding enforce candidates is_evictable is_cold goes_before insert_candidate sort_candidates
    removable evict
one_evicted = refl

enforce-Removals_example :
    Needed 50 70
      (enforce false 110_000 10_000 50 willing 70 0 two_caches).files
      (enforce false 110_000 10_000 50 willing 70 0 two_caches).remaining
    × All
        (Justified willing (Choice false 110_000 10_000 two_caches))
        (enforce false 110_000 10_000 50 willing 70 0 two_caches).files
    × All Unmapped (enforce false 110_000 10_000 50 willing 70 0 two_caches).emptied
    × (length (enforce false 110_000 10_000 50 willing 70 0 two_caches).emptied
        ≡ length (enforce false 110_000 10_000 50 willing 70 0 two_caches).files)
enforce-Removals_example =
    enforce-Removals false 110_000 10_000 50 willing 70 0 two_caches (omega arith)

both_willing : All (Willing 50 willing) (candidates true 110_000 10_000 two_caches)
unfolding candidates is_evictable is_cold removable
both_willing =
    ((refl, refl, (resident 1 100_000 30, refl)), ((refl, refl, (resident 2 20_000 40, refl)), tt))

enforce_enough_example :
    Ordered (sort_candidates (candidates true 110_000 10_000 two_caches))
    × Perm
        (sort_candidates (candidates true 110_000 10_000 two_caches))
        (candidates true 110_000 10_000 two_caches)
    × First 50 willing
        (enforce true 110_000 10_000 50 willing 70 0 two_caches)
        (sort_candidates (candidates true 110_000 10_000 two_caches))
enforce_enough_example = enforce_enough true 110_000 10_000 50 willing 70 0 two_caches both_willing
