-- ===== src/Cache/Tests.antt =====
-- Runs of the cache on one archive with one committed payload, and the witnesses of its theorems.
use faster_file_copy.Prelude.{
  arith, ℕ, ◌*◌, ◌≡◌, refl, true, false, ◌&&◌, Option, none, some, List, [], ◌∷◌, ◌==◌,
  if◌then◌else◌,
}
use faster_file_copy.Format.Checksum.{checksum, byte_step}
use faster_file_copy.Policy.Warm.{is_range_warm}
use faster_file_copy.Cache.State.{
  Verification, verify_unknown, MappedView, CachedEntry, LookupResult, ArchiveCache, DecompCache,
  Settings, find, contains, update_view,
}
use faster_file_copy.Cache.Sample.{no_diagnostics}
use faster_file_copy.Cache.Warm.Touch.{Resident}
use faster_file_copy.Cache.Warm.Served.{served_resident}
use faster_file_copy.Cache.Lookup.{
  payload_valid, verify_entry, lookup_archive, lookup_view, lookup_entry, lookup_address,
  make_result, lookup, report_mapping_io_failure,
}
use faster_file_copy.Cache.Lookup.Intact.{Intact, Sound}
use faster_file_copy.Cache.Lookup.Served.{lookup-Intact}
use faster_file_copy.Cache.Lookup.Marks.{lookup-Sound}
use faster_file_copy.Cache.Lookup.Classified.{Classified}
use faster_file_copy.Cache.Lookup.Outcome.{lookup-Classified}
use faster_file_copy.Cache.Record.{
  record_decompressed, record_cache, is_committed, admit, admission_bytes, fixed_overhead, enqueue,
}
use faster_file_copy.Cache.Record.Outcome.{Outcome}

abbrev abc : List ℕ
abc = 97 ∷ 98 ∷ 99 ∷ []

-- A mapping at 1000 with the payload at 1544.
abbrev mapped : ℕ → ℕ → Option (List ℕ)
mapped address size = if address == 1544 && size == 3 then some abc else none

abbrev view : MappedView
view = record {
  base = 1000;
  size = 547;
  committed_size = 547;
  prefaulted_through = 547;
  unusable = false;
}

abbrev entry : Verification → ℕ → CachedEntry
entry state sum = record {
  data_address = some 1544;
  size = 3;
  checksum_value = sum;
  verification = some state;
}

abbrev archive_cache : CachedEntry → ArchiveCache
archive_cache e = record {
  view = some 1;
  active_path = some 9;
  disk_invalidated = false;
  needs_replacement = false;
  last_access_ms = 0;
  on_disk_bytes = 547;
  index = (5, e) ∷ [];
  pending = [];
  buffered_offsets = [];
}

abbrev state : CachedEntry → DecompCache
state e = record {
  caches = (7, archive_cache e) ∷ [];
  views = λ v. view;
  building = true;
  ready = true;
  committed_reservations = 0;
  pending_bytes = 0;
  total_cache_bytes = 547;
  required_headroom = 0;
  last_over_cap_notify_ms = 0;
  cache_epoch = 0;
  flush_requested = false;
  warm_requested = false;
  warm_complete = true;
  warmed_bytes = 547;
  notifications = 0;
  diagnostics = no_diagnostics;
}

abbrev settings : Settings
settings = record {
  measure_stats = true;
  prefault_decomp_cache = true;
  decomp_cache_max_bytes = 1024 * 1024;
}

abbrev good : CachedEntry
good = entry verify_unknown 0x32D153FF

abbrev bad : CachedEntry
bad = entry verify_unknown 1

abbrev answer : LookupResult
answer = record { data_address = 1544; size = 3; owner = 1 }

good-served : (lookup settings mapped 60 7 5 (state good)).0 ≡ some answer
unfolding lookup lookup_archive find lookup_view lookup_entry lookup_address is_range_warm
    make_result verify_entry payload_valid checksum byte_step
good-served = refl

bad-missed : (lookup settings mapped 60 7 5 (state bad)).0 ≡ none
unfolding lookup lookup_archive find lookup_view lookup_entry lookup_address is_range_warm
    make_result verify_entry payload_valid checksum byte_step
bad-missed = refl

good-Sound : Sound mapped (state good)
good-Sound = (((λ marked. absurd (cc)), tt), tt)

lookup-Intact_example :
    (c : ArchiveCache) × (e : CachedEntry) × (find (state good).caches 7 ≡ some c)
    × (c.view ≡ some 1)
    × (c.disk_invalidated ≡ false)
    × (((state good).views 1).unusable ≡ false)
    × (find c.index 5 ≡ some e)
    × Intact mapped 1544 3 e.checksum_value
lookup-Intact_example =
    lookup-Intact settings mapped 60 7 5 (state good) answer good-Sound good-served

lookup-Sound_example : Sound mapped (lookup settings mapped 60 7 5 (state good)).1
lookup-Sound_example = lookup-Sound settings mapped 60 7 5 (state good) good-Sound

lookup-Classified_example :
    Classified settings mapped 7 5
      (state bad).caches
      (state bad).views
      (lookup settings mapped 60 7 5 (state bad))
lookup-Classified_example = lookup-Classified settings mapped 60 7 5 (state bad)

-- A fault of another mapping, 2, is reported; the lookup still answers.
still-served :
    (lookup settings mapped 60 7 5 (report_mapping_io_failure settings (some 2) (state good))).0
    ≡ some answer
unfolding lookup report_mapping_io_failure update_view lookup_archive find lookup_view lookup_entry
    lookup_address is_range_warm make_result verify_entry payload_valid checksum byte_step
still-served = refl

abbrev counts : ℕ → ℕ
counts archive = 3

-- The offset 5 is committed; another one is queued.
known-refused :
    (record_decompressed settings 60 counts (some 7) 5 abc (state good)).pending_bytes ≡ 0
unfolding record_decompressed record_cache find is_committed
known-refused = refl

new-queued : (record_decompressed settings 60 counts (some 7) 9 abc (state good)).pending_bytes ≡ 3
unfolding record_decompressed record_cache find is_committed contains admit admission_bytes
    fixed_overhead enqueue
new-queued = refl

served_resident_example : Resident (λ o. true) 4096 544
served_resident_example =
    served_resident settings mapped 60 7 5 (state good) answer (λ o. true) 4096 refl
      (λ x h. (x, refl, refl)) good-served 544 (omega arith) (omega arith)
