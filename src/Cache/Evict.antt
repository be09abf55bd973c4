-- ===== src/Cache/Evict.antt =====
-- Skyrim/src/DecompCache.cpp, EnforceSizeLimit: the choice of the archives whose cache files are removed,
-- and the loop that removes them. What the environment does in a round, and what the round finds under
-- the lock, is a parameter; scanning the directory, log lines and the restored headroom are left out.
pub mod Order
pub mod Chosen
pub mod Needed
mod Tests
use faster_file_copy.Prelude.{
  ℕ, ◌+◌, ◌-◌, ◌%◌, max, ◌≡◌, refl, Bool, true, false, not, ◌&&◌, ◌||◌, Option, none, some, List,
  [], ◌∷◌, ltb, leb, ◌==◌, if◌then◌else◌, u64_mod,
}
use faster_file_copy.Prelude.Words.{add64, sub64}
use faster_file_copy.Policy.Limit.{add_saturating}
use faster_file_copy.Cache.Record.{cold_ms, is_empty}

-- The members of an ArchiveCache that EnforceSizeLimit reads, and its file's time.
pub record Resident : Type 0 where
  pub archive : ℕ
  pub has_view : Bool
  pub has_path : Bool
  pub buffered_offsets : List ℕ
  pub last_access_ms : ℕ
  pub file_last_write : ℕ
  pub on_disk_bytes : ℕ

pub record Candidate : Type 0 where
  pub archive : ℕ
  pub last_access : ℕ
  pub file_last_write : ℕ
  pub used_this_session : Bool

-- A mapped file with nothing queued for it.
unfoldable pub is_evictable : Resident → Bool
is_evictable r = r.has_view && r.has_path && is_empty r.buffered_offsets

-- now - effectiveLast on std::uint64_t wraps.
unfoldable pub is_cold : Bool → ℕ → ℕ → ℕ → Bool
is_cold force now session_start last = force || leb cold_ms (sub64 now (max last session_start))

abbrev pub candidate_of : Resident → Candidate
candidate_of r = record {
  archive = r.archive;
  last_access = r.last_access_ms;
  file_last_write = r.file_last_write;
  used_this_session = not (r.last_access_ms == 0);
}

unfoldable pub candidates : Bool → ℕ → ℕ → List Resident → List Candidate
unfolding is_evictable is_cold
candidates force now session_start [] = []
candidates force now session_start (r ∷ caches) =
    let rest = candidates force now session_start caches in
    if is_evictable r && is_cold force now session_start r.last_access_ms
    then candidate_of r ∷ rest
    else rest

-- The order of std::sort: unused files first, the oldest of them first.
unfoldable pub goes_before : Candidate → Candidate → Bool
goes_before a b =
    if a.used_this_session
    then (if b.used_this_session then ltb a.last_access b.last_access else false)
    else (if b.used_this_session then true else ltb a.file_last_write b.file_last_write)

unfoldable pub insert_candidate : Candidate → List Candidate → List Candidate
unfolding goes_before
insert_candidate c [] = c ∷ []
insert_candidate c (d ∷ l) =
    let rest = insert_candidate c l in if goes_before d c then d ∷ rest else c ∷ d ∷ l

unfoldable pub sort_candidates : List Candidate → List Candidate
unfolding insert_candidate
sort_candidates [] = []
sort_candidates (c ∷ l) = insert_candidate c (sort_candidates l)

pub record Round : Type 0 where
  -- m_loadActive, before the lock and under it.
  pub loading : Bool
  pub loading_locked : Bool
  -- The cache under the lock, if it is still there.
  pub found : Option Resident
  -- std::filesystem::remove
  pub removed : Bool

pub record Evicted : Type 0 where
  -- The archives and the sizes of their files, in the order of removal.
  pub files : List (ℕ × ℕ)
  -- What the removals leave of the caches.
  pub emptied : List Resident
  pub remaining : ℕ
  pub freed : ℕ
  pub cache_epoch : ℕ

-- The cache whose file a round removes.
unfoldable pub removable : Round → Option Resident
unfolding is_evictable
removable a = elim a.found [
  | none ↦ none
  | some r ↦ if is_evictable r && a.removed then some r else none
]

-- view.reset(), activePath.clear(), onDiskBytes = 0
abbrev pub empty_cache : Resident → Resident
empty_cache r = record r { has_view = false; has_path = false; on_disk_bytes = 0 }

abbrev pub left_over : ℕ → ℕ → ℕ
left_over remaining bytes = if leb remaining bytes then 0 else remaining - bytes

abbrev pub no_more : ℕ → ℕ → ℕ → Evicted
no_more remaining freed epoch = record {
  files = [];
  emptied = [];
  remaining = remaining;
  freed = freed;
  cache_epoch = epoch;
}

unfoldable pub evict : ℕ → (Candidate → Round) → ℕ → ℕ → ℕ → List Candidate → Evicted
evict target world remaining freed epoch [] = no_more remaining freed epoch
evict target world remaining freed epoch (c ∷ cs) =
    if (world c).loading || leb remaining target || (world c).loading_locked
    then no_more remaining freed epoch
    else elim (removable (world c)) [
      | none ↦ evict target world remaining freed epoch cs
      | some r ↦
          let rest =
            evict target world (left_over remaining r.on_disk_bytes)
              (add_saturating freed r.on_disk_bytes) (add64 epoch 1) cs in
          record rest {
            files = (c.archive, r.on_disk_bytes) ∷ rest.files;
            emptied = empty_cache r ∷ rest.emptied;
          }
    ]

-- The batch of EnforceSizeLimit, for a total size that is above the target.
unfoldable pub enforce : Bool → ℕ → ℕ → ℕ → (Candidate → Round) → ℕ → ℕ → List Resident → Evicted
unfolding candidates sort_candidates evict
enforce force now session_start target world total epoch caches =
    evict target world total 0 epoch (sort_candidates (candidates force now session_start caches))
