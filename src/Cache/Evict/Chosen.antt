-- ===== src/Cache/Evict/Chosen.antt =====
-- Which archives EnforceSizeLimit chooses.
use faster_file_copy.Prelude.{
  ℕ, ◌+◌, ◌*◌, ◌≤◌, ◌<◌, ◌≡◌, ◌⊎◌, inl, inr, refl, Bool, true, false, ◌&&◌, List, [], ◌∷◌, ltb,
  u64_max, All, arith, Bool-cases,
}
use mathlib.Core.List.{Mem, mem-cons_self, mem-cons_of_mem}
use faster_file_copy.Cache.Record.{is_empty}
use faster_file_copy.Cache.Evict.{
  Resident, Candidate, is_evictable, is_cold, candidate_of, candidates,
}

-- A file that is mapped, and no payload waits in a queue to be written to it.
pub record Idle (r : Resident) : Type 0 where
  pub is_mapped : r.has_view ≡ true
  pub has_file : r.has_path ≡ true
  pub nothing_queued : r.buffered_offsets ≡ []

-- Nothing used the file for a minute of the session, or its use is recorded at a time after `now`.
pub data Cold (now session_start last : ℕ) : Type 0 where
  unused : last + 60 * 1000 ≤ now → session_start + 60 * 1000 ≤ now → Cold now session_start last
  later_use : now < last → Cold now session_start last
  later_start : now < session_start → Cold now session_start last

pub is_evictable-Idle : (r : Resident) → is_evictable r ≡ true → Idle r
unfolding is_evictable
is_evictable-Idle r h =
    let (view, path, queue) = by_queue r.has_view r.has_path r.buffered_offsets h in
    record { is_mapped = view; has_file = path; nothing_queued = queue }
  where
    by_queue :
        (v p : Bool) (l : List ℕ)
        → (v && p && is_empty l) ≡ true
        → (v ≡ true) × (p ≡ true) × (l ≡ [])
    by_queue true true [] h = (refl, refl, refl)
    by_queue true true (x ∷ l) h = absurd (cc)
    by_queue true false l h = absurd (cc)
    by_queue false p l h = absurd (cc)

is_cold-Cold :
    (force : Bool) (now session_start last : ℕ)
    → now ≤ u64_max
    → is_cold force now session_start last ≡ true
    → (force ≡ true) ⊎ Cold now session_start last
unfolding is_cold
is_cold-Cold true now session_start last fits h = inl refl
is_cold-Cold false now session_start last fits h = elim (Bool-cases (ltb now last)) [
  | inl wraps ↦ inr (later_use (ground arith))
  | inr past ↦ elim (Bool-cases (ltb now session_start)) [
    | inl wraps ↦ inr (later_start (ground arith))
    | inr started ↦ inr (unused (ground arith) (ground arith))
  ]
]

-- A candidate of one of the caches, which is idle, and is cold or to go in any case.
pub record Choice (force : Bool) (now session_start : ℕ) (caches : List Resident) (c : Candidate)
    : Type 0 where
  pub resident : Resident
  pub among : Mem resident caches
  pub same : candidate_of resident ≡ c
  pub idle : Idle resident
  pub cold : (force ≡ true) ⊎ Cold now session_start resident.last_access_ms

Choice-later :
    (force : Bool) (now session_start : ℕ) (r : Resident) (caches : List Resident)
    (cs : List Candidate)
    → All (Choice force now session_start caches) cs
    → All (Choice force now session_start (r ∷ caches)) cs
Choice-later force now session_start r caches [] h = tt
Choice-later force now session_start r caches (c ∷ cs) h = (
  record {
    resident = h.0.resident;
    among = mem-cons_of_mem r h.0.among;
    same = h.0.same;
    idle = h.0.idle;
    cold = h.0.cold;
  },
  Choice-later force now session_start r caches cs h.1,
)

pub candidates-Choice :
    (force : Bool) (now session_start : ℕ) (caches : List Resident)
    → now ≤ u64_max
    → All (Choice force now session_start caches) (candidates force now session_start caches)
unfolding candidates
candidates-Choice force now session_start [] fits = tt
candidates-Choice force now session_start (r ∷ caches) fits =
    let rest =
      Choice-later force now session_start r caches (candidates force now session_start caches)
        (candidates-Choice force now session_start caches fits) in
    elim (Bool-cases (is_evictable r && is_cold force now session_start r.last_access_ms)) [
      | inr skipped ↦ rw skipped rest
      | inl chosen ↦
          let here : Choice force now session_start (r ∷ caches) (candidate_of r) = record {
            resident = r;
            among = mem-cons_self;
            same = refl;
            idle = is_evictable-Idle r (ground arith);
            cold = is_cold-Cold force now session_start r.last_access_ms fits (ground arith);
          } in
          rw chosen (here, rest)
    ]

-- A property that every cache's candidate has, every chosen candidate has.
pub All-candidates :
    (P : Candidate → Type 0)
    → ((r : Resident) → P (candidate_of r))
    → (force : Bool) (now session_start : ℕ) (caches : List Resident)
    → All P (candidates force now session_start caches)
unfolding candidates
All-candidates P p force now session_start [] = tt
All-candidates P p force now session_start (r ∷ caches) =
    let rest = All-candidates P p force now session_start caches in
    elim (Bool-cases (is_evictable r && is_cold force now session_start r.last_access_ms)) [
      | inl chosen ↦ rw chosen (p r, rest)
      | inr skipped ↦ rw skipped rest
    ]
