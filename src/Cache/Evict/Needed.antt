-- ===== src/Cache/Evict/Needed.antt =====
-- Which files EnforceSizeLimit removes, and when it stops.
use faster_file_copy.Prelude.{
  ℕ, ◌-◌, ◌≤◌, ◌<◌, ◌≡◌, ◌⊎◌, inl, inr, refl, ap, subst, Bool, true, false, ◌&&◌, ◌||◌, none, some,
  List, [], ◌∷◌, leb, length, suc, ◌++◌, u64_max, map, All, arith, Bool-cases, Option-cases, leb→le,
}
use mathlib.Core.List.{Perm}
use faster_file_copy.Prelude.Words.{add64}
use faster_file_copy.Policy.Limit.{add_saturating}
use faster_file_copy.Cache.Evict.Chosen.{
  Idle, Choice, is_evictable-Idle, candidates-Choice, All-candidates,
}
use faster_file_copy.Cache.Evict.Order.{Ordered, Marked, All-sort, sort-Ordered, sort-perm}
use faster_file_copy.Cache.Evict.{
  Resident, Candidate, is_evictable, candidates, sort_candidates, Round, Evicted, removable,
  empty_cache, left_over, no_more, evict, enforce,
}

-- Each removal happens while the estimate of what remains is above the target, and lowers it by the
-- size of the file.
abbrev pub Needed : ℕ → ℕ → List (ℕ × ℕ) → ℕ → Type 0
Needed target remaining [] last = last ≡ remaining
Needed target remaining ((archive, bytes) ∷ files) last =
    (target < remaining) × Needed target (remaining - bytes) files last

-- The file of a chosen candidate that still was idle, and that was removed.
pub record Justified (world : Candidate → Round) (P : Candidate → Type 0) (file : ℕ × ℕ)
    : Type 0 where
  pub chosen : Candidate
  pub is_chosen : P chosen
  pub same_archive : chosen.archive ≡ file.0
  pub resident : Resident
  pub still_there : (world chosen).found ≡ some resident
  pub idle : Idle resident
  pub was_removed : (world chosen).removed ≡ true
  pub size : resident.on_disk_bytes ≡ file.1

left_over-sub : (remaining bytes : ℕ) → left_over remaining bytes ≡ remaining - bytes
left_over-sub remaining bytes = ground arith

removable-some :
    (a : Round) (s : Resident)
    → removable a ≡ some s
    → (a.found ≡ some s) × (is_evictable s ≡ true) × (a.removed ≡ true)
unfolding removable
removable-some a s h = elim (Option-cases a.found) [
  | inl gone ↦ absurd (ground (arith, rw (gone, removable) at h))
  | inr (r, there) ↦ elim (Bool-cases (is_evictable r && a.removed)) [
    | inl both ↦
        let e = rw (there, both, removable) at h in
        let same : r ≡ s = cc e in rw (← same) (there, ground arith, ground arith)
    | inr other ↦ absurd (ground (arith, rw (there, other, removable) at h))
  ]
]

-- A cache without a mapping and without a file.
pub record Unmapped (r : Resident) : Type 0 where
  pub no_view : r.has_view ≡ false
  pub no_path : r.has_path ≡ false
  pub no_bytes : r.on_disk_bytes ≡ 0

module _ (target : ℕ) (world : Candidate → Round) where
  abbrev stops : ℕ → Candidate → Bool
  stops remaining c = (world c).loading || leb remaining target || (world c).loading_locked

  -- The rounds behind a removal.
  abbrev onward : ℕ → ℕ → ℕ → Resident → List Candidate → Evicted
  onward remaining freed epoch r cs =
      evict target world (left_over remaining r.on_disk_bytes)
        (add_saturating freed r.on_disk_bytes) (add64 epoch 1) cs

  evict_stop :
      (remaining freed epoch : ℕ) (c : Candidate) (cs : List Candidate)
      → stops remaining c ≡ true
      → evict target world remaining freed epoch (c ∷ cs) ≡ no_more remaining freed epoch
  unfolding evict
  evict_stop remaining freed epoch c cs t = rw t refl

  evict_skip :
      (remaining freed epoch : ℕ) (c : Candidate) (cs : List Candidate)
      → stops remaining c ≡ false
      → removable (world c) ≡ none
      → evict target world remaining freed epoch (c ∷ cs)
        ≡ evict target world remaining freed epoch cs
  unfolding evict
  evict_skip remaining freed epoch c cs t e = rw (t, e) refl

  evict_take :
      (remaining freed epoch : ℕ) (r : Resident) (c : Candidate) (cs : List Candidate)
      → stops remaining c ≡ false
      → removable (world c) ≡ some r
      → evict target world remaining freed epoch (c ∷ cs)
        ≡ record (onward remaining freed epoch r cs) {
          files = (c.archive, r.on_disk_bytes) ∷ (onward remaining freed epoch r cs).files;
          emptied = empty_cache r ∷ (onward remaining freed epoch r cs).emptied;
        }
  unfolding evict
  evict_take remaining freed epoch r c cs t e = rw (t, e) refl

  -- What the removals of a list of candidates are like.
  pub record Removals (P : Candidate → Type 0) (remaining : ℕ) (done : Evicted) : Type 0 where
    pub needed : Needed target remaining done.files done.remaining
    pub justified : All (Justified world P) done.files
    pub unmapped : All Unmapped done.emptied
    pub as_many : length done.emptied ≡ length done.files

  evict-Removals :
      (P : Candidate → Type 0) (remaining freed epoch : ℕ) (cs : List Candidate)
      → All P cs
      → Removals P remaining (evict target world remaining freed epoch cs)
  unfolding evict
  evict-Removals P remaining freed epoch [] ps = record {
    needed = refl;
    justified = tt;
    unmapped = tt;
    as_many = refl;
  }
  evict-Removals P remaining freed epoch (c ∷ cs) ps = elim (Bool-cases (stops remaining c)) [
    | inl t ↦
        rw (evict_stop remaining freed epoch c cs t)
          (record { needed = refl; justified = tt; unmapped = tt; as_many = refl })
    | inr go ↦ elim (Option-cases (removable (world c))) [
      | inl kept ↦
          rw (evict_skip remaining freed epoch c cs go kept)
            (evict-Removals P remaining freed epoch cs ps.1)
      | inr (r, gone) ↦
          let why = removable-some (world c) r gone in
          let more = onward remaining freed epoch r cs in
          let rest =
            evict-Removals P (left_over remaining r.on_disk_bytes)
              (add_saturating freed r.on_disk_bytes) (add64 epoch 1) cs ps.1 in
          rw (evict_take remaining freed epoch r c cs go gone) (record {
            needed = (
              ground (arith, go),
              subst (λ n. Needed target n more.files more.remaining)
                  (left_over-sub remaining r.on_disk_bytes) rest.needed,
            );
            justified = (
              record {
                chosen = c;
                is_chosen = ps.0;
                same_archive = refl;
                resident = r;
                still_there = why.0;
                idle = is_evictable-Idle r why.1;
                was_removed = why.2;
                size = refl;
              },
              rest.justified,
            );
            unmapped = (record { no_view = refl; no_path = refl; no_bytes = refl }, rest.unmapped);
            as_many = ap suc rest.as_many;
          })
    ]
  ]

  -- No round is stopped, and each removes its file.
  abbrev pub Willing : Candidate → Type 0
  Willing c =
      ((world c).loading ≡ false)
      × ((world c).loading_locked ≡ false)
      × ((r : Resident) × (removable (world c) ≡ some r))

  -- The archives of the files that are removed are the first ones of the list, in its order.
  abbrev pub First : Evicted → List Candidate → Type 0
  First done cs =
      (left : List ℕ) × (map (λ (f : ℕ × ℕ). f.0) done.files ++ left
        ≡ map (λ (c : Candidate). c.archive) cs)
      × ((done.remaining ≤ target) ⊎ (left ≡ []))

  evict-Willing :
      (remaining freed epoch : ℕ) (cs : List Candidate)
      → All Willing cs
      → First (evict target world remaining freed epoch cs) cs
  unfolding evict
  evict-Willing remaining freed epoch [] w = ([], refl, inr refl)
  evict-Willing remaining freed epoch (c ∷ cs) w = elim (Bool-cases (stops remaining c)) [
    | inl t ↦ rw (evict_stop remaining freed epoch c cs t) (
      map (λ (d : Candidate). d.archive) (c ∷ cs),
      refl,
      inl (leb→le remaining target (let a = w.0.0 in let b = w.0.1 in ground (arith, t, a, b))),
    )
    | inr go ↦
        let r = w.0.2.0 in
        let (left, first, done) =
          evict-Willing (left_over remaining r.on_disk_bytes) (add_saturating freed r.on_disk_bytes)
            (add64 epoch 1) cs w.1 in
        rw (evict_take remaining freed epoch r c cs go w.0.2.1)
          (left, ap (◌∷◌ c.archive) first, done)
  ]

-- EnforceSizeLimit removes a file only while its estimate of the total is above the target, and takes
-- the file's size off. Each file belonged to one of the caches that, when it was chosen, had a view, a file and no
-- buffered offset, and, unless the eviction is forced, was last used at least 60,000 ms before `now`, in
-- a session that is at least as old, or else has a last use or a session start after `now`, which the
-- subtraction of the code takes for a long time ago. It still had a view, a file and no buffered offset
-- when its file was removed, and the removal leaves it with no view, no file and no bytes on disk. The
-- time `now` is a 64-bit number.
pub enforce-Removals :
    (force : Bool) (now session_start target : ℕ) (world : Candidate → Round) (total epoch : ℕ)
    (caches : List Resident)
    → now ≤ u64_max
    → Needed target total
        (enforce force now session_start target world total epoch caches).files
        (enforce force now session_start target world total epoch caches).remaining
      × All
          (Justified world (Choice force now session_start caches))
          (enforce force now session_start target world total epoch caches).files
      × All Unmapped (enforce force now session_start target world total epoch caches).emptied
      × (length (enforce force now session_start target world total epoch caches).emptied
          ≡ length (enforce force now session_start target world total epoch caches).files)
unfolding enforce
enforce-Removals force now session_start target world total epoch caches fits =
    let r =
      evict-Removals target world (Choice force now session_start caches) total 0 epoch
        (sort_candidates (candidates force now session_start caches))
        (All-sort (Choice force now session_start caches)
          (candidates force now session_start caches)
          (candidates-Choice force now session_start caches fits)) in
    (r.needed, r.justified, r.unmapped, r.as_many)

-- EnforceSizeLimit tries the candidates in a list that holds each of them as often as it was chosen: the
-- files that the session has not used before those that it has, the former by the time of their last
-- write and the latter by the time of their last use. If no round is stopped and each removes its file,
-- the files that it removes are those of the first candidates of that list, in its order, and it stops
-- with an estimate that is not above the target, or with no candidate left.
pub enforce_enough :
    (force : Bool) (now session_start target : ℕ) (world : Candidate → Round) (total epoch : ℕ)
    (caches : List Resident)
    → All (Willing target world) (candidates force now session_start caches)
    → Ordered (sort_candidates (candidates force now session_start caches))
      × Perm
          (sort_candidates (candidates force now session_start caches))
          (candidates force now session_start caches)
      × First target world
          (enforce force now session_start target world total epoch caches)
          (sort_candidates (candidates force now session_start caches))
unfolding enforce
enforce_enough force now session_start target world total epoch caches w =
    let chosen = candidates force now session_start caches in
    (
      sort-Ordered chosen (All-candidates Marked (λ r. refl) force now session_start caches),
      sort-perm chosen,
      evict-Willing target world total 0 epoch (sort_candidates chosen)
          (All-sort (Willing target world) chosen w),
    )
