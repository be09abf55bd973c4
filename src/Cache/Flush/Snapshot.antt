-- ===== src/Cache/Flush/Snapshot.antt =====
-- FlushToDisk in Skyrim/src/DecompCache.cpp: the books when the queues are taken.
use faster_file_copy.Prelude.{
  ℕ, ◌+◌, ◌≡◌, ◌≢◌, inl, inr, refl, true, none, some, List, [], ◌∷◌, ◌==◌, if◌then◌else◌, All,
  arith, Bool-cases, Option-cases,
}
use faster_file_copy.Cache.State.{ArchiveCache, DecompCache, find, replace}
use faster_file_copy.Cache.Record.{is_empty}
use faster_file_copy.Cache.Record.Accounts.{charge}
use faster_file_copy.Cache.Flush.{OlWork, plan_work, take_pending, take_work, snapshot}
use faster_file_copy.Cache.Flush.Books.{occurrences, Balanced, work_charge, work_held, Known, Books}
use faster_file_copy.Cache.Flush.Change.{Change-Balanced, kept-Known, replace-keeps}

reindex-Balanced :
    (in_flight : ℕ) (held : ℕ → ℕ → ℕ) (in_flight' : ℕ) (held' : ℕ → ℕ → ℕ) (s : DecompCache)
    → Balanced in_flight held s
    → in_flight ≡ in_flight'
    → ((a k : ℕ) → held a k ≡ held' a k)
    → Balanced in_flight' held' s
reindex-Balanced in_flight held in_flight' held' s b same same_held = record {
  balanced = rw (← same) (b.balanced);
  bounded = b.bounded;
  queues = λ a c h k. rw (← same_held a k) (b.queues a c h k);
}

-- Work from which nothing has been taken yet.
abbrev pub Empty : List OlWork → Type 0
Empty work = All (λ (w : OlWork). w.pending ≡ []) work

take_pending-Balanced :
    (item : OlWork) (c : ArchiveCache) (in_flight : ℕ) (held : ℕ → ℕ → ℕ) (s : DecompCache)
    → find s.caches item.archive ≡ some c
    → Balanced in_flight held s
    → Balanced
        (in_flight + charge c.pending)
        (λ a k. held a k + (if item.archive == a then occurrences k c.pending else 0))
        (record s { caches = replace s.caches item.archive (record c { pending = [] }) })
take_pending-Balanced item c in_flight held s cached b =
    let p = b.balanced in
    Change-Balanced in_flight held s item.archive c (record c { pending = [] }) _ _ _ b
      (record {
        cached = cached;
        caches = refl;
        moved = omega (arith, p);
        bounded = b.bounded;
        here = λ k.
            (let h = b.queues item.archive c cached k in
              let itself : (item.archive == item.archive) ≡ true = ground arith in
              rw itself (omega (arith, h)));
        elsewhere = λ a k other. rw other (omega arith);
      })

take_work-keeps :
    (work : List OlWork) (s : DecompCache) (a : ℕ)
    → find s.caches a ≢ none
    → find (take_work work s).1.caches a ≢ none
unfolding take_work take_pending
take_work-keeps [] s a known = known
take_work-keeps (w ∷ work) s a known = elim (Option-cases (find s.caches w.archive)) [
  | inl gone ↦ rw gone (take_work-keeps work s a known)
  | inr (c, cached) ↦
      rw cached (take_work-keeps work _ a (replace-keeps s.caches w.archive c _ a cached known))
]

take_work-Balanced :
    (work : List OlWork) (in_flight : ℕ) (held : ℕ → ℕ → ℕ) (s : DecompCache)
    → Empty work
    → Known work s
    → Balanced in_flight held s
    → let (taken, last) = take_work work s in
      Balanced (in_flight + work_charge taken) (λ a k. held a k + work_held taken a k) last
unfolding take_work take_pending
take_work-Balanced [] in_flight held s empty known b =
    reindex-Balanced _ _ _ _ s b (omega arith) (λ a k. omega arith)
take_work-Balanced (w ∷ work) in_flight held s empty known b =
    elim (Option-cases (find s.caches w.archive)) [
      | inl gone ↦ absurd (known.0 gone)
      | inr (c, cached) ↦
          rw (cached, empty.0)
            (let next = record s {
              caches = replace s.caches w.archive (record c { pending = [] });
            } in
              let rest =
                take_work-Balanced work _ _ next empty.1
                  (kept-Known work s next
                    (λ a was. replace-keeps s.caches w.archive c _ a cached was) known.1)
                  (take_pending-Balanced w c in_flight held s cached b) in
              reindex-Balanced _ _ _ _ _ rest (omega arith) (λ a k. omega arith))
    ]

-- The work keeps its archives.
take_work-All :
    (P : ℕ → Type 0) (work : List OlWork) (s : DecompCache)
    → All (λ (w : OlWork). P w.archive) work
    → All (λ (w : OlWork). P w.archive) (take_work work s).0
unfolding take_work take_pending
take_work-All P [] s h = tt
take_work-All P (w ∷ work) s h = elim (Option-cases (find s.caches w.archive)) [
  | inl gone ↦ rw gone (h.0, take_work-All P work s h.1)
  | inr (c, cached) ↦ rw cached (h.0, take_work-All P work _ h.1)
]

find-first :
    (m : List (ℕ × ArchiveCache)) (archive : ℕ) (c : ArchiveCache)
    → find ((archive, c) ∷ m) archive ≢ none
unfolding find
find-first m archive c gone =
    let itself : (archive == archive) ≡ true = ground arith in
    absurd (let j = rw itself at gone in cc j)

module _ (path_for : ℕ → ℕ) where
  pub plan_work-Empty : (m : List (ℕ × ArchiveCache)) → Empty (plan_work path_for m)
  unfolding plan_work
  plan_work-Empty [] = tt
  plan_work-Empty ((archive, c) ∷ m) = elim (Bool-cases (is_empty c.pending)) [
    | inl idle ↦ rw idle (plan_work-Empty m)
    | inr queued ↦ rw queued (refl, plan_work-Empty m)
  ]

  -- The archives of the work are in the map.
  abbrev Found : List (ℕ × ArchiveCache) → List OlWork → Type 0
  Found m work = All (λ (w : OlWork). find m w.archive ≢ none) work

  Found-cons :
      (m : List (ℕ × ArchiveCache)) (archive : ℕ) (c : ArchiveCache) (work : List OlWork)
      → Found m work
      → Found ((archive, c) ∷ m) work
  unfolding find
  Found-cons m archive c [] h = tt
  Found-cons m archive c (w ∷ work) h = (
    elim (Bool-cases (archive == w.archive)) [
      | inl same ↦ rw same (λ gone. absurd (cc (gone)))
      | inr other ↦ rw other (h.0)
    ],
    Found-cons m archive c work h.1,
  )

  plan_work-Found : (m : List (ℕ × ArchiveCache)) → Found m (plan_work path_for m)
  unfolding plan_work
  plan_work-Found [] = tt
  plan_work-Found ((archive, c) ∷ m) =
      let rest = Found-cons m archive c (plan_work path_for m) (plan_work-Found m) in
      elim (Bool-cases (is_empty c.pending)) [
        | inl idle ↦ rw idle rest
        | inr queued ↦ rw queued (find-first m archive c, rest)
      ]

  -- With the queues in balance and no work in progress, the work of a flush and what is left are in
  -- balance.
  pub snapshot-Books :
      (s : DecompCache) → Books [] s → Books (snapshot path_for s).0 (snapshot path_for s).1
  unfolding snapshot
  snapshot-Books s books =
      let work = plan_work path_for s.caches in
      let known = plan_work-Found s.caches in
      record {
        accounts =
            reindex-Balanced _ _ _ _ _
              (take_work-Balanced work _ _ s (plan_work-Empty s.caches) known books.accounts)
              (omega arith) (λ a k. omega arith);
        known =
            take_work-All (λ a. find (snapshot path_for s).1.caches a ≢ none) work s
              (kept-Known work s (take_work work s).1 (take_work-keeps work s) known);
      }
