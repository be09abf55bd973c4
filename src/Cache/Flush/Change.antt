-- ===== src/Cache/Flush/Change.antt =====
-- FlushToDisk in Skyrim/src/DecompCache.cpp: a step that replaces one cache, and the books with it.
use faster_file_copy.Prelude.{
  ℕ, ◌+◌, ◌≤◌, ◌≡◌, ◌≢◌, inl, inr, sym, ◌∙◌, false, none, some, List, [], ◌∷◌, ◌==◌, if◌then◌else◌,
  arith, Bool-cases,
}
use faster_file_copy.Cache.State.{ArchiveCache, DecompCache, find, replace, contains}
use faster_file_copy.Cache.Record.{max_pending_memory_bytes}
use faster_file_copy.Cache.Record.Accounts.{charge, total_charge, total_charge-replace}
use faster_file_copy.Cache.Flush.{OlWork}
use faster_file_copy.Cache.Flush.Books.{
  occurrences, bit, Balanced, work_charge, work_held, Known, Books, find-replace,
}

-- One cache changes, and the books with it.
pub record Change (in_flight : ℕ) (held : ℕ → ℕ → ℕ) (s : DecompCache) (archive : ℕ)
    (c d : ArchiveCache) (in_flight' : ℕ) (held' : ℕ → ℕ → ℕ) (t : DecompCache) : Type 0 where
  pub cached : find s.caches archive ≡ some c
  pub caches : t.caches ≡ replace s.caches archive d
  pub moved :
      t.pending_bytes + charge c.pending
      ≡ t.committed_reservations + in_flight' + total_charge s.caches + charge d.pending
  pub bounded : t.pending_bytes ≤ max_pending_memory_bytes
  pub here :
      (k : ℕ) → occurrences k d.pending + held' archive k ≤ bit (contains d.buffered_offsets k)
  pub elsewhere : (b k : ℕ) → (archive == b) ≡ false → held' b k ≤ held b k

pub Change-Balanced :
    (in_flight : ℕ) (held : ℕ → ℕ → ℕ) (s : DecompCache) (archive : ℕ) (c d : ArchiveCache)
    (in_flight' : ℕ) (held' : ℕ → ℕ → ℕ) (t : DecompCache)
    → Balanced in_flight held s
    → Change in_flight held s archive c d in_flight' held' t
    → Balanced in_flight' held' t
Change-Balanced in_flight held s archive c d in_flight' held' t b ch =
    let total = total_charge-replace s.caches archive c d ch.cached in
    let moved = ch.moved in
    record {
      balanced = rw (ch.caches) (omega (arith, total, moved));
      bounded = ch.bounded;
      queues = λ a x h k.
          let at = find-replace s.caches archive c d a ch.cached in
          let is : (if archive == a then some d else find s.caches a) ≡ some x =
            sym at ∙ (rw (ch.caches) at h) in
          elim (Bool-cases (archive == a)) [
            | inl same ↦
                let e : archive ≡ a = ground arith in
                let dx : d ≡ x = (let j = rw same at is in cc j) in rw (← e, ← dx) (ch.here k)
            | inr other ↦
                let old = b.queues a x (rw other at is) k in
                let less = ch.elsewhere a k other in omega (arith, old, less)
          ];
    }

pub kept-Known :
    (ws : List OlWork) (s t : DecompCache)
    → ((a : ℕ) → find s.caches a ≢ none → find t.caches a ≢ none)
    → Known ws s
    → Known ws t
kept-Known [] s t kept known = tt
kept-Known (w ∷ ws) s t kept known = (kept w.archive known.0, kept-Known ws s t kept known.1)

pub replace-keeps :
    (m : List (ℕ × ArchiveCache)) (k : ℕ) (c d : ArchiveCache) (a : ℕ)
    → find m k ≡ some c
    → find m a ≢ none
    → find (replace m k d) a ≢ none
replace-keeps m k c d a cached known gone =
    let at = sym (find-replace m k c d a cached) ∙ gone in
    elim (Bool-cases (k == a)) [
      | inl same ↦ absurd (let j = rw same at at in cc j)
      | inr other ↦ known (rw other at at)
    ]

pub Change-Books :
    (s : DecompCache) (before after : List OlWork) (archive : ℕ) (c d : ArchiveCache)
    (t : DecompCache)
    → Balanced (work_charge before) (work_held before) s
    → Known after s
    → Change
        (work_charge before)
        (work_held before)
        s
        archive
        c
        d
        (work_charge after)
        (work_held after)
        t
    → Books after t
Change-Books s before after archive c d t b known ch = record {
  accounts = Change-Balanced _ _ s archive c d _ _ t b ch;
  known =
      kept-Known after s t
        (λ a was. rw (ch.caches) (replace-keeps s.caches archive c d a ch.cached was)) known;
}
