-- ===== src/Cache/Flush/Session.antt =====
-- Calls of DecompCache (Skyrim/src/DecompCache.cpp) and the steps of its flushes in any order. Flushes
-- exclude one another, so work is taken only when none is in progress; recorders, lookups and reports run
-- at any time in between. EnforceSizeLimit, which touches no queue, is not among the steps.
use faster_file_copy.Prelude.{
  ℕ, ◌≡◌, inl, inr, refl, Bool, false, Option, none, some, List, [], ◌∷◌, ◌==◌, All, arith,
  Bool-cases,
}
use faster_file_copy.Cache.State.{PendingEntry, ArchiveCache, DecompCache, Settings, contains}
use faster_file_copy.Cache.Record.{record_decompressed}
use faster_file_copy.Cache.Record.Outcome.{Queued, unchanged, queued, record_decompressed-Outcome}
use faster_file_copy.Cache.Record.Accounts.{total_charge}
use faster_file_copy.Cache.Lookup.Intact.{find-All}
use faster_file_copy.Cache.Lookup.{lookup, report_mapping_io_failure}
use faster_file_copy.Cache.Flush.{OlWork, OlResult, snapshot, finish}
use faster_file_copy.Cache.Flush.Upkeep.{Retire, reconcile, retire, begin_flush}
use faster_file_copy.Cache.Flush.Books.{Books, charge-append, occurrences-append}
use faster_file_copy.Cache.Flush.Finish.{finish-Books}
use faster_file_copy.Cache.Flush.Change.{Change-Books}
use faster_file_copy.Cache.Flush.Snapshot.{snapshot-Books}
use faster_file_copy.Cache.Flush.Untouched.{SameRows-refl, Untouched-Books}
use faster_file_copy.Cache.Flush.Calls.{
  retire-Untouched, lookup-Untouched, report-Untouched, begin_flush-Untouched,
}

Queued-Books :
    (cfg : Settings) (now archive start : ℕ) (payload : List ℕ) (ws : List OlWork)
    (s t : DecompCache)
    → Queued cfg now archive start payload s t
    → Books ws s
    → Books ws t
unfolding contains
Queued-Books cfg now archive start payload ws s t q books =
    let b = books.accounts in
    let entry : PendingEntry = record {
      start_offset = start;
      accounted_bytes = q.bytes;
      payload = payload;
    } in
    let p = b.balanced in
    let pending = q.new_pending in
    let reservations = q.same_reservations in
    let fits = q.in_memory in
    Change-Books s ws ws archive q.cache _ t b books.known (record {
      cached = q.cached;
      caches = q.new_caches;
      moved =
          rw (charge-append q.cache.pending (entry ∷ [])) (omega (arith, p, pending, reservations));
      bounded = omega (arith, fits, pending);
      here = λ k.
          (let old = b.queues archive q.cache q.cached k in
            let new = q.not_buffered in
            rw (occurrences-append k q.cache.pending (entry ∷ [])) (elim (Bool-cases (start == k)) [
              | inl same ↦
                  let e : start ≡ k = ground arith in
                  let marked : contains q.cache.buffered_offsets k ≡ false = rw (← e) new in
                  let unmarked = rw marked at old in rw same (omega (arith, unmarked))
              | inr other ↦ rw other (omega (arith, old))
            ]));
      elsewhere = λ a k other. omega arith;
    })

reconcile-Books :
    (scan : Option (List ℕ)) (ws : List OlWork) (s : DecompCache)
    → Books ws s
    → Books ws (reconcile scan s)
unfolding reconcile
reconcile-Books none ws s books = books
reconcile-Books (some sizes) ws s books =
    let b = books.accounts in
    record {
      accounts = record {
        balanced = let p = b.balanced in let q = b.bounded in ground (arith, p, q);
        bounded = let p = b.balanced in let q = b.bounded in ground (arith, p, q);
        queues = b.queues;
      };
      known = books.known;
    }

pub record Session : Type 0 where
  -- What the flush in progress has taken and not finished yet.
  pub work : List OlWork
  pub state : DecompCache

abbrev pub Kept : Session → Type 0
Kept p = Books p.work p.state

module _ (cfg : Settings) (entry_count path_for : ℕ → ℕ) where
  pub data Step (p : Session) : Session → Type 0 where
    recorded :
        (now : ℕ) (archive : Option ℕ) (start : ℕ) (payload : List ℕ)
        → Step p (record p {
          state = record_decompressed cfg now entry_count archive start payload p.state;
        })
    looked_up :
        (read : ℕ → ℕ → Option (List ℕ)) (now archive start : ℕ)
        → Step p (record p { state = (lookup cfg read now archive start p.state).1 })
    reported :
        (owner : Option ℕ)
        → Step p (record p { state = report_mapping_io_failure cfg owner p.state })
    reconciled : (scan : Option (List ℕ)) → Step p (record p { state = reconcile scan p.state })
    begun :
        (startup_only : Bool) (t : DecompCache)
        → begin_flush startup_only p.state ≡ some t
        → Step p (record p { state = t })
    retired :
        (world : ℕ → Retire) → p.work ≡ [] → Step p (record p { state = retire cfg world p.state })
    taken :
        p.work ≡ []
        → Step p
            (record { work = (snapshot path_for p.state).0; state = (snapshot path_for p.state).1 })
    finished :
        (memory : Bool) (result : Option OlResult) (item : OlWork) (ws : List OlWork)
        → p.work ≡ item ∷ ws
        → Step p (record { work = ws; state = finish memory item result p.state })

  pub data Reach (p : Session) : Session → Type 0 where
    none_yet : Reach p p
    later : {q r : Session} → Reach p q → Step q r → Reach p r

  recorded-Books :
      (now : ℕ) (archive : Option ℕ) (start : ℕ) (payload : List ℕ) (ws : List OlWork)
      (s : DecompCache)
      → Books ws s
      → Books ws (record_decompressed cfg now entry_count archive start payload s)
  recorded-Books now archive start payload ws s books =
      elim (record_decompressed-Outcome cfg now entry_count archive start payload s) [
        | unchanged same ↦
            Untouched-Books ws s _
              (record {
                same_pending = same.same_pending;
                same_reservations = same.same_reservations;
                rows = rw (same.same_caches) (SameRows-refl s.caches);
              })
              books
        | queued a is q ↦ Queued-Books cfg now a start payload ws s _ q books
      ]

  Step-Kept : (p q : Session) → Step p q → Kept p → Kept q
  Step-Kept p _ (recorded now archive start payload) books =
      recorded-Books now archive start payload p.work p.state books
  Step-Kept p _ (looked_up read now archive start) books =
      Untouched-Books p.work p.state _ (lookup-Untouched cfg read now archive start p.state) books
  Step-Kept p _ (reported owner) books =
      Untouched-Books p.work p.state _ (report-Untouched cfg owner p.state) books
  Step-Kept p _ (reconciled scan) books = reconcile-Books scan p.work p.state books
  Step-Kept p _ (begun startup_only t began) books =
      Untouched-Books p.work p.state t (begin_flush-Untouched startup_only p.state t began) books
  Step-Kept p _ (retired world idle) books =
      Untouched-Books p.work p.state _ (retire-Untouched cfg world p.state) books
  Step-Kept p _ (taken idle) books = snapshot-Books path_for p.state (rw idle at books)
  Step-Kept p _ (finished memory result item ws next) books =
      finish-Books memory item ws result p.state (rw next at books)

  Reach-Kept : (p q : Session) → Reach p q → Kept p → Kept q
  Reach-Kept p _ none_yet books = books
  Reach-Kept p r (later {q} before step) books = Step-Kept q r step (Reach-Kept p q before books)

-- Nothing is queued.
abbrev pub Idle : DecompCache → Type 0
Idle s =
    All (λ (r : ℕ × ArchiveCache). r.1.pending ≡ []) s.caches
    × (s.pending_bytes ≡ 0)
    × (s.committed_reservations ≡ 0)

idle_charge :
    (m : List (ℕ × ArchiveCache))
    → All (λ (r : ℕ × ArchiveCache). r.1.pending ≡ []) m
    → total_charge m ≡ 0
idle_charge [] h = refl
idle_charge ((archive, c) ∷ m) h = rw (h.0, idle_charge m h.1) refl

Idle-Books : (s : DecompCache) → Idle s → Books [] s
Idle-Books s idle = record {
  accounts = record {
    balanced = rw (idle.1, idle.2, idle_charge s.caches idle.0) refl;
    bounded = rw (idle.1) (omega arith);
    queues = λ a c h k.
        (let empty = find-All (λ (c : ArchiveCache). c.pending ≡ []) s.caches a c idle.0 h in
          rw empty (omega arith));
  };
  known = tt;
}

-- From a state with nothing queued, after any sequence of recorded payloads, lookups, reports of failed
-- reads and the steps of flushes, each append with any result and with or without memory to give its
-- payloads back: the pending bytes are the charges of all queued payloads, of those that a flush has
-- taken, and of those written since the last complete scan; they are at most 256 MiB; and an offset is
-- queued or taken at most once, and only if it is marked as buffered.
pub session-Books :
    (cfg : Settings) (entry_count path_for : ℕ → ℕ) (s : DecompCache) (q : Session)
    → Idle s
    → Reach cfg entry_count path_for (record { work = []; state = s }) q
    → Books q.work q.state
session-Books cfg entry_count path_for s q idle reach =
    Reach-Kept cfg entry_count path_for (record { work = []; state = s }) q reach
      (Idle-Books s idle)
