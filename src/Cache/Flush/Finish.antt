-- ===== src/Cache/Flush/Finish.antt =====
-- FlushToDisk in Skyrim/src/DecompCache.cpp: the books when an archive's work is committed or given back.
use faster_file_copy.Prelude.{
  ℕ, ◌+◌, ◌≤◌, ◌<◌, ◌≡◌, inl, inr, refl, Bool, true, false, ◌&&◌, ◌||◌, Option, none, some, List,
  [], ◌∷◌, ◌==◌, ltb, arith, Bool-cases, Option-cases, u64_max,
}
use faster_file_copy.Cache.State.{PendingEntry, ArchiveCache, DecompCache, find, contains}
use faster_file_copy.Cache.Record.{is_none, add_checked}
use faster_file_copy.Cache.Record.Accounts.{charge}
use faster_file_copy.Cache.Flush.{
  OlWork, OlResult, erase_all, overhead, is_stale, install, requeue, transfer_overhead, release,
  give_back, finish_found, finish,
}
use faster_file_copy.Cache.Flush.Books.{
  occurrences, bit, Balanced, work_charge, work_held, Books, charge-append, occurrences-append,
  contains-erase_all, accounted-charge, overhead-le,
}
use faster_file_copy.Cache.Flush.Change.{Change-Books}

bit-le : (b : Bool) → bit b ≤ 1
bit-le true = omega arith
bit-le false = omega arith

pub add_checked-sum : (lhs rhs sum : ℕ) → add_checked lhs rhs ≡ some sum → sum ≡ lhs + rhs
unfolding add_checked
add_checked-sum lhs rhs sum h = ground arith

transfer_overhead-moves :
    (c : ArchiveCache) (queue : List PendingEntry) (fixed : ℕ) (pending : List PendingEntry)
    → transfer_overhead c queue fixed ≡ some pending
    → (charge pending ≡ charge queue + fixed)
      × ((k : ℕ) → occurrences k pending ≡ occurrences k queue)
unfolding transfer_overhead
transfer_overhead-moves c [] fixed pending is = absurd (cc)
transfer_overhead-moves c (e ∷ l) fixed pending is =
    elim (Bool-cases (ltb 0 fixed && (is_none c.view || c.disk_invalidated))) [
      | inr unmapped ↦ absurd (let j = rw unmapped at is in cc j)
      | inl absent ↦ elim (Option-cases (add_checked e.accounted_bytes fixed)) [
        | inl none_eq ↦ absurd (let j = rw (absent, none_eq) at is in cc j)
        | inr (bytes, eq) ↦
            let sum = add_checked-sum e.accounted_bytes fixed bytes eq in
            let same : record e { accounted_bytes = bytes } ∷ l ≡ pending =
              (let j = rw (absent, eq) at is in cc j) in
            rw (← same) ((omega (arith, sum)), λ k. refl)
      ]
    ]

-- What an offset may still occupy once the offsets of a work are erased.
erase_all-leaves :
    (es : List PendingEntry) (l : List ℕ) (k n : ℕ)
    → n + occurrences k es ≤ bit (contains l k)
    → n ≤ bit (contains (erase_all l es) k)
erase_all-leaves es l k n h = elim (Bool-cases (occurrences k es == 0)) [
  | inl gone ↦
      let same = contains-erase_all es l k (ground arith) in rw same (ground (arith, h, gone))
  | inr taken ↦
      let small = bit-le (contains l k) in
      let some_taken : 0 < occurrences k es = ground (arith, taken) in
      omega (arith, h, some_taken, small)
]

module _ (item : OlWork) (ws : List OlWork) (s : DecompCache) (c : ArchiveCache)
    (cached : find s.caches item.archive ≡ some c) (books : Books (item ∷ ws) s) where
  abbrev Goal : DecompCache → Type 0
  Goal t = Books ws t

  abbrev b : Balanced (work_charge (item ∷ ws)) (work_held (item ∷ ws)) s
  b = books.accounts

  itself : (item.archive == item.archive) ≡ true
  itself = ground arith

  held_here :
      (k : ℕ)
      → occurrences k c.pending + work_held ws item.archive k + occurrences k item.pending
        ≤ bit (contains c.buffered_offsets k)
  held_here k =
      let h = b.queues item.archive c cached k in let j = rw itself at h in omega (arith, j)

  less_elsewhere :
      (a k : ℕ) → (item.archive == a) ≡ false → work_held ws a k ≤ work_held (item ∷ ws) a k
  less_elsewhere a k other = omega arith

  small : charge item.pending ≤ u64_max
  small = let p = b.balanced in let q = b.bounded in omega (arith, p, q)

  install-Books : (r : OlResult) → Goal (install item c r s)
  unfolding install
  install-Books r =
      let p = b.balanced in
      let q = b.bounded in
      let a = accounted-charge item.pending small in
      Change-Books s (item ∷ ws) ws item.archive c _ _ b books.known.1 (record {
        cached = cached;
        caches = refl;
        moved = rw a (omega (arith, p, q));
        bounded = q;
        here = λ k. erase_all-leaves item.pending c.buffered_offsets k _ (held_here k);
        elsewhere = less_elsewhere;
      })

  requeue-Books : Goal (requeue item c s)
  unfolding requeue
  requeue-Books =
      let p = b.balanced in
      let q = b.bounded in
      let a = charge-append c.pending item.pending in
      Change-Books s (item ∷ ws) ws item.archive c _ _ b books.known.1 (record {
        cached = cached;
        caches = refl;
        moved = rw a (omega (arith, p));
        bounded = q;
        here = λ k.
            (let h = held_here k in
              rw (occurrences-append k c.pending item.pending) (omega (arith, h)));
        elsewhere = less_elsewhere;
      })

  dropped-Books : Goal (release item c none s)
  unfolding release
  dropped-Books =
      let p = b.balanced in
      let q = b.bounded in
      let a = accounted-charge item.pending small in
      Change-Books s (item ∷ ws) ws item.archive c _ _ b books.known.1 (record {
        cached = cached;
        caches = refl;
        moved = rw a (omega (arith, p, q));
        bounded = rw a (omega (arith, p, q));
        here = λ k. erase_all-leaves item.pending c.buffered_offsets k _ (held_here k);
        elsewhere = less_elsewhere;
      })

  transferred-Books :
      (pending : List PendingEntry)
      → charge pending ≡ charge c.pending + overhead item.pending
      → ((k : ℕ) → occurrences k pending ≡ occurrences k c.pending)
      → Goal (release item c (some pending) s)
  unfolding release
  transferred-Books pending more same =
      let p = b.balanced in
      let q = b.bounded in
      let a = accounted-charge item.pending small in
      let o = overhead-le item.pending small in
      Change-Books s (item ∷ ws) ws item.archive c _ _ b books.known.1 (record {
        cached = cached;
        caches = refl;
        moved = rw a (omega (arith, p, q, o, more));
        bounded = rw a (omega (arith, p, q, o));
        here =
            λ k. erase_all-leaves item.pending c.buffered_offsets k _ (rw (same k) (held_here k));
        elsewhere = less_elsewhere;
      })

  release-Books : Goal (release item c (transfer_overhead c c.pending (overhead item.pending)) s)
  release-Books = elim (Option-cases (transfer_overhead c c.pending (overhead item.pending))) [
    | inl lost ↦ rw lost dropped-Books
    | inr (pending, is) ↦
        let moved = transfer_overhead-moves c c.pending (overhead item.pending) pending is in
        rw is (transferred-Books pending moved.0 moved.1)
  ]

  give_back-Books : (memory : Bool) → Goal (give_back memory item c s)
  unfolding give_back
  give_back-Books true = requeue-Books
  give_back-Books false = release-Books

  finish_found-Books :
      (memory : Bool) (result : Option OlResult) → Goal (finish_found memory item c result s)
  unfolding finish_found
  finish_found-Books memory none = give_back-Books memory
  finish_found-Books memory (some r) = elim (Bool-cases (is_stale item c)) [
    | inl stale ↦ rw stale (give_back-Books memory)
    | inr current ↦ rw current (install-Books r)
  ]

-- However the append of an archive's work ends, its payloads are accounted for afterwards.
pub finish-Books :
    (memory : Bool) (item : OlWork) (ws : List OlWork) (result : Option OlResult) (s : DecompCache)
    → Books (item ∷ ws) s
    → Books ws (finish memory item result s)
unfolding finish
finish-Books memory item ws result s books = elim (Option-cases (find s.caches item.archive)) [
  | inl gone ↦ absurd (books.known.0 gone)
  | inr (c, cached) ↦
      rw (finish, cached) (finish_found-Books item ws s c cached books memory result)
]
