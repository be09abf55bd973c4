-- ===== src/Cache/Flush/Untouched.antt =====
-- Skyrim/src/DecompCache.cpp: states with the same queues, and their books.
use faster_file_copy.Prelude.{
  ℕ, ◌≡◌, ◌≢◌, inl, inr, refl, none, some, List, [], ◌∷◌, ◌==◌, Bool-cases,
}
use faster_file_copy.Cache.State.{PendingEntry, ArchiveCache, DecompCache, find, replace}
use faster_file_copy.Cache.Record.Accounts.{total_charge}
use faster_file_copy.Cache.Flush.{OlWork}
use faster_file_copy.Cache.Flush.Books.{Books}
use faster_file_copy.Cache.Flush.Change.{kept-Known}

-- The cache of an archive, with the queue that it had.
pub record Twin (m : List (ℕ × ArchiveCache)) (archive : ℕ) (x : ArchiveCache) : Type 0 where
  pub old : ArchiveCache
  pub found : find m archive ≡ some old
  pub same_queue : old.pending ≡ x.pending
  pub same_marks : old.buffered_offsets ≡ x.buffered_offsets

abbrev pub queues_of : List (ℕ × ArchiveCache) → List (List PendingEntry)
queues_of [] = []
queues_of ((archive, c) ∷ m) = c.pending ∷ queues_of m

-- The same archives with the same queues.
pub record SameRows (m n : List (ℕ × ArchiveCache)) : Type 0 where
  pub same_queues : queues_of n ≡ queues_of m
  pub same_charge : total_charge n ≡ total_charge m
  pub twins : (archive : ℕ) (x : ArchiveCache) → find n archive ≡ some x → Twin m archive x
  pub kept : (archive : ℕ) → find m archive ≢ none → find n archive ≢ none

pub record Untouched (s t : DecompCache) : Type 0 where
  pub same_pending : t.pending_bytes ≡ s.pending_bytes
  pub same_reservations : t.committed_reservations ≡ s.committed_reservations
  pub rows : SameRows s.caches t.caches

pub Untouched-Books :
    (ws : List OlWork) (s t : DecompCache) → Untouched s t → Books ws s → Books ws t
Untouched-Books ws s t u books =
    let b = books.accounts in
    record {
      accounts = record {
        balanced = rw (u.same_pending, u.same_reservations, u.rows.same_charge) (b.balanced);
        bounded = rw (u.same_pending) (b.bounded);
        queues = λ a x h k.
            (let twin = u.rows.twins a x h in
              rw (← twin.same_queue, ← twin.same_marks) (b.queues a twin.old twin.found k));
      };
      known = kept-Known ws s t u.rows.kept books.known;
    }

pub SameRows-refl : (m : List (ℕ × ArchiveCache)) → SameRows m m
SameRows-refl m = record {
  same_queues = refl;
  same_charge = refl;
  twins = λ a x h. record { old = x; found = h; same_queue = refl; same_marks = refl };
  kept = λ a was. was;
}

pub SameRows-cons :
    (m n : List (ℕ × ArchiveCache)) (archive : ℕ) (c d : ArchiveCache)
    → c.pending ≡ d.pending
    → c.buffered_offsets ≡ d.buffered_offsets
    → SameRows m n
    → SameRows ((archive, c) ∷ m) ((archive, d) ∷ n)
unfolding find
SameRows-cons m n archive c d queue marks rows = record {
  same_queues = rw (queue, rows.same_queues) refl;
  same_charge = rw (queue, rows.same_charge) refl;
  twins = λ a x h. elim (Bool-cases (archive == a)) [
    | inl same ↦
        let e : d ≡ x = (let j = rw same at h in cc j) in
        record {
          old = c;
          found = rw same refl;
          same_queue = rw (← e) queue;
          same_marks = rw (← e) marks;
        }
    | inr other ↦
        let twin = rows.twins a x (rw other at h) in
        record {
          old = twin.old;
          found = rw other (twin.found);
          same_queue = twin.same_queue;
          same_marks = twin.same_marks;
        }
  ];
  kept = λ a was. elim (Bool-cases (archive == a)) [
    | inl same ↦ rw same (λ gone. absurd (cc (gone)))
    | inr other ↦ rw other (rows.kept a (rw other at was))
  ];
}

pub SameRows-replace :
    (m : List (ℕ × ArchiveCache)) (archive : ℕ) (c d : ArchiveCache)
    → find m archive ≡ some c
    → c.pending ≡ d.pending
    → c.buffered_offsets ≡ d.buffered_offsets
    → SameRows m (replace m archive d)
unfolding find replace
SameRows-replace [] archive c d h queue marks = absurd (cc)
SameRows-replace ((j, e) ∷ m) archive c d h queue marks = elim (Bool-cases (j == archive)) [
  | inl same ↦
      let is : e ≡ c = (let g = rw same at h in cc g) in
      rw (same, is) (SameRows-cons m m j c d queue marks (SameRows-refl m))
  | inr other ↦ rw other (
      SameRows-cons m (replace m archive d) j e e refl refl
        (SameRows-replace m archive c d (rw other at h) queue marks))
]
