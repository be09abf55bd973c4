-- ===== src/Cache/Flush/Books.antt =====
-- FlushToDisk in Skyrim/src/DecompCache.cpp: the account of the pending bytes and of the queued offsets, with
-- the work of a flush in progress.
use faster_file_copy.Prelude.{
  ℕ, ◌+◌, ◌≤◌, ◌≡◌, ◌≢◌, inl, inr, refl, ◌∙◌, Bool, true, false, none, some, List, [], ◌∷◌, ◌++◌,
  ◌==◌, if◌then◌else◌, All, arith, Bool-cases, u64_max,
}
use faster_file_copy.Cache.State.{PendingEntry, ArchiveCache, DecompCache, find, replace, contains}
use faster_file_copy.Cache.Record.{max_pending_memory_bytes}
use faster_file_copy.Cache.Record.Accounts.{charge, total_charge}
use faster_file_copy.Cache.Flush.{OlWork, erase, erase_all, accounted, overhead}

-- How often an offset is queued.
abbrev pub occurrences : ℕ → List PendingEntry → ℕ
occurrences k [] = 0
occurrences k (e ∷ l) = (if e.start_offset == k then 1 else 0) + occurrences k l

abbrev pub bit : Bool → ℕ
bit true = 1
bit false = 0

-- The books, with the charges and the offsets that are in flight.
pub record Balanced (in_flight : ℕ) (held : ℕ → ℕ → ℕ) (s : DecompCache) : Type 0 where
  pub balanced : s.pending_bytes ≡ s.committed_reservations + in_flight + total_charge s.caches
  pub bounded : s.pending_bytes ≤ max_pending_memory_bytes
  -- An offset is queued or in flight at most once, and only if it is marked as buffered.
  pub queues :
      (archive : ℕ) (c : ArchiveCache)
      → find s.caches archive ≡ some c
      → (k : ℕ) → occurrences k c.pending + held archive k ≤ bit (contains c.buffered_offsets k)

abbrev pub work_charge : List OlWork → ℕ
work_charge [] = 0
work_charge (w ∷ ws) = charge w.pending + work_charge ws

abbrev pub work_held : List OlWork → ℕ → ℕ → ℕ
work_held [] archive k = 0
work_held (w ∷ ws) archive k =
    (if w.archive == archive then occurrences k w.pending else 0) + work_held ws archive k

-- The archives of the work have caches.
abbrev pub Known : List OlWork → DecompCache → Type 0
Known ws s = All (λ (w : OlWork). find s.caches w.archive ≢ none) ws

pub record Books (ws : List OlWork) (s : DecompCache) : Type 0 where
  pub accounts : Balanced (work_charge ws) (work_held ws) s
  pub known : Known ws s

pub charge-append : (l m : List PendingEntry) → charge (l ++ m) ≡ charge l + charge m
charge-append [] m = omega arith
charge-append (e ∷ l) m = rw (charge-append l m) (omega arith)

pub occurrences-append :
    (k : ℕ) (l m : List PendingEntry) → occurrences k (l ++ m) ≡ occurrences k l + occurrences k m
occurrences-append k [] m = omega arith
occurrences-append k (e ∷ l) m = rw (occurrences-append k l m) (omega arith)

pub find-replace :
    (m : List (ℕ × ArchiveCache)) (k : ℕ) (c d : ArchiveCache) (j : ℕ)
    → find m k ≡ some c
    → find (replace m k d) j ≡ (if k == j then some d else find m j)
unfolding find replace
find-replace [] k c d j h = absurd (cc)
find-replace ((i, b) ∷ m) k c d j h = elim (Bool-cases (i == k)) [
  | inl same ↦ rw same (ground arith)
  | inr other ↦ let rest = find-replace m k c d j (ground arith) in rw (other, rest) (ground arith)
]

pub contains-erase :
    (l : List ℕ) (k j : ℕ) → contains (erase l k) j ≡ (if k == j then false else contains l j)
unfolding erase contains
contains-erase [] k j = ground arith
contains-erase (i ∷ l) k j = elim (Bool-cases (i == k)) [
  | inl same ↦ rw (same, contains-erase l k j) (ground arith)
  | inr other ↦ rw (other, contains-erase l k j) (ground arith)
]

-- What is erased is marked no longer; the rest stays as it was.
pub contains-erase_all :
    (es : List PendingEntry) (l : List ℕ) (k : ℕ)
    → occurrences k es ≡ 0
    → contains (erase_all l es) k ≡ contains l k
unfolding erase_all
contains-erase_all [] l k h = refl
contains-erase_all (e ∷ es) l k h =
    contains-erase_all es (erase l e.start_offset) k (ground arith)
    ∙ contains-erase l e.start_offset k
    ∙ (ground arith)

pub accounted-charge : (l : List PendingEntry) → charge l ≤ u64_max → accounted l ≡ charge l
unfolding accounted
accounted-charge [] h = refl
accounted-charge (e ∷ l) h = rw (accounted-charge l (omega arith)) (omega arith)

pub overhead-le : (l : List PendingEntry) → charge l ≤ u64_max → overhead l ≤ charge l
unfolding overhead
overhead-le [] h = omega arith
overhead-le (e ∷ l) h = let rest = overhead-le l (omega arith) in ground arith
