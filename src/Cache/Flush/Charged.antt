-- ===== src/Cache/Flush/Charged.antt =====
-- Skyrim/src/DecompCache.cpp: the charge of each payload that waits, against its length.
use faster_file_copy.Prelude.{
  ℕ, ◌+◌, ◌≤◌, ◌<◌, ◌≡◌, ◌⊎◌, inl, inr, refl, Bool, true, false, Option, none, some, List, [], ◌∷◌,
  ◌++◌, ◌==◌, length, All, arith, ltb, Bool-cases, Option-cases, ◌&&◌, ◌||◌,
}
use faster_file_copy.Cache.State.{
  PendingEntry, ArchiveCache, DecompCache, Settings, find, replace, any_pending,
}
use faster_file_copy.Cache.Record.{record_decompressed, add_checked, is_none, is_empty}
use faster_file_copy.Cache.Record.Outcome.{unchanged, queued, record_decompressed-Outcome}
use faster_file_copy.Cache.Record.Accounts.{charge, total_charge}
use faster_file_copy.Cache.Flush.{
  OlWork, OlResult, overhead, plan_work, take_pending, take_work, snapshot, install, requeue,
  transfer_overhead, release, give_back, finish_found, finish, is_stale,
}
use faster_file_copy.Cache.Flush.Upkeep.{reconcile}
use faster_file_copy.Cache.Flush.Books.{work_charge}
use faster_file_copy.Cache.Flush.Finish.{add_checked-sum}
use faster_file_copy.Cache.Flush.Untouched.{queues_of}

pub record Charged (e : PendingEntry) : Type 0 where
  pub some_byte : 0 < length e.payload
  pub covered : length e.payload ≤ e.accounted_bytes

abbrev pub AllCharged : List PendingEntry → Type 0
AllCharged l = All Charged l

abbrev pub QueuesCharged : List (ℕ × ArchiveCache) → Type 0
QueuesCharged m = All AllCharged (queues_of m)

abbrev pub WorkCharged : List OlWork → Type 0
WorkCharged ws = All (λ (w : OlWork). AllCharged w.pending) ws

append-AllCharged : (l m : List PendingEntry) → AllCharged l → AllCharged m → AllCharged (l ++ m)
append-AllCharged [] m h k = k
append-AllCharged (e ∷ l) m h k = (h.0, append-AllCharged l m h.1 k)

replace-QueuesCharged :
    (m : List (ℕ × ArchiveCache)) (k : ℕ) (d : ArchiveCache)
    → QueuesCharged m
    → AllCharged d.pending
    → QueuesCharged (replace m k d)
unfolding replace
replace-QueuesCharged [] k d h p = tt
replace-QueuesCharged ((j, c) ∷ m) k d h p = elim (Bool-cases (j == k)) [
  | inl same ↦ rw same (p, h.1)
  | inr other ↦ rw other (h.0, replace-QueuesCharged m k d h.1 p)
]

find-AllCharged :
    (m : List (ℕ × ArchiveCache)) (k : ℕ) (c : ArchiveCache)
    → QueuesCharged m
    → find m k ≡ some c
    → AllCharged c.pending
unfolding find
find-AllCharged [] k c h f = absurd (cc)
find-AllCharged ((j, b) ∷ m) k c h f = elim (Bool-cases (j == k)) [
  | inl same ↦ let is : b ≡ c = (let g = rw same at f in cc g) in rw (← is) (h.0)
  | inr other ↦ find-AllCharged m k c h.1 (rw other at f)
]

pub record_decompressed-QueuesCharged :
    (cfg : Settings) (now : ℕ) (entry_count : ℕ → ℕ) (archive : Option ℕ) (start : ℕ)
    (payload : List ℕ) (s : DecompCache)
    → QueuesCharged s.caches
    → QueuesCharged (record_decompressed cfg now entry_count archive start payload s).caches
record_decompressed-QueuesCharged cfg now entry_count archive start payload s h =
    elim (record_decompressed-Outcome cfg now entry_count archive start payload s) [
      | unchanged same ↦ rw (same.same_caches) h
      | queued a is q ↦ rw (q.new_caches) (
          replace-QueuesCharged s.caches a _ h (
            append-AllCharged q.cache.pending _ (find-AllCharged s.caches a q.cache h q.cached)
              (record { some_byte = q.some_payload; covered = q.charged }, tt)))
    ]

take_work-Charged :
    (work : List OlWork) (s : DecompCache)
    → WorkCharged work
    → QueuesCharged s.caches
    → WorkCharged (take_work work s).0 × QueuesCharged (take_work work s).1.caches
unfolding take_work take_pending
take_work-Charged [] s w h = (tt, h)
take_work-Charged (item ∷ work) s w h = elim (Option-cases (find s.caches item.archive)) [
  | inl gone ↦ rw gone (let rest = take_work-Charged work s w.1 h in ((w.0, rest.0), rest.1))
  | inr (c, cached) ↦
      let next = record s { caches = replace s.caches item.archive (record c { pending = [] }) } in
      let rest =
        take_work-Charged work next w.1
          (replace-QueuesCharged s.caches item.archive (record c { pending = [] }) h tt) in
      let mine =
        append-AllCharged item.pending c.pending w.0
          (find-AllCharged s.caches item.archive c h cached) in
      rw cached ((mine, rest.0), rest.1)
]

transfer-AllCharged :
    (c : ArchiveCache) (queue : List PendingEntry) (fixed : ℕ) (pending : List PendingEntry)
    → transfer_overhead c queue fixed ≡ some pending
    → AllCharged queue
    → AllCharged pending
unfolding transfer_overhead
transfer-AllCharged c [] fixed pending is h = absurd (cc)
transfer-AllCharged c (e ∷ l) fixed pending is h =
    elim (Bool-cases (ltb 0 fixed && (is_none c.view || c.disk_invalidated))) [
      | inr mapped ↦ absurd (let j = rw mapped at is in cc j)
      | inl absent ↦ elim (Option-cases (add_checked e.accounted_bytes fixed)) [
        | inl over ↦ absurd (let j = rw (absent, over) at is in cc j)
        | inr (bytes, eq) ↦
            let sum = add_checked-sum e.accounted_bytes fixed bytes eq in
            let same : record e { accounted_bytes = bytes } ∷ l ≡ pending =
              (let j = rw (absent, eq) at is in cc j) in
            let first = h.0.covered in
            rw (← same)
              (record { some_byte = h.0.some_byte; covered = omega (arith, first, sum) }, h.1)
      ]
    ]

module _ (item : OlWork) (s : DecompCache) (c : ArchiveCache)
    (cached : find s.caches item.archive ≡ some c) (mine : AllCharged item.pending)
    (h : QueuesCharged s.caches) where
  own : AllCharged c.pending
  own = find-AllCharged s.caches item.archive c h cached

  release-QueuesCharged :
      (o : Option (List PendingEntry))
      → ((pending : List PendingEntry) → o ≡ some pending → AllCharged pending)
      → QueuesCharged (release item c o s).caches
  unfolding release
  release-QueuesCharged none queue = replace-QueuesCharged s.caches item.archive _ h own
  release-QueuesCharged (some pending) queue =
      replace-QueuesCharged s.caches item.archive _ h (queue pending refl)

  give_back-QueuesCharged : (memory : Bool) → QueuesCharged (give_back memory item c s).caches
  unfolding give_back requeue
  give_back-QueuesCharged true =
      replace-QueuesCharged s.caches item.archive _ h
        (append-AllCharged c.pending item.pending own mine)
  give_back-QueuesCharged false =
      release-QueuesCharged (transfer_overhead c c.pending (overhead item.pending))
        (λ pending is. transfer-AllCharged c c.pending (overhead item.pending) pending is own)

  finish_found-QueuesCharged :
      (memory : Bool) (result : Option OlResult)
      → QueuesCharged (finish_found memory item c result s).caches
  unfolding finish_found install
  finish_found-QueuesCharged memory none = give_back-QueuesCharged memory
  finish_found-QueuesCharged memory (some r) = elim (Bool-cases (is_stale item c)) [
    | inl stale ↦ rw stale (give_back-QueuesCharged memory)
    | inr current ↦ rw current (replace-QueuesCharged s.caches item.archive _ h own)
  ]

pub finish-QueuesCharged :
    (memory : Bool) (item : OlWork) (result : Option OlResult) (s : DecompCache)
    → AllCharged item.pending
    → QueuesCharged s.caches
    → QueuesCharged (finish memory item result s).caches
unfolding finish
finish-QueuesCharged memory item result s mine h =
    elim (Option-cases (find s.caches item.archive)) [
      | inl gone ↦ rw (finish, gone) h
      | inr (c, cached) ↦
          rw (finish, cached) (finish_found-QueuesCharged item s c cached mine h memory result)
    ]

module _ (path_for : ℕ → ℕ) where
  plan_work-WorkCharged : (m : List (ℕ × ArchiveCache)) → WorkCharged (plan_work path_for m)
  unfolding plan_work
  plan_work-WorkCharged [] = tt
  plan_work-WorkCharged ((archive, c) ∷ m) = elim (Bool-cases (is_empty c.pending)) [
    | inl idle ↦ rw idle (plan_work-WorkCharged m)
    | inr waiting ↦ rw waiting (tt, plan_work-WorkCharged m)
  ]

  pub snapshot-Charged :
      (s : DecompCache)
      → QueuesCharged s.caches
      → WorkCharged (snapshot path_for s).0 × QueuesCharged (snapshot path_for s).1.caches
  unfolding snapshot
  snapshot-Charged s h =
      take_work-Charged (plan_work path_for s.caches) s (plan_work-WorkCharged s.caches) h

pub reconcile-caches :
    (scan : Option (List ℕ)) (s : DecompCache) → (reconcile scan s).caches ≡ s.caches
unfolding reconcile
reconcile-caches none s = refl
reconcile-caches (some sizes) s = refl

-- The bytes of the payloads of a list, of all queues, and of a flush's work.
abbrev pub payload_bytes : List PendingEntry → ℕ
payload_bytes [] = 0
payload_bytes (e ∷ l) = length e.payload + payload_bytes l

abbrev pub queued_bytes : List (ℕ × ArchiveCache) → ℕ
queued_bytes [] = 0
queued_bytes ((archive, c) ∷ m) = payload_bytes c.pending + queued_bytes m

abbrev pub taken_bytes : List OlWork → ℕ
taken_bytes [] = 0
taken_bytes (w ∷ ws) = payload_bytes w.pending + taken_bytes ws

payload-le : (l : List PendingEntry) → AllCharged l → payload_bytes l ≤ charge l
payload-le [] h = omega arith
payload-le (e ∷ l) h =
    (let first = h.0.covered in let rest = payload-le l h.1 in omega (arith, first, rest))

pub queued-le : (m : List (ℕ × ArchiveCache)) → QueuesCharged m → queued_bytes m ≤ total_charge m
queued-le [] h = omega arith
queued-le ((archive, c) ∷ m) h =
    (let first = payload-le c.pending h.0 in
      let rest = queued-le m h.1 in omega (arith, first, rest))

pub taken-le : (ws : List OlWork) → WorkCharged ws → taken_bytes ws ≤ work_charge ws
taken-le [] h = omega arith
taken-le (w ∷ ws) h =
    (let first = payload-le w.pending h.0 in
      let rest = taken-le ws h.1 in omega (arith, first, rest))

queue-cases :
    (l : List PendingEntry)
    → (l ≡ []) ⊎ ((e : PendingEntry) × (m : List PendingEntry) × (l ≡ e ∷ m))
queue-cases [] = inl refl
queue-cases (e ∷ l) = inr (e, l, refl)

-- Something that waits is charged.
pub any_pending-charge :
    (m : List (ℕ × ArchiveCache)) → QueuesCharged m → any_pending m ≡ true → 0 < total_charge m
unfolding any_pending
any_pending-charge [] h some_queue = absurd (cc)
any_pending-charge ((archive, c) ∷ m) h some_queue = elim (queue-cases c.pending) [
  | inl idle ↦ let rest = any_pending-charge m h.1 (rw idle at some_queue) in omega (arith, rest)
  | inr (e, l, waits) ↦
      let mine = rw waits at h.0 in
      let byte = mine.0.some_byte in
      let covered = mine.0.covered in rw waits (omega (arith, byte, covered))
]
