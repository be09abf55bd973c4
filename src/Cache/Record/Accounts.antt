-- ===== src/Cache/Record/Accounts.antt =====
-- The books of the pending queues: the charged bytes, and one buffered payload for an offset.
use faster_file_copy.Prelude.{
  ℕ, ◌+◌, ◌≡◌, ◌≢◌, inl, inr, sym, ap, ◌∙◌, true, false, Option, some, List, [], ◌∷◌, ◌++◌, ◌==◌,
  All, arith, Bool-cases,
}
use faster_file_copy.Cache.State.{
  PendingEntry, ArchiveCache, DecompCache, Settings, find, replace, contains,
}
use faster_file_copy.Cache.Lookup.Intact.{find-All, replace-All}
use faster_file_copy.Cache.Record.{record_decompressed}
use faster_file_copy.Cache.Record.Outcome.{Queued, unchanged, queued, record_decompressed-Outcome}

-- The bytes that the entries of a queue, and of all queues, are charged.
abbrev pub charge : List PendingEntry → ℕ
charge [] = 0
charge (e ∷ l) = e.accounted_bytes + charge l

abbrev pub total_charge : List (ℕ × ArchiveCache) → ℕ
total_charge [] = 0
total_charge ((archive, c) ∷ m) = charge c.pending + total_charge m

abbrev pub NoRepeat : List PendingEntry → Type 0
NoRepeat [] = Unit
NoRepeat (e ∷ l) = All (λ (f : PendingEntry). f.start_offset ≢ e.start_offset) l × NoRepeat l

-- No offset is queued twice, and every queued offset is marked as buffered.
abbrev pub QueueTidy : ArchiveCache → Type 0
QueueTidy c =
    NoRepeat c.pending
    × All (λ (e : PendingEntry). contains c.buffered_offsets e.start_offset ≡ true) c.pending

-- The pending bytes are the charges of the queues and of what a flush in progress has taken.
pub record Tidy (in_flight : ℕ) (s : DecompCache) : Type 0 where
  pub balanced : s.pending_bytes ≡ in_flight + total_charge s.caches
  pub queues : All (λ (r : ℕ × ArchiveCache). QueueTidy r.1) s.caches

charge-snoc :
    (l : List PendingEntry) (e : PendingEntry) → charge (l ++ e ∷ []) ≡ charge l + e.accounted_bytes
charge-snoc [] e = omega arith
charge-snoc (d ∷ l) e = rw (charge-snoc l e) (omega arith)

pub total_charge-replace :
    (m : List (ℕ × ArchiveCache)) (k : ℕ) (c d : ArchiveCache)
    → find m k ≡ some c
    → total_charge (replace m k d) + charge c.pending ≡ total_charge m + charge d.pending
unfolding find replace
total_charge-replace [] k c d f = absurd (cc)
total_charge-replace ((j, b) ∷ m) k c d f = elim (Bool-cases (j == k)) [
  | inl same ↦ let is : b ≡ c = ground arith in rw (same, ← is) (omega arith)
  | inr other ↦
      let rest = total_charge-replace m k c d (ground arith) in rw other (omega (arith, rest))
]

All-snoc {ℓ κ} :
    {A : Type ℓ} (P : A → Type κ) (l : List A) (a : A) → All P l → P a → All P (l ++ a ∷ [])
All-snoc P [] a h p = (p, tt)
All-snoc P (b ∷ l) a h p = (h.0, All-snoc P l a h.1 p)

All-map {ℓ κ} :
    {A : Type ℓ} (P Q : A → Type κ) (l : List A) → ((a : A) → P a → Q a) → All P l → All Q l
All-map P Q [] f h = tt
All-map P Q (a ∷ l) f h = (f a h.0, All-map P Q l f h.1)

NoRepeat-snoc :
    (l : List PendingEntry) (e : PendingEntry)
    → NoRepeat l
    → All (λ (f : PendingEntry). f.start_offset ≢ e.start_offset) l
    → NoRepeat (l ++ e ∷ [])
NoRepeat-snoc [] e h a = (tt, tt)
NoRepeat-snoc (d ∷ l) e h a = (
  All-snoc (λ f. f.start_offset ≢ d.start_offset) l e h.0 (λ same. a.0 (sym same)),
  NoRepeat-snoc l e h.1 a.1,
)

QueueTidy-snoc :
    (c : ArchiveCache) (e : PendingEntry) (now : ℕ)
    → QueueTidy c
    → contains c.buffered_offsets e.start_offset ≡ false
    → QueueTidy (record c {
      pending = c.pending ++ e ∷ [];
      buffered_offsets = e.start_offset ∷ c.buffered_offsets;
      last_access_ms = now;
    })
unfolding contains
QueueTidy-snoc c e now tidy new =
    let Marked = λ (f : PendingEntry). contains c.buffered_offsets f.start_offset ≡ true in
    (
      NoRepeat-snoc c.pending e tidy.0 (
          All-map _ _ c.pending
            (λ f marked same. absurd (cc (marked, new, ap (contains c.buffered_offsets) same)))
            tidy.1),
      All-snoc _ c.pending e (All-map _ _ c.pending (λ f marked. ground arith) tidy.1)
          (ground arith),
    )

Queued-Tidy :
    (cfg : Settings) (now archive start : ℕ) (payload : List ℕ) (in_flight : ℕ) (s t : DecompCache)
    → Queued cfg now archive start payload s t
    → Tidy in_flight s
    → Tidy in_flight t
Queued-Tidy cfg now archive start payload in_flight s t q tidy =
    let entry : PendingEntry = record {
      start_offset = start;
      accounted_bytes = q.bytes;
      payload = payload;
    } in
    let cache = record q.cache {
      pending = q.cache.pending ++ entry ∷ [];
      buffered_offsets = start ∷ q.cache.buffered_offsets;
      last_access_ms = now;
    } in
    let old = find-All QueueTidy s.caches archive q.cache tidy.queues q.cached in
    let moved = total_charge-replace s.caches archive q.cache cache q.cached in
    let charged = charge-snoc q.cache.pending entry in
    let pending = q.new_pending in
    let before = tidy.balanced in
    record {
      balanced = rw (q.new_caches) (omega arith);
      queues = rw (q.new_caches) (
          replace-All QueueTidy s.caches archive cache tidy.queues
            (QueueTidy-snoc q.cache entry now old q.not_buffered));
    }

-- If the pending bytes are the charges of all queued payloads and of what a flush has taken, no
-- offset is queued twice, and every queued offset is marked as buffered, then so it is after a call
-- of RecordDecompressed.
pub record_decompressed-Tidy :
    (cfg : Settings) (now : ℕ) (entry_count : ℕ → ℕ) (archive : Option ℕ) (start : ℕ)
    (payload : List ℕ) (in_flight : ℕ) (s : DecompCache)
    → Tidy in_flight s
    → Tidy in_flight (record_decompressed cfg now entry_count archive start payload s)
record_decompressed-Tidy cfg now entry_count archive start payload in_flight s tidy =
    elim (record_decompressed-Outcome cfg now entry_count archive start payload s) [
      | unchanged same ↦ record {
        balanced =
            same.same_pending
            ∙ tidy.balanced
            ∙ ap (λ m. in_flight + total_charge m) (sym same.same_caches);
        queues = rw (same.same_caches) tidy.queues;
      }
      | queued a is q ↦ Queued-Tidy cfg now a start payload in_flight s _ q tidy
    ]
