-- ===== src/Cache/Commit/Planned.antt =====
-- Skyrim/src/DecompCache.cpp, AppendFile: what it decides to append fits behind what the file holds.
use faster_file_copy.Prelude.{
  true, ℕ, ◌+◌, ◌-◌, ◌≤◌, ◌≡◌, ◌≢◌, inl, inr, refl, sym, ap, ◌∙◌, false, Option, none, some, List,
  [], ◌∷◌, ◌++◌, if◌then◌else◌, length, length-append, All, arith, Bool-cases, Option-cases, ltb,
  ◌==◌, u64_max,
}
use faster_file_copy.Format.Layout.{
  Entry, header_size, ArchiveIdentity, ValidationResult, blank_result,
}
use faster_file_copy.Format.Validate.{is_no_error}
use faster_file_copy.Format.Validate.Spec.{Distinct, start_offsets}
use faster_file_copy.Cache.Commit.{PreparedPending, fresh_header}
use faster_file_copy.Cache.Commit.Ranges.{All-append}
use faster_file_copy.Cache.Commit.Effect.{payloads}
use faster_file_copy.Cache.Commit.Content.{
  Sound, Storable, Represents, begin, layout, starts, payloads-append, start_offsets-layout,
}
use faster_file_copy.Cache.Commit.ReadBack.{validate-found, index_read}
use faster_file_copy.Cache.Commit.Plan.{
  find_entry, push, same_payload, select, AppendPlan, check_capacity, plan_append,
}

find_entry-none :
    (es : List Entry) (k : ℕ) → find_entry es k ≡ none → All (λ x. x ≢ k) (start_offsets es)
unfolding find_entry
find_entry-none [] k h = tt
find_entry-none (e ∷ es) k h = elim (Bool-cases (e.start_offset == k)) [
  | inl same ↦ absurd (ground (arith, rw same at h))
  | inr other ↦ ((λ eq. ground (arith, other, eq)), find_entry-none es k (rw other at h))
]

-- What one round of the choice may do.
record Chosen (es : List Entry) (pending new : List PreparedPending) : Type 0 where
  sound : All Sound new
  apart : All (λ (p : PreparedPending). All (λ x. x ≢ p.start_offset) (start_offsets es)) new
  fewer : (x : ℕ) → All (λ y. x ≢ y) (starts pending) → All (λ y. x ≢ y) (starts new)
  distinct : Distinct (starts new)
  shorter : length (payloads new) ≤ length (payloads pending)

Chosen-push :
    (es : List Entry) (p : PreparedPending) (pending new : List PreparedPending)
    → Sound p
    → All (λ y. p.start_offset ≢ y) (starts pending)
    → All (λ x. x ≢ p.start_offset) (start_offsets es)
    → Chosen es pending new
    → Chosen es (p ∷ pending) (p ∷ new)
Chosen-push es p pending new s d absent c = record {
  sound = (s, c.sound);
  apart = (absent, c.apart);
  fewer = λ x h. (h.0, c.fewer x h.1);
  distinct = (c.fewer p.start_offset d, c.distinct);
  shorter = omega (
    arith,
    length-append p.payload (payloads new),
    length-append p.payload (payloads pending),
    c.shorter,
  );
}

Chosen-skip :
    (es : List Entry) (p : PreparedPending) (pending new : List PreparedPending)
    → Chosen es pending new
    → Chosen es (p ∷ pending) new
Chosen-skip es p pending new c = record {
  sound = c.sound;
  apart = c.apart;
  fewer = λ x h. c.fewer x h.1;
  distinct = c.distinct;
  shorter = omega (arith, length-append p.payload (payloads pending), c.shorter);
}

push-some :
    (p : PreparedPending) (o : Option (List PreparedPending)) (new : List PreparedPending)
    → push p o ≡ some new
    → (rest : List PreparedPending) × (o ≡ some rest) × (new ≡ p ∷ rest)
unfolding push
push-some p none new h = absurd (ground arith)
push-some p (some rest) new h = (rest, refl, cc)

select-Chosen :
    (bytes : List ℕ) (es : List Entry) (pending new : List PreparedPending)
    → All Sound pending
    → Distinct (starts pending)
    → select bytes es pending ≡ some new
    → Chosen es pending new
unfolding select
select-Chosen bytes es [] new s d h =
    let e : new ≡ [] = cc in
    rw e (record { sound = tt; apart = tt; fewer = λ x a. a; distinct = tt; shorter = omega arith })
select-Chosen bytes es (p ∷ pending) new s d h =
    elim (Option-cases (find_entry es p.start_offset)) [
      | inl absent ↦
          let r = push-some p (select bytes es pending) new (rw (absent, select) at h) in
          rw r.2 (
            Chosen-push es p pending r.0 s.0 d.0 (find_entry-none es p.start_offset absent)
              (select-Chosen bytes es pending r.0 s.1 d.1 r.1))
      | inr (e, present) ↦
          let chosen : (if same_payload bytes e p then select bytes es pending else none)
              ≡ some new =
            rw (present, select) at h in
          elim (Bool-cases (same_payload bytes e p)) [
            | inl same ↦
                Chosen-skip es p pending new
                  (select-Chosen bytes es pending new s.1 d.1 (rw same at chosen))
            | inr other ↦ absurd (ground (arith, rw other at chosen))
          ]
    ]

pub absent-each :
    (x : ℕ) (xs : List ℕ) (ys : List ℕ)
    → All (λ y. All (λ z. z ≢ y) (x ∷ xs)) ys
    → All (λ y. x ≢ y) ys × All (λ y. All (λ z. z ≢ y) xs) ys
absent-each x xs [] h = (tt, tt)
absent-each x xs (y ∷ ys) h =
    let rest = absent-each x xs ys h.1 in ((h.0.0, rest.0), (h.0.1, rest.1))

Distinct-append :
    (xs ys : List ℕ)
    → Distinct xs
    → Distinct ys
    → All (λ y. All (λ x. x ≢ y) xs) ys
    → Distinct (xs ++ ys)
Distinct-append [] ys dx dy h = dy
Distinct-append (x ∷ xs) ys dx dy h =
    let each = absent-each x xs ys h in
    (All-append (λ y. x ≢ y) xs ys dx.0 each.0, Distinct-append xs ys dx.1 dy each.1)

starts-append : (l m : List PreparedPending) → starts (l ++ m) ≡ starts l ++ starts m
starts-append [] m = refl
starts-append (p ∷ l) m = ap (◌∷◌ p.start_offset) (starts-append l m)

apart-starts :
    (xs : List ℕ) (m : List PreparedPending)
    → All (λ (p : PreparedPending). All (λ x. x ≢ p.start_offset) xs) m
    → All (λ y. All (λ x. x ≢ y) xs) (starts m)
apart-starts xs [] h = tt
apart-starts xs (p ∷ m) h = (h.0, apart-starts xs m h.1)

Storable-append :
    (id : ArchiveIdentity) (l pending new : List PreparedPending)
    → Storable id l
    → Chosen (layout (begin id) l) pending new
    → length l + length new ≤ id.archive_entries
    → begin id + length (payloads l) + length (payloads pending) ≤ u64_max
    → Storable id (l ++ new)
Storable-append id l pending new s c within room = record {
  some_entry = omega (arith, length-append l new, s.some_entry);
  within_capacity = omega (arith, length-append l new, within);
  capacity_small = s.capacity_small;
  size_fits = s.size_fits;
  write_fits = s.write_fits;
  fingerprint_fits = s.fingerprint_fits;
  sound = All-append Sound l new s.sound c.sound;
  distinct = rw (starts-append l new) (
      Distinct-append (starts l) (starts new) s.distinct c.distinct
        (apart-starts (starts l) new (rw (start_offsets-layout (begin id) l) at c.apart)));
  room =
      let whole : length (payloads (l ++ new)) ≡ length (payloads l) + length (payloads new) =
        ap length (payloads-append l new) ∙ length-append (payloads l) (payloads new) in
      omega (arith, whole, room, c.shorter);
}

check_capacity-some :
    (v : ValidationResult) (o : Option (List PreparedPending)) (plan : AppendPlan)
    → check_capacity v o ≡ some plan
    → (new : List PreparedPending) × (o ≡ some new)
      × (length new ≤ v.header.index_capacity - v.header.entry_count)
      × (plan
          ≡ record { old_header = v.header; old_committed_size = v.valid_size; new_entries = new })
unfolding check_capacity
check_capacity-some v none plan h = absurd (ground arith)
check_capacity-some v (some new) plan h =
    elim (Bool-cases (ltb (v.header.index_capacity - v.header.entry_count) (length new))) [
      | inl full ↦ absurd (ground (arith, rw full at h))
      | inr fits ↦ (new, refl, ground (arith, fits), (let e = rw fits at h in cc e))
    ]

abbrev pub found : ArchiveIdentity → List PreparedPending → ValidationResult
found id l = record blank_result {
  header = fresh_header id (length l);
  data_start = begin id;
  valid_size = begin id + length (payloads l);
}

pub plan_append-found :
    (id : ArchiveIdentity) (l : List PreparedPending) (img : List ℕ)
    (pending : List PreparedPending)
    → Storable id l
    → Represents id l img
    → length img ≤ u64_max
    → plan_append id img pending
      ≡ check_capacity (found id l) (select img (layout (begin id) l) pending)
unfolding plan_append is_no_error fresh_header
plan_append-found id l img pending s r size =
    let long : ltb (length img) header_size ≡ false = (let b = r.has_data.1 in ground (arith, b)) in
    rw (long, validate-found id l img true s size r (inl refl), index_read id l img s r) refl

-- Take a file of less than 2 ^ 64 bytes that represents a list that a file can hold, and prepared
-- payloads with different start offsets, with which it stays below 2 ^ 64 bytes. When AppendFile does
-- not ask for a fresh file, it appends with the old header and behind the old payloads, and what it
-- appends and the old list together are a list that a file can hold: no start offset occurs twice, and
-- there are no more entries than the index has room for.
pub plan_append-Storable :
    (id : ArchiveIdentity) (l : List PreparedPending) (img : List ℕ)
    (pending : List PreparedPending) (plan : AppendPlan)
    → Storable id l
    → Represents id l img
    → length img ≤ u64_max
    → All Sound pending
    → Distinct (starts pending)
    → begin id + length (payloads l) + length (payloads pending) ≤ u64_max
    → plan_append id img pending ≡ some plan
    → (plan.old_header ≡ fresh_header id (length l))
      × (plan.old_committed_size ≡ begin id + length (payloads l))
      × All Sound plan.new_entries
      × Storable id (l ++ plan.new_entries)
unfolding fresh_header
plan_append-Storable id l img pending plan s r size sound distinct room h =
    let v = found id l in
    let c =
      check_capacity-some v (select img (layout (begin id) l) pending) plan
        (sym (plan_append-found id l img pending s r size) ∙ h) in
    let chosen = select-Chosen img (layout (begin id) l) pending c.0 sound distinct c.1 in
    let within : length l + length c.0 ≤ id.archive_entries =
      omega (arith, c.2, s.within_capacity) in
    rw c.3 (refl, refl, chosen.sound, Storable-append id l pending c.0 s chosen within room)
