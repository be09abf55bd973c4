-- ===== src/Format/Validate/Exact.antt =====
-- The validator accepts exactly the well-formed files.
use faster_file_copy.Prelude.{
  ℕ, ◌-◌, ◌/◌, ◌≤◌, ◌<◌, ◌≡◌, ◌≢◌, refl, subst, sym, ◌∙◌, ap, ◌↔◌, ◌⊎◌, Bool, true, false, Option,
  none, some, List, [], ltb, ◌==◌, length, arith, Bool-cases, inl, inr, u64_max,
}
use faster_file_copy.Format.Layout.{
  magic, version, max_index_capacity, Header, header_size, entry_size, ArchiveIdentity,
  decode_header, ValidationMode, ValidationError, no_error, ValidationResult, blank_result,
}
use faster_file_copy.Format.Validate.{
  same_bytes, mismatch, bad_counts, is_no_error, LoopResult, failed, finished, check_entries, sort,
  has_adjacent, close, validate_bytes, validate,
}
use faster_file_copy.Format.Validate.Distinct.{has_adjacent-sort}
use faster_file_copy.Format.Validate.Accepts.{
  same_bytes_iff, check_entries_sound, check_entries_complete, check_entries-error,
}
use faster_file_copy.Format.Validate.Spec.{
  Distinct, start_offsets, Identifies, data_begin, committed, committed_end, WellFormed,
}

record Counts (h : Header) : Type 0 where
  some_entry : 0 < h.entry_count
  within_capacity : h.entry_count ≤ h.index_capacity
  capacity_small : h.index_capacity ≤ max_index_capacity

-- The two tests that read the expected identity.
header_tests :
    (h : Header) (expected : Option ArchiveIdentity)
    → (mismatch h expected ≡ false) × (bad_counts h expected ≡ false)
    → Identifies h expected × Counts h
unfolding mismatch bad_counts
header_tests h none t = (
  tt,
  record {
    some_entry = ground arith;
    within_capacity = ground arith;
    capacity_small = ground arith;
  },
)
header_tests h (some e) t = (
  (ground arith, ground arith, ground arith, ground arith, ground arith),
  record {
    some_entry = ground arith;
    within_capacity = ground arith;
    capacity_small = ground arith;
  },
)

tests_header :
    (h : Header) (expected : Option ArchiveIdentity)
    → Identifies h expected
    → Counts h
    → (mismatch h expected ≡ false) × (bad_counts h expected ≡ false)
unfolding mismatch bad_counts
tests_header h none i c = (refl, ground arith)
tests_header h (some e) i c = (ground arith, ground arith)

-- The tests of the code's first part, passed.
record Passed (bytes : List ℕ) (expected : Option ArchiveIdentity) : Type 0 where
  long : ltb (length bytes) header_size ≡ false
  magic_same : same_bytes (decode_header bytes).magic_bytes magic ≡ true
  version_same : ((decode_header bytes).version_number == version) ≡ true
  matches : mismatch (decode_header bytes) expected ≡ false
  counts : bad_counts (decode_header bytes) expected ≡ false
  index_fits :
      ltb ((length bytes - header_size) / entry_size) (decode_header bytes).index_capacity ≡ false

started : List ℕ → ValidationResult
started bytes = record blank_result {
  header = decode_header bytes;
  data_start = data_begin (decode_header bytes);
}

run_loop : ValidationMode → List ℕ → LoopResult
run_loop mode bytes =
    check_entries mode bytes (decode_header bytes).entry_count 0 (data_begin (decode_header bytes))
      []

module _ (bytes : List ℕ) (expected : Option ArchiveIdentity) (mode : ValidationMode)
    (allow : Bool) where
  passes :
      Passed bytes expected
      → validate_bytes bytes expected mode allow
        ≡ close allow bytes (started bytes) (run_loop mode bytes)
  unfolding validate_bytes started run_loop
  passes p = rw (p.long, p.magic_same, p.version_same, p.matches, p.counts, p.index_fits)

  accepted-Passed :
      (validate_bytes bytes expected mode allow).error ≡ no_error → Passed bytes expected
  unfolding validate_bytes
  accepted-Passed h = ground arith

  closed_accepts :
      (r : ValidationResult) (l : LoopResult)
      → r.error ≡ no_error
      → (close allow bytes r l).error ≡ no_error
      → ((e : ValidationError) (i : ℕ) → l ≡ failed e i → e ≢ no_error)
      → (c : ℕ) × (offsets : List ℕ) × (l ≡ finished c offsets)
        × (has_adjacent (sort offsets) ≡ false)
        × ((allow ≡ true) ⊎ (c ≡ length bytes))
  unfolding close
  closed_accepts r (failed e i) ok h never = absurd (never e i refl h)
  closed_accepts r (finished c offsets) ok h never = elim (Bool-cases allow) [
    | inl a ↦ (c, offsets, refl, ground arith, inl a)
    | inr a ↦ (c, offsets, refl, ground arith, inr (ground arith))
  ]

Passed-tests :
    (bytes : List ℕ) (expected : Option ArchiveIdentity)
    → Passed bytes expected
    → Identifies (decode_header bytes) expected × Counts (decode_header bytes)
Passed-tests bytes expected p = header_tests (decode_header bytes) expected (p.matches, p.counts)

loop_never :
    (mode : ValidationMode) (bytes : List ℕ) (fits : length bytes ≤ u64_max) (e : ValidationError)
    (i : ℕ)
    → run_loop mode bytes ≡ failed e i
    → e ≢ no_error
unfolding run_loop is_no_error
loop_never mode bytes fits e i h same =
    cc (check_entries-error mode bytes fits _ 0 _ [] e i h, same)

module _ (bytes : List ℕ) (expected : Option ArchiveIdentity) (mode : ValidationMode) (allow : Bool)
    (fits : length bytes ≤ u64_max) where
  Passed-WellFormed :
      Passed bytes expected
      → (c : ℕ) (offsets : List ℕ) → run_loop mode bytes ≡ finished c offsets
      → has_adjacent (sort offsets) ≡ false
      → (allow ≡ true) ⊎ (c ≡ length bytes)
      → WellFormed bytes expected mode allow
  unfolding run_loop
  Passed-WellFormed p c offsets ran unique tail =
      let hc = Passed-tests bytes expected p in
      let loop = check_entries_sound mode bytes fits _ 0 _ [] c offsets ran in
      record {
        room_for_header = let t = p.long in ground arith;
        magic_right = (same_bytes_iff _ _).0 p.magic_same;
        version_right = let t = p.version_same in ground arith;
        identified = hc.0;
        some_entry = hc.1.some_entry;
        within_capacity = hc.1.within_capacity;
        capacity_small = hc.1.capacity_small;
        room_for_index = let t = p.long in let t' = p.index_fits in ground arith;
        contiguous = loop.0;
        distinct = subst Distinct loop.2 ((has_adjacent-sort offsets).0 unique);
        no_tail = elim tail [ inl a ↦ inl a | inr e ↦ inr (sym loop.1 ∙ e) ];
      }

  -- What the validator accepts is a well-formed file.
  pub validate-WellFormed :
      (validate (some bytes) expected mode allow).error ≡ no_error
      → WellFormed bytes expected mode allow
  unfolding validate started
  validate-WellFormed h =
      let p = accepted-Passed bytes expected mode allow h in
      let (c, offsets, ran, unique, tail) =
        closed_accepts bytes expected mode allow (started bytes) (run_loop mode bytes) refl
          (ap (λ (r : ValidationResult). r.error) (sym (passes bytes expected mode allow p)) ∙ h)
          (loop_never mode bytes fits) in
      Passed-WellFormed p c offsets ran unique tail

  WellFormed-Passed : WellFormed bytes expected mode allow → Passed bytes expected
  WellFormed-Passed w =
      let t = tests_header (decode_header bytes) expected w.identified (record {
        some_entry = w.some_entry;
        within_capacity = w.within_capacity;
        capacity_small = w.capacity_small;
      }) in
      record {
        long = let l = w.room_for_header in ground arith;
        magic_same = (same_bytes_iff _ _).1 w.magic_right;
        version_same = let v = w.version_right in ground arith;
        matches = t.0;
        counts = t.1;
        index_fits = let l = w.room_for_index in ground arith;
      }

  WellFormed-loop :
      WellFormed bytes expected mode allow
      → run_loop mode bytes ≡ finished (committed_end bytes) (start_offsets (committed bytes))
  unfolding run_loop
  WellFormed-loop w = check_entries_complete mode bytes fits _ 0 _ [] w.contiguous

  well_formed_close :
      (c : ℕ) (offsets : List ℕ)
      → has_adjacent (sort offsets) ≡ false
      → (allow ≡ true) ⊎ (c ≡ length bytes)
      → close allow bytes (started bytes) (finished c offsets)
        ≡ record (started bytes) { valid_size = c }
  unfolding close
  well_formed_close c offsets unique tail = ground arith

  -- A well-formed file is accepted, and the result tells where its payloads begin and end.
  pub WellFormed-validate :
      WellFormed bytes expected mode allow
      → validate (some bytes) expected mode allow ≡ record blank_result {
        header = decode_header bytes;
        data_start = data_begin (decode_header bytes);
        valid_size = committed_end bytes;
      }
  unfolding validate started
  WellFormed-validate w =
      passes bytes expected mode allow (WellFormed-Passed w)
      ∙ rw (WellFormed-loop w) (
          well_formed_close (committed_end bytes) (start_offsets (committed bytes))
            ((has_adjacent-sort (start_offsets (committed bytes))).1 w.distinct) w.no_tail)

-- The validator accepts a file exactly when it is well formed: header, counts and identity are
-- right, the payloads lie one after another behind the index and inside the file, with their
-- checksums if those are asked for, no start offset occurs twice, and there is no tail unless one
-- is allowed.
pub validate_exact :
    (bytes : List ℕ) (expected : Option ArchiveIdentity) (mode : ValidationMode) (allow : Bool)
    → length bytes ≤ u64_max
    → ((validate (some bytes) expected mode allow).error ≡ no_error)
      ↔ WellFormed bytes expected mode allow
validate_exact bytes expected mode allow fits = (
  validate-WellFormed bytes expected mode allow fits,
  (λ w.
      ap (λ (r : ValidationResult). r.error)
        (WellFormed-validate bytes expected mode allow fits w)),
)
