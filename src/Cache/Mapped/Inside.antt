-- ===== src/Cache/Mapped/Inside.antt =====
-- MapCommittedFile in Skyrim/src/DecompCache.cpp: the index of a mapping, whatever the file holds.
use faster_file_copy.Prelude.{
  ℕ, ◌+◌, ◌≤◌, ◌<◌, ◌≡◌, inl, inr, refl, Bool, true, false, not, ◌||◌, if◌then◌else◌, Option, none,
  some, List, [], ◌∷◌, ltb, length, All, arith, Bool-cases, u64_max,
}
use faster_file_copy.Format.Layout.{
  header_size, Entry, max_payload_size, ArchiveIdentity, decode_header, structural_only,
}
use faster_file_copy.Format.Validate.{validate, is_no_error}
use faster_file_copy.Format.Validate.Accepts.{is_no_error_iff}
use faster_file_copy.Format.Validate.Spec.{
  total_size, data_begin, committed, committed_end, Contiguous, WellFormed,
}
use faster_file_copy.Format.Validate.Exact.{validate_exact, WellFormed-validate}
use faster_file_copy.Cache.State.{CachedEntry}
use faster_file_copy.Cache.Flush.{OlResult}
use faster_file_copy.Cache.Mapped.{
  MapAnswers, cached_entry, index_entries, map_validated, map_view, map_committed_file,
}
use faster_file_copy.Cache.Mapped.Serves.{rows, index_entries-rows, mapped_at}

-- An entry that stands behind the header and inside what is committed.
pub record Inside (base committed_size : ℕ) (e : CachedEntry) : Type 0 where
  pub offset : ℕ
  pub address : e.data_address ≡ some (base + offset)
  pub behind_header : header_size ≤ offset
  pub nonempty : 0 < e.size
  pub small : e.size ≤ max_payload_size
  pub within : offset + e.size ≤ committed_size

Contiguous-Inside :
    (base : ℕ) (known bytes : List ℕ) (cursor : ℕ) (es : List Entry) (end : ℕ)
    → header_size ≤ cursor
    → cursor + total_size es ≤ end
    → Contiguous structural_only bytes cursor es
    → All (λ (r : ℕ × CachedEntry). Inside base end r.1) (rows base known es)
unfolding cached_entry
Contiguous-Inside base known bytes cursor [] end low high h = tt
Contiguous-Inside base known bytes cursor (e ∷ es) end low high h =
    let place = h.0.in_place in
    (
      record {
        offset = cursor;
        address = rw place refl;
        behind_header = low;
        nonempty = h.0.nonempty;
        small = h.0.small;
        within = omega (arith, high);
      },
      Contiguous-Inside base known bytes (cursor + e.decomp_size) es end (omega (arith, low))
          (omega (arith, high)) h.1,
    )

-- A mapping of a file, with an index that points into it.
pub record Contained (base : ℕ) (bytes : List ℕ) (id : ArchiveIdentity) (r : OlResult)
    : Type 0 where
  pub well_formed : WellFormed bytes (some id) structural_only false
  pub at_base : r.mapped.base ≡ base
  pub all_committed : r.mapped.committed_size ≡ length bytes
  pub usable : r.mapped.unusable ≡ false
  pub entries_inside : All (λ (row : ℕ × CachedEntry). Inside base (length bytes) row.1) r.index

ends_exactly :
    (bytes : List ℕ) (id : ArchiveIdentity)
    → WellFormed bytes (some id) structural_only false
    → committed_end bytes ≡ length bytes
ends_exactly bytes id w = elim w.no_tail [ inl allowed ↦ absurd (cc (allowed)) | inr exact ↦ exact ]

map_validated-Contained :
    (view base n : ℕ) (bytes known : List ℕ) (id : ArchiveIdentity) (r : OlResult)
    → length bytes ≤ u64_max
    → map_validated view base n bytes known (validate (some bytes) (some id) structural_only false)
      ≡ some r
    → Contained base bytes id r
unfolding map_validated
map_validated-Contained view base n bytes known id r fits h =
    elim (Bool-cases (is_no_error (validate (some bytes) (some id) structural_only false).error)) [
      | inr bad ↦ absurd (let j = rw bad at h in cc j)
      | inl good ↦
          let accepted = is_no_error_iff _ good in
          let w = (validate_exact bytes (some id) structural_only false fits).0 accepted in
          let v = WellFormed-validate bytes (some id) structural_only false fits w in
          let made : OlResult = record {
            view = view;
            mapped = record {
              base = base;
              size = n;
              committed_size = committed_end bytes;
              prefaulted_through = 0;
              unusable = false;
            };
            index = index_entries base bytes known 0 (decode_header bytes).entry_count;
            file_size = n;
          } in
          let same : made ≡ r = (let j = rw v at h in cc j) in
          let end = ends_exactly bytes id w in
          rw (← same) record {
            well_formed = w;
            at_base = refl;
            all_committed = end;
            usable = refl;
            entries_inside =
                rw (index_entries-rows base bytes known 0 (decode_header bytes).entry_count) (
                  Contiguous-Inside base known bytes (data_begin (decode_header bytes))
                    (committed bytes) (length bytes) (omega arith) (omega (arith, end))
                    w.contiguous);
          }
    ]

abbrev answers_of : Bool → Bool → Bool → Bool → Option ℕ → MapAnswers
answers_of opened sized mapping memory view_at = record {
  opened = opened;
  sized = sized;
  mapping = mapping;
  view = view_at;
  memory = memory;
}

-- If MapCommittedFile has a result, whatever the file of at most 2 ^ 64 - 1 bytes holds that nothing changes
-- meanwhile, then no call failed, the file is well formed for the archive and ends with the last payload,
-- and every entry of the index is a range of at least one byte behind the header and inside the mapping.
pub map_committed_file-Contained :
    (view : ℕ) (answers : MapAnswers) (id : ArchiveIdentity) (known file : List ℕ) (r : OlResult)
    → length file ≤ u64_max
    → map_committed_file view answers file id known ≡ some r
    → (base : ℕ) × (answers ≡ mapped_at base) × Contained base file id r
unfolding map_committed_file map_view
map_committed_file-Contained view answers id known file r fits h =
    by_answers answers.opened answers.sized (ltb (length file) header_size) answers.mapping
      answers.memory answers.view h
  where
    by_answers :
        (opened sized short mapping memory : Bool) (view_at : Option ℕ)
        → (if not opened || not sized || short
            then none
            else if mapping
            then map_view view file id known memory view_at
            else none)
          ≡ some r
        → (base : ℕ) × (answers_of opened sized mapping memory view_at ≡ mapped_at base)
          × Contained base file id r
    by_answers false sized short mapping memory v h = absurd (cc)
    by_answers true false short mapping memory v h = absurd (cc)
    by_answers true true true mapping memory v h = absurd (cc)
    by_answers true true false false memory v h = absurd (cc)
    by_answers true true false true memory none h = absurd (cc)
    by_answers true true false true false (some base) h = absurd (cc)
    by_answers true true false true true (some base) h =
        (base, refl, map_validated-Contained view base (length file) file known id r fits h)
