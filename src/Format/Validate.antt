-- ===== src/Format/Validate.antt =====
-- Skyrim/src/CacheFormat.h, Validate: the checks in their order, each with its early return.
pub mod Spec
pub mod Distinct
pub mod Accepts
pub mod Exact
use faster_file_copy.Prelude.{
  ℕ, zero, suc, ◌+◌, ◌-◌, ◌*◌, ◌/◌, ◌≡◌, refl, Bool, true, false, not, ◌&&◌, ◌||◌, Option, none,
  some, List, [], ◌∷◌, ◌++◌, ltb, leb, ◌==◌, if◌then◌else◌, length, take, drop,
}
use faster_file_copy.Prelude.Words.{add64}
use faster_file_copy.Format.Checksum.{checksum}
use faster_file_copy.Format.Layout.{
  magic, version, max_payload_size, max_index_capacity, Header, Entry, header_size, entry_size,
  ArchiveIdentity, decode_header, decode_entry, ValidationMode, structural_only, full_payload,
  ValidationError, no_error, null_data, file_too_small, bad_magic, unsupported_version,
  archive_mismatch, invalid_entry_count, index_out_of_bounds, empty_payload, payload_too_large,
  non_contiguous_payload, payload_out_of_bounds, payload_checksum_mismatch, trailing_data,
  duplicate_start_offset, ValidationResult, blank_result,
}

-- std::memcmp of equally long byte lists, as a test for equality.
abbrev pub same_bytes : List ℕ → List ℕ → Bool
same_bytes [] [] = true
same_bytes [] (y ∷ q) = false
same_bytes (x ∷ p) [] = false
same_bytes (x ∷ p) (y ∷ q) = x == y && same_bytes p q

-- The archive identity that the caller expects, if it passes one, differs from the header's.
unfoldable pub mismatch : Header → Option ArchiveIdentity → Bool
mismatch h none = false
mismatch h (some e) =
    not (h.bsa_file_size == e.file_size)
    || not (h.bsa_last_write == e.last_write)
    || not (h.bsa_fingerprint == e.fingerprint)
    || not (h.bsa_entry_count == e.archive_entries)

unfoldable pub bad_expected_counts : Header → Option ArchiveIdentity → Bool
bad_expected_counts h none = false
bad_expected_counts h (some e) =
    not (h.index_capacity == e.archive_entries) || ltb e.archive_entries h.entry_count

unfoldable pub bad_counts : Header → Option ArchiveIdentity → Bool
unfolding bad_expected_counts
bad_counts h expected =
    h.index_capacity == 0
    || ltb max_index_capacity h.index_capacity
    || h.entry_count == 0
    || ltb h.index_capacity h.entry_count
    || bad_expected_counts h expected

-- a_mode == FullPayload, and the payload's checksum is not the recorded one.
unfoldable pub bad_checksum : ValidationMode → List ℕ → ℕ → Entry → Bool
bad_checksum structural_only bytes cursor e = false
bad_checksum full_payload bytes cursor e =
    not (checksum (some (take e.decomp_size (drop cursor bytes))) e.decomp_size == e.checksum_value)

-- The checks of one round of the loop over the index; `no_error` lets the loop go on.
unfoldable pub check_entry : ValidationMode → List ℕ → ℕ → Entry → ValidationError
unfolding bad_checksum
check_entry mode bytes cursor e =
    if e.decomp_size == 0
    then empty_payload
    else if ltb max_payload_size e.decomp_size
    then payload_too_large
    else if not (e.cache_offset == cursor)
    then non_contiguous_payload
    else if ltb (length bytes) cursor || ltb (length bytes - cursor) e.decomp_size
    then payload_out_of_bounds
    else if bad_checksum mode bytes cursor e
    then payload_checksum_mismatch
    else no_error

pub data LoopResult : Type 0 where
  -- Left by a `return` in the round for the entry with this index.
  failed : ValidationError → ℕ → LoopResult
  -- Left by the loop's test, with the cursor and the start offsets.
  finished : ℕ → List ℕ → LoopResult

unfoldable pub is_no_error : ValidationError → Bool
is_no_error no_error = true
is_no_error _ = false

-- for (i = 0; i < entryCount; ++i), with the rounds left.
unfoldable pub check_entries : ValidationMode → List ℕ → ℕ → ℕ → ℕ → List ℕ → LoopResult
unfolding check_entry is_no_error
check_entries mode bytes zero i cursor offsets = finished cursor offsets
check_entries mode bytes (suc left) i cursor offsets =
    let e = decode_entry bytes i in
    let error = check_entry mode bytes cursor e in
    let rest =
      check_entries mode bytes left (i + 1) (add64 cursor e.decomp_size)
        (offsets ++ e.start_offset ∷ []) in
    if is_no_error error then rest else failed error i

-- std::sort and std::adjacent_find over the start offsets.
unfoldable pub insert_sorted : ℕ → List ℕ → List ℕ
insert_sorted x [] = x ∷ []
insert_sorted x (y ∷ l) = if leb x y then x ∷ y ∷ l else y ∷ insert_sorted x l

unfoldable pub sort : List ℕ → List ℕ
unfolding insert_sorted
sort [] = []
sort (x ∷ l) = insert_sorted x (sort l)

unfoldable pub has_adjacent : List ℕ → Bool
has_adjacent [] = false
has_adjacent (x ∷ []) = false
has_adjacent (x ∷ y ∷ l) = x == y || has_adjacent (y ∷ l)

abbrev fail : ValidationError → ValidationResult → ValidationResult
fail e r = record r { error = e }

-- What follows the loop.
unfoldable pub close : Bool → List ℕ → ValidationResult → LoopResult → ValidationResult
unfolding sort has_adjacent
close allow_trailing bytes r (failed e i) = record r { error = e; invalid_entry = i }
close allow_trailing bytes r (finished cursor offsets) =
    let last = record r { invalid_entry = r.header.entry_count - 1 } in
    if has_adjacent (sort offsets)
    then fail duplicate_start_offset last
    else if not (cursor == length bytes) && not allow_trailing
    then record last { error = trailing_data; valid_size = cursor }
    else record r { valid_size = cursor }

unfoldable pub validate_bytes :
    List ℕ → Option ArchiveIdentity → ValidationMode → Bool → ValidationResult
validate_bytes bytes expected mode allow_trailing =
    if ltb (length bytes) header_size
    then fail file_too_small blank_result
    else (let h = decode_header bytes in
        let r = record blank_result { header = h } in
        let start = header_size + h.index_capacity * entry_size in
        if not (same_bytes h.magic_bytes magic)
        then fail bad_magic r
        else if not (h.version_number == version)
        then fail unsupported_version r
        else if mismatch h expected
        then fail archive_mismatch r
        else if bad_counts h expected
        then fail invalid_entry_count r
        else if ltb ((length bytes - header_size) / entry_size) h.index_capacity
        then fail index_out_of_bounds r
        else close allow_trailing bytes (record r { data_start = start })
            (check_entries mode bytes h.entry_count 0 start []))

-- The size of the data is the length of the list; a null pointer is `none`.
unfoldable pub validate :
    Option (List ℕ) → Option ArchiveIdentity → ValidationMode → Bool → ValidationResult
unfolding validate_bytes mismatch bad_counts check_entries close
validate none expected mode allow_trailing = fail null_data blank_result
validate (some bytes) expected mode allow_trailing =
    validate_bytes bytes expected mode allow_trailing
