-- ===== src/Cache/Commit/ReadBack.antt =====
-- What a restart makes of a file that represents a list of payloads: the header, the index, and the
-- validator's answer.
use faster_file_copy.Prelude.{
  ℕ, ◌+◌, ◌≤◌, ◌≡◌, inl, inr, ◌⊎◌, Bool, refl, sym, ap, ◌∙◌, true, some, List, [], ◌∷◌, length,
  drop, length-append, All, arith, u64_max,
}
use faster_file_copy.Prelude.Splice.{slice, take_enough}
use faster_file_copy.Format.Checksum.{checksum}
use faster_file_copy.Format.Layout.{
  Header, Entry, header_size, entry_size, ArchiveIdentity, decode_header, decode_entry,
  ValidationMode, structural_only, full_payload, no_error, blank_result,
}
use faster_file_copy.Format.Encode.{
  encode_header, encode_entry, HeaderFits, EntryFits, decode_header-slice, decode_entry_at-slice,
  length-encode_header, length-encode_entry, decode-encode_header, decode_at-encode_entry,
}
use faster_file_copy.Format.Validate.{validate}
use faster_file_copy.Format.Validate.Spec.{
  Checked, data_begin, committed_end, total_size, entries, Contiguous, committed, WellFormed,
}
use faster_file_copy.Format.Validate.Exact.{validate_exact, WellFormed-validate}
use faster_file_copy.Cache.Commit.{PreparedPending, encode_entries, index_slot, fresh_header}
use faster_file_copy.Cache.Commit.Ranges.{Has, Has-left, Has-right}
use faster_file_copy.Cache.Commit.Effect.{payloads}
use faster_file_copy.Cache.Commit.Content.{
  entry_for, layout, Sound, begin, Storable, Represents, length-layout, start_offsets-layout,
}

layout-fits :
    (c : ℕ) (l : List PreparedPending)
    → All Sound l
    → c + length (payloads l) ≤ u64_max
    → All EntryFits (layout c l)
layout-fits c [] s h = tt
layout-fits c (p ∷ l) s h =
    let whole : length (payloads (p ∷ l)) ≡ length p.payload + length (payloads l) =
      length-append p.payload (payloads l) in
    (
      record {
        start_fits = s.0.start_fits;
        size_fits = omega (arith, s.0.small);
        offset_fits = omega (arith, h);
        checksum_fits = s.0.checksum_fits;
      },
      layout-fits (c + length p.payload) l s.1 (omega (arith, h, whole)),
    )

-- What a restart reads in the index.
pub entries-encode_entries :
    (img : List ℕ) (i : ℕ) (es : List Entry)
    → All EntryFits es
    → Has img (index_slot i) (encode_entries es)
    → entries img i (length es) ≡ es
unfolding encode_entries decode_entry
entries-encode_entries img i [] fits h = refl
entries-encode_entries img i (e ∷ es) fits h =
    let here : Has img (index_slot i) (encode_entry e) =
      Has-left img (index_slot i) (encode_entry e) (encode_entries es) h in
    let there : Has img (index_slot i + length (encode_entry e)) (encode_entries es) =
      Has-right img (index_slot i) (encode_entry e) (encode_entries es) h in
    let next : index_slot i + length (encode_entry e) ≡ index_slot (i + 1) =
      omega (arith, length-encode_entry e) in
    let first : decode_entry img i ≡ e =
      decode_entry_at-slice (drop (index_slot i) img) (encode_entry e) (
        ap (λ n. slice (index_slot i) n img) (sym (length-encode_entry e))
        ∙ here.0
        ∙ sym (take_enough entry_size (encode_entry e) (omega (arith, length-encode_entry e))))
      ∙ decode_at-encode_entry e fits.0 in
    λ j. first j ∷ entries-encode_entries img (i + 1) es fits.1 (rw next at there) j

Checked-Sound :
    (mode : ValidationMode) (img : List ℕ) (c : ℕ) (p : PreparedPending)
    → Sound p
    → Has img c p.payload
    → Checked mode img c (entry_for c p)
Checked-Sound structural_only img c p s h = tt
Checked-Sound full_payload img c p s h =
    ap (λ b. checksum (some b) (length p.payload)) h.0 ∙ sym s.summed

Contiguous-layout :
    (mode : ValidationMode) (img : List ℕ) (c : ℕ) (l : List PreparedPending)
    → All Sound l
    → Has img c (payloads l)
    → Contiguous mode img c (layout c l)
Contiguous-layout mode img c [] s h = tt
Contiguous-layout mode img c (p ∷ l) s h =
    let here : Has img c p.payload = Has-left img c p.payload (payloads l) h in
    (
      record {
        nonempty = s.0.nonempty;
        small = s.0.small;
        in_place = refl;
        inside = here.1;
        checked = Checked-Sound mode img c p s.0 here;
      },
      Contiguous-layout mode img (c + length p.payload) l s.1
          (Has-right img c p.payload (payloads l) h),
    )

fresh-fits :
    (id : ArchiveIdentity) (l : List PreparedPending)
    → Storable id l
    → HeaderFits (fresh_header id (length l))
unfolding fresh_header
fresh-fits id l s = record {
  four = refl;
  version_fits = omega arith;
  size_fits = s.size_fits;
  write_fits = s.write_fits;
  fingerprint_fits = s.fingerprint_fits;
  archive_fits = omega (arith, s.capacity_small);
  capacity_fits = omega (arith, s.capacity_small);
  count_fits = omega (arith, s.within_capacity, s.capacity_small);
}

pub header_read :
    (id : ArchiveIdentity) (l : List PreparedPending) (img : List ℕ)
    → Storable id l
    → Represents id l img
    → decode_header img ≡ fresh_header id (length l)
header_read id l img s r =
    let h = fresh_header id (length l) in
    let four : length h.magic_bytes ≡ 4 = (fresh-fits id l s).four in
    decode_header-slice img (encode_header h) (
      ap (λ n. slice 0 n img) (sym (length-encode_header h four))
      ∙ r.has_header.0
      ∙ sym
          (take_enough header_size (encode_header h) (omega (arith, length-encode_header h four))))
    ∙ decode-encode_header h (fresh-fits id l s)

pub index_read :
    (id : ArchiveIdentity) (l : List PreparedPending) (img : List ℕ)
    → Storable id l
    → Represents id l img
    → entries img 0 (length l) ≡ layout (begin id) l
index_read id l img s r =
    ap (entries img 0) (sym (length-layout (begin id) l))
    ∙ entries-encode_entries img 0 (layout (begin id) l) (layout-fits (begin id) l s.sound s.room)
        r.has_index

pub committed-Represents :
    (id : ArchiveIdentity) (l : List PreparedPending) (img : List ℕ)
    → Storable id l
    → Represents id l img
    → committed img ≡ layout (begin id) l
unfolding fresh_header
committed-Represents id l img s r =
    ap (λ (h : Header). entries img 0 h.entry_count) (header_read id l img s r)
    ∙ index_read id l img s r

total_size-layout :
    (c : ℕ) (l : List PreparedPending) → total_size (layout c l) ≡ length (payloads l)
total_size-layout c [] = refl
total_size-layout c (p ∷ l) =
    ap (λ n. length p.payload + n) (total_size-layout (c + length p.payload) l)
    ∙ sym (length-append p.payload (payloads l))

-- Bytes behind the last payload are allowed, or there are none.
abbrev pub Tail : ArchiveIdentity → List PreparedPending → List ℕ → Bool → Type 0
Tail id l img trailing = (trailing ≡ true) ⊎ (begin id + length (payloads l) ≡ length img)

end_found :
    (id : ArchiveIdentity) (l : List PreparedPending) (img : List ℕ)
    → Storable id l
    → Represents id l img
    → committed_end img ≡ begin id + length (payloads l)
unfolding fresh_header
end_found id l img s r =
    ap (λ n. n + total_size (committed img)) (ap data_begin (header_read id l img s r))
    ∙ ap (λ t. begin id + total_size t) (committed-Represents id l img s r)
    ∙ ap (λ n. begin id + n) (total_size-layout (begin id) l)

Tail-found :
    (id : ArchiveIdentity) (l : List PreparedPending) (img : List ℕ) (trailing : Bool)
    → Storable id l
    → Represents id l img
    → Tail id l img trailing
    → (trailing ≡ true) ⊎ (committed_end img ≡ length img)
Tail-found id l img trailing s r (inl allowed) = inl allowed
Tail-found id l img trailing s r (inr exact) = inr (end_found id l img s r ∙ exact)

WellFormed-Represents :
    (id : ArchiveIdentity) (l : List PreparedPending) (img : List ℕ) (mode : ValidationMode)
    (trailing : Bool)
    → Storable id l
    → Represents id l img
    → Tail id l img trailing
    → WellFormed img (some id) mode trailing
unfolding fresh_header
WellFormed-Represents id l img mode trailing s r tail =
    let h = header_read id l img s r in
    let es = committed-Represents id l img s r in
    record {
      room_for_header = omega (arith, r.has_data.1);
      magic_right = rw h refl;
      version_right = rw h refl;
      identified = rw h (refl, refl, refl, refl, refl);
      some_entry = rw h s.some_entry;
      within_capacity = rw h s.within_capacity;
      capacity_small = rw h s.capacity_small;
      room_for_index = rw h (omega (arith, r.has_data.1));
      contiguous = rw (es, h) (Contiguous-layout mode img (begin id) l s.sound r.has_data);
      distinct = rw es (rw (start_offsets-layout (begin id) l) s.distinct);
      no_tail = Tail-found id l img trailing s r tail;
    }

-- Contents of less than 2 ^ 64 bytes that represent a list that a file can hold, among any other bytes,
-- are accepted by the validator with every payload's checksum, and the index entries that it finds are
-- those of the list in order.
pub validate-Represents :
    (id : ArchiveIdentity) (l : List PreparedPending) (img : List ℕ)
    → Storable id l
    → length img ≤ u64_max
    → Represents id l img
    → ((validate (some img) (some id) full_payload true).error ≡ no_error)
      × (committed img ≡ layout (begin id) l)
validate-Represents id l img s size r = (
  (validate_exact img (some id) full_payload true size).1
      (WellFormed-Represents id l img full_payload true s r (inl refl)),
  committed-Represents id l img s r,
)

-- What AppendFile and MapCommittedFile learn from the validator about such contents.
pub validate-found :
    (id : ArchiveIdentity) (l : List PreparedPending) (img : List ℕ) (trailing : Bool)
    → Storable id l
    → length img ≤ u64_max
    → Represents id l img
    → Tail id l img trailing
    → validate (some img) (some id) structural_only trailing ≡ record blank_result {
      header = fresh_header id (length l);
      data_start = begin id;
      valid_size = begin id + length (payloads l);
    }
unfolding fresh_header
validate-found id l img trailing s size r tail =
    let h = header_read id l img s r in
    let start : data_begin (decode_header img) ≡ begin id = ap data_begin h in
    let end = end_found id l img s r in
    WellFormed-validate img (some id) structural_only trailing size
      (WellFormed-Represents id l img structural_only trailing s r tail)
    ∙ (λ i. record blank_result { header = h i; data_start = start i; valid_size = end i })
