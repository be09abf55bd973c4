-- ===== src/Format/Encode.antt =====
-- Skyrim/src/CacheFormat.h: Header and Entry as a writer lays them out in memory, and what a reader
-- makes of a range of a file. The structures are packed.
use faster_file_copy.Prelude.{
  ℕ, zero, suc, ◌+◌, ◌*◌, ◌^◌, ◌≤◌, ◌<◌, ◌≡◌, refl, ap, ◌∙◌, sym, List, [], ◌∷◌, ◌++◌, take, drop,
  length, length-append, arith,
}
use faster_file_copy.Prelude.Words.{read_le, write_le, length-write_le, read_le-write_le}
use faster_file_copy.Prelude.Splice.{slice, slice_part, drop_add, take-append, drop-append}
use faster_file_copy.Format.Layout.{
  Header, Entry, header_size, entry_size, field_at, decode_header, decode_entry_at, decode_entry,
}

unfoldable pub encode_header : Header → List ℕ
encode_header h =
    h.magic_bytes
    ++ (write_le 4 h.version_number
        ++ (write_le 8 h.bsa_file_size
            ++ (write_le 8 h.bsa_last_write
                ++ (write_le 8 h.bsa_fingerprint
                    ++ (write_le 4 h.bsa_entry_count
                        ++ (write_le 4 h.index_capacity ++ (write_le 4 h.entry_count ++ [])))))))

unfoldable pub encode_entry : Entry → List ℕ
encode_entry e =
    write_le 4 e.start_offset
    ++ (write_le 4 e.decomp_size
        ++ (write_le 8 e.cache_offset ++ (write_le 4 e.checksum_value ++ [])))

-- The fields fit their words.
pub record HeaderFits (h : Header) : Type 0 where
  pub four : length h.magic_bytes ≡ 4
  pub version_fits : h.version_number < 256 ^ 4
  pub size_fits : h.bsa_file_size < 256 ^ 8
  pub write_fits : h.bsa_last_write < 256 ^ 8
  pub fingerprint_fits : h.bsa_fingerprint < 256 ^ 8
  pub archive_fits : h.bsa_entry_count < 256 ^ 4
  pub capacity_fits : h.index_capacity < 256 ^ 4
  pub count_fits : h.entry_count < 256 ^ 4

pub record EntryFits (e : Entry) : Type 0 where
  pub start_fits : e.start_offset < 256 ^ 4
  pub size_fits : e.decomp_size < 256 ^ 4
  pub offset_fits : e.cache_offset < 256 ^ 8
  pub checksum_fits : e.checksum_value < 256 ^ 4

drop-write_le : (n v : ℕ) (rest : List ℕ) → drop n (write_le n v ++ rest) ≡ rest
drop-write_le n v rest =
    ap (λ k. drop k (write_le n v ++ rest)) (sym (length-write_le n v))
    ∙ drop-append (write_le n v) rest

read_le-take : (n : ℕ) (p : List ℕ) → read_le n (take n p) ≡ read_le n p
unfolding read_le
read_le-take zero p = refl
read_le-take (suc n) [] = refl
read_le-take (suc n) (b ∷ p) = ap (λ v. b + 256 * v) (read_le-take n p)

-- A field depends on its own bytes only.
field_at-slice :
    (n o : ℕ) (p q : List ℕ) → slice o n p ≡ slice o n q → field_at n o p ≡ field_at n o q
unfolding field_at
field_at-slice n o p q e =
    sym (read_le-take n (drop o p)) ∙ ap (read_le n) e ∙ read_le-take n (drop o q)

field_at_step :
    (n o m v : ℕ) (rest : List ℕ) → field_at n (m + o) (write_le m v ++ rest) ≡ field_at n o rest
unfolding field_at
field_at_step n o m v rest =
    ap (read_le n)
      (sym (drop_add m o (write_le m v ++ rest)) ∙ ap (drop o) (drop-write_le m v rest))

field_at_past :
    (n o m : ℕ) (a rest : List ℕ)
    → length a ≡ m
    → field_at n (m + o) (a ++ rest) ≡ field_at n o rest
unfolding field_at
field_at_past n o m a rest e = ap (read_le n) (
    sym (drop_add m o (a ++ rest))
    ∙ ap (drop o) (ap (λ k. drop k (a ++ rest)) (sym e) ∙ drop-append a rest))

field_at_here : (n v : ℕ) (rest : List ℕ) → v < 256 ^ n → field_at n 0 (write_le n v ++ rest) ≡ v
unfolding field_at
field_at_here n v rest h = read_le-write_le n v rest h

-- A header and an entry are read from their own range.
pub decode_header-slice :
    (p q : List ℕ)
    → slice 0 header_size p ≡ slice 0 header_size q
    → decode_header p ≡ decode_header q
unfolding decode_header
decode_header-slice p q e =
    let part = λ (o n : ℕ). λ (h : o + n ≤ 44). slice_part p q 0 44 o n (omega arith) h e in
    let field = λ (o n : ℕ). λ (h : o + n ≤ 44). field_at-slice n o p q (part o n h) in
    rw
      (
        part 0 4 (omega arith),
        field 4 4 (omega arith),
        field 8 8 (omega arith),
        field 16 8 (omega arith),
        field 24 8 (omega arith),
        field 32 4 (omega arith),
        field 36 4 (omega arith),
        field 40 4 (omega arith),
      )
      refl

pub decode_entry_at-slice :
    (p q : List ℕ)
    → slice 0 entry_size p ≡ slice 0 entry_size q
    → decode_entry_at p ≡ decode_entry_at q
unfolding decode_entry_at
decode_entry_at-slice p q e =
    let field = λ (o n : ℕ).
      λ (h : o + n ≤ 20). field_at-slice n o p q (slice_part p q 0 20 o n (omega arith) h e) in
    rw
      (
        field 0 4 (omega arith),
        field 4 4 (omega arith),
        field 8 8 (omega arith),
        field 16 4 (omega arith),
      )
      refl

pub decode_entry-slice :
    (p q : List ℕ) (i : ℕ)
    → slice (header_size + i * entry_size) entry_size p
      ≡ slice (header_size + i * entry_size) entry_size q
    → decode_entry p i ≡ decode_entry q i
unfolding decode_entry
decode_entry-slice p q i e = decode_entry_at-slice _ _ e

pub length-encode_header : (h : Header) → length h.magic_bytes ≡ 4 → length (encode_header h) ≡ 44
unfolding encode_header write_le
length-encode_header h e = omega (arith, length-append h.magic_bytes _, e)

pub length-encode_entry : (e : Entry) → length (encode_entry e) ≡ 20
unfolding encode_entry write_le
length-encode_entry e = refl

-- Writing a header or an entry and reading it back.
pub decode-encode_header : (h : Header) → HeaderFits h → decode_header (encode_header h) ≡ h
unfolding encode_header decode_header
decode-encode_header h f =
    let m : take 4 (encode_header h) ≡ h.magic_bytes =
      ap (λ k. take k (encode_header h)) (sym f.four) ∙ take-append h.magic_bytes _ in
    let version_number' : field_at 4 4 (encode_header h) ≡ h.version_number =
      field_at_past 4 0 4 h.magic_bytes _ f.four
      ∙ field_at_here 4 h.version_number _ f.version_fits in
    let bsa_file_size' : field_at 8 8 (encode_header h) ≡ h.bsa_file_size =
      field_at_past 8 4 4 h.magic_bytes _ f.four
      ∙ field_at_step 8 0 4 _ _
      ∙ field_at_here 8 h.bsa_file_size _ f.size_fits in
    let bsa_last_write' : field_at 8 16 (encode_header h) ≡ h.bsa_last_write =
      field_at_past 8 12 4 h.magic_bytes _ f.four
      ∙ field_at_step 8 8 4 _ _
      ∙ field_at_step 8 0 8 _ _
      ∙ field_at_here 8 h.bsa_last_write _ f.write_fits in
    let bsa_fingerprint' : field_at 8 24 (encode_header h) ≡ h.bsa_fingerprint =
      field_at_past 8 20 4 h.magic_bytes _ f.four
      ∙ field_at_step 8 16 4 _ _
      ∙ field_at_step 8 8 8 _ _
      ∙ field_at_step 8 0 8 _ _
      ∙ field_at_here 8 h.bsa_fingerprint _ f.fingerprint_fits in
    let bsa_entry_count' : field_at 4 32 (encode_header h) ≡ h.bsa_entry_count =
      field_at_past 4 28 4 h.magic_bytes _ f.four
      ∙ field_at_step 4 24 4 _ _
      ∙ field_at_step 4 16 8 _ _
      ∙ field_at_step 4 8 8 _ _
      ∙ field_at_step 4 0 8 _ _
      ∙ field_at_here 4 h.bsa_entry_count _ f.archive_fits in
    let index_capacity' : field_at 4 36 (encode_header h) ≡ h.index_capacity =
      field_at_past 4 32 4 h.magic_bytes _ f.four
      ∙ field_at_step 4 28 4 _ _
      ∙ field_at_step 4 20 8 _ _
      ∙ field_at_step 4 12 8 _ _
      ∙ field_at_step 4 4 8 _ _
      ∙ field_at_step 4 0 4 _ _
      ∙ field_at_here 4 h.index_capacity _ f.capacity_fits in
    let entry_count' : field_at 4 40 (encode_header h) ≡ h.entry_count =
      field_at_past 4 36 4 h.magic_bytes _ f.four
      ∙ field_at_step 4 32 4 _ _
      ∙ field_at_step 4 24 8 _ _
      ∙ field_at_step 4 16 8 _ _
      ∙ field_at_step 4 8 8 _ _
      ∙ field_at_step 4 4 4 _ _
      ∙ field_at_step 4 0 4 _ _
      ∙ field_at_here 4 h.entry_count _ f.count_fits in
    λ i. record {
      magic_bytes = m i;
      version_number = version_number' i;
      bsa_file_size = bsa_file_size' i;
      bsa_last_write = bsa_last_write' i;
      bsa_fingerprint = bsa_fingerprint' i;
      bsa_entry_count = bsa_entry_count' i;
      index_capacity = index_capacity' i;
      entry_count = entry_count' i;
    }

pub decode_at-encode_entry : (e : Entry) → EntryFits e → decode_entry_at (encode_entry e) ≡ e
unfolding encode_entry decode_entry_at
decode_at-encode_entry e f =
    let start_offset' : field_at 4 0 (encode_entry e) ≡ e.start_offset =
      field_at_here 4 e.start_offset _ f.start_fits in
    let decomp_size' : field_at 4 4 (encode_entry e) ≡ e.decomp_size =
      field_at_step 4 0 4 _ _ ∙ field_at_here 4 e.decomp_size _ f.size_fits in
    let cache_offset' : field_at 8 8 (encode_entry e) ≡ e.cache_offset =
      field_at_step 8 4 4 _ _
      ∙ field_at_step 8 0 4 _ _
      ∙ field_at_here 8 e.cache_offset _ f.offset_fits in
    let checksum_value' : field_at 4 16 (encode_entry e) ≡ e.checksum_value =
      field_at_step 4 12 4 _ _
      ∙ field_at_step 4 8 4 _ _
      ∙ field_at_step 4 0 8 _ _
      ∙ field_at_here 4 e.checksum_value _ f.checksum_fits in
    λ i. record {
      start_offset = start_offset' i;
      decomp_size = decomp_size' i;
      cache_offset = cache_offset' i;
      checksum_value = checksum_value' i;
    }
