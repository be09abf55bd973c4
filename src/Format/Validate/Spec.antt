-- ===== src/Format/Validate/Spec.antt =====
-- What makes a cache file well formed, with no reference to the validator.
use faster_file_copy.Prelude.{
  ℕ, zero, suc, ◌+◌, ◌*◌, ◌≤◌, ◌<◌, ◌≡◌, ◌≢◌, Bool, Option, none, some, List, [], ◌∷◌, map, ◌⊎◌,
  true, All, length, take, drop,
}
use faster_file_copy.Format.Checksum.{checksum}
use faster_file_copy.Format.Layout.{
  magic, version, max_payload_size, max_index_capacity, Header, Entry, header_size, entry_size,
  ArchiveIdentity, decode_header, decode_entry, ValidationMode, structural_only, full_payload,
}

-- n index slots from slot i on.
abbrev pub entries : List ℕ → ℕ → ℕ → List Entry
entries bytes i zero = []
entries bytes i (suc n) = decode_entry bytes i ∷ entries bytes (i + 1) n

abbrev pub total_size : List Entry → ℕ
total_size [] = 0
total_size (e ∷ es) = e.decomp_size + total_size es

abbrev pub Checked : ValidationMode → List ℕ → ℕ → Entry → Type 0
Checked structural_only bytes cursor e = Unit
Checked full_payload bytes cursor e =
    checksum (some (take e.decomp_size (drop cursor bytes))) e.decomp_size ≡ e.checksum_value

-- A payload that stands at the cursor, inside the file.
pub record Payload (mode : ValidationMode) (bytes : List ℕ) (cursor : ℕ) (e : Entry) : Type 0 where
  pub nonempty : 0 < e.decomp_size
  pub small : e.decomp_size ≤ max_payload_size
  pub in_place : e.cache_offset ≡ cursor
  pub inside : cursor + e.decomp_size ≤ length bytes
  pub checked : Checked mode bytes cursor e

-- Payloads one after another, with no hole and no overlap.
abbrev pub Contiguous : ValidationMode → List ℕ → ℕ → List Entry → Type 0
Contiguous mode bytes cursor [] = Unit
Contiguous mode bytes cursor (e ∷ es) =
    Payload mode bytes cursor e × Contiguous mode bytes (cursor + e.decomp_size) es

abbrev pub Distinct : List ℕ → Type 0
Distinct [] = Unit
Distinct (x ∷ l) = All (λ y. x ≢ y) l × Distinct l

abbrev pub start_offsets : List Entry → List ℕ
start_offsets = map (λ (e : Entry). e.start_offset)

abbrev pub Identifies : Header → Option ArchiveIdentity → Type 0
Identifies h none = Unit
Identifies h (some e) =
    (h.bsa_file_size ≡ e.file_size)
    × (h.bsa_last_write ≡ e.last_write)
    × (h.bsa_fingerprint ≡ e.fingerprint)
    × (h.bsa_entry_count ≡ e.archive_entries)
    × (h.index_capacity ≡ e.archive_entries)

-- The end of the index, where the payloads begin.
abbrev pub data_begin : Header → ℕ
data_begin h = header_size + h.index_capacity * entry_size

abbrev pub committed : List ℕ → List Entry
committed bytes = entries bytes 0 (decode_header bytes).entry_count

-- The end of the last committed payload.
abbrev pub committed_end : List ℕ → ℕ
committed_end bytes = data_begin (decode_header bytes) + total_size (committed bytes)

pub record WellFormed (bytes : List ℕ) (expected : Option ArchiveIdentity) (mode : ValidationMode)
    (allow_trailing : Bool) : Type 0 where
  pub room_for_header : header_size ≤ length bytes
  pub magic_right : (decode_header bytes).magic_bytes ≡ magic
  pub version_right : (decode_header bytes).version_number ≡ version
  pub identified : Identifies (decode_header bytes) expected
  pub some_entry : 0 < (decode_header bytes).entry_count
  pub within_capacity : (decode_header bytes).entry_count ≤ (decode_header bytes).index_capacity
  pub capacity_small : (decode_header bytes).index_capacity ≤ max_index_capacity
  pub room_for_index : data_begin (decode_header bytes) ≤ length bytes
  pub contiguous : Contiguous mode bytes (data_begin (decode_header bytes)) (committed bytes)
  pub distinct : Distinct (start_offsets (committed bytes))
  pub no_tail : (allow_trailing ≡ true) ⊎ (committed_end bytes ≡ length bytes)
