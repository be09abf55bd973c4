-- ===== src/Format/Layout.antt =====
-- Skyrim/src/CacheFormat.h: constants and packed structures, read from and written to a file's
-- bytes. The targets are little-endian, and std::size_t has 64 bits.
use faster_file_copy.Prelude.{ℕ, ◌+◌, ◌*◌, List, [], ◌∷◌, take, drop, u32_max}
use faster_file_copy.Prelude.Words.{read_le}

-- 'B' 'S' 'D' 'C'
abbrev pub magic : List ℕ
magic = 0x42 ∷ 0x53 ∷ 0x44 ∷ 0x43 ∷ []

abbrev pub version : ℕ
version = 7

abbrev pub max_payload_size : ℕ
max_payload_size = 256 * 1024 * 1024

abbrev pub max_index_capacity : ℕ
max_index_capacity = 1_000_000

pub record Header : Type 0 where
  pub magic_bytes : List ℕ
  pub version_number : ℕ
  pub bsa_file_size : ℕ
  pub bsa_last_write : ℕ
  pub bsa_fingerprint : ℕ
  pub bsa_entry_count : ℕ
  pub index_capacity : ℕ
  pub entry_count : ℕ

pub record Entry : Type 0 where
  pub start_offset : ℕ
  pub decomp_size : ℕ
  pub cache_offset : ℕ
  pub checksum_value : ℕ

-- sizeof(Header) and sizeof(Entry)
abbrev pub header_size : ℕ
header_size = 44

abbrev pub entry_size : ℕ
entry_size = 20

pub record ArchiveIdentity : Type 0 where
  pub file_size : ℕ
  pub last_write : ℕ
  pub fingerprint : ℕ
  pub archive_entries : ℕ

-- An integer of n bytes at an offset.
unfoldable pub field_at : ℕ → ℕ → List ℕ → ℕ
unfolding read_le
field_at n offset p = read_le n (drop offset p)

-- memcpy of a Header out of the first 44 bytes.
unfoldable pub decode_header : List ℕ → Header
unfolding field_at
decode_header p = record {
  magic_bytes = take 4 p;
  version_number = field_at 4 4 p;
  bsa_file_size = field_at 8 8 p;
  bsa_last_write = field_at 8 16 p;
  bsa_fingerprint = field_at 8 24 p;
  bsa_entry_count = field_at 4 32 p;
  index_capacity = field_at 4 36 p;
  entry_count = field_at 4 40 p;
}

unfoldable pub decode_entry_at : List ℕ → Entry
unfolding field_at
decode_entry_at p = record {
  start_offset = field_at 4 0 p;
  decomp_size = field_at 4 4 p;
  cache_offset = field_at 8 8 p;
  checksum_value = field_at 4 16 p;
}

-- memcpy of the index slot i.
unfoldable pub decode_entry : List ℕ → ℕ → Entry
unfolding decode_entry_at
decode_entry p i = decode_entry_at (drop (header_size + i * entry_size) p)

pub data ValidationMode : Type 0 where
  structural_only full_payload : ValidationMode

pub data ValidationError : Type 0 where
  no_error null_data file_too_small bad_magic unsupported_version archive_mismatch
        invalid_entry_count index_out_of_bounds empty_payload payload_too_large
        non_contiguous_payload payload_out_of_bounds payload_checksum_mismatch trailing_data
        duplicate_start_offset :
      ValidationError

pub record ValidationResult : Type 0 where
  pub error : ValidationError
  pub header : Header
  pub data_start : ℕ
  pub valid_size : ℕ
  pub invalid_entry : ℕ

-- A default-constructed result.
abbrev pub blank_header : Header
blank_header = record {
  magic_bytes = 0 ∷ 0 ∷ 0 ∷ 0 ∷ [];
  version_number = 0;
  bsa_file_size = 0;
  bsa_last_write = 0;
  bsa_fingerprint = 0;
  bsa_entry_count = 0;
  index_capacity = 0;
  entry_count = 0;
}

abbrev pub blank_result : ValidationResult
blank_result = record {
  error = no_error;
  header = blank_header;
  data_start = 0;
  valid_size = 0;
  invalid_entry = u32_max;
}
