-- ===== src/Format/Tests.antt =====
-- Runs of the cache-file format, and its theorems at concrete files.
use faster_file_copy.Prelude.{ℕ, ◌≡◌, ◌≢◌, ◌↔◌, refl, false, none, some, List, [], ◌∷◌, ◌++◌, arith}
use faster_file_copy.Format.Checksum.{checksum, read32, round, stripe, word_step, byte_step}
use faster_file_copy.Format.Checksum.Merge.{checksum-ne}
use faster_file_copy.Format.Layout.{
  ArchiveIdentity, decode_header, no_error, trailing_data, file_too_small,
  payload_checksum_mismatch, structural_only, full_payload, blank_result, decode_entry,
}
use faster_file_copy.Format.Validate.{validate}
use faster_file_copy.Format.Validate.Spec.{WellFormed, data_begin, committed_end}
use faster_file_copy.Format.Validate.Exact.{validate_exact, WellFormed-validate}

-- One archive entry, cached as the three bytes 1 2 3.
abbrev identity : ArchiveIdentity
identity = record { file_size = 50_000; last_write = 123_456; fingerprint = 7; archive_entries = 1 }

-- Little-endian fields, written out.
abbrev cache_file : List ℕ
cache_file =
    (0x42 ∷ 0x53 ∷ 0x44 ∷ 0x43 ∷ 7 ∷ 0 ∷ 0 ∷ 0 ∷ [])
    ++ (0x50 ∷ 0xC3 ∷ 0 ∷ 0 ∷ 0 ∷ 0 ∷ 0 ∷ 0 ∷ [])
    ++ (0x40 ∷ 0xE2 ∷ 1 ∷ 0 ∷ 0 ∷ 0 ∷ 0 ∷ 0 ∷ [])
    ++ (7 ∷ 0 ∷ 0 ∷ 0 ∷ 0 ∷ 0 ∷ 0 ∷ 0 ∷ [])
    ++ (1 ∷ 0 ∷ 0 ∷ 0 ∷ 1 ∷ 0 ∷ 0 ∷ 0 ∷ 1 ∷ 0 ∷ 0 ∷ 0 ∷ [])
    ++ (100 ∷ 0 ∷ 0 ∷ 0 ∷ 3 ∷ 0 ∷ 0 ∷ 0 ∷ 64 ∷ 0 ∷ 0 ∷ 0 ∷ 0 ∷ 0 ∷ 0 ∷ 0 ∷ [])
    ++ (0 ∷ 0 ∷ 0 ∷ 0 ∷ [])
    ++ (1 ∷ 2 ∷ 3 ∷ [])

accepts : (validate (some cache_file) (some identity) structural_only false).error ≡ no_error
unfolding validate decode_header decode_entry
accepts = refl

rejects_tail :
    (validate (some (cache_file ++ 9 ∷ [])) (some identity) structural_only false).error
    ≡ trailing_data
unfolding validate decode_header decode_entry
rejects_tail = refl

-- The recorded checksum is 0, which is not the payload's.
rejects_checksum :
    (validate (some cache_file) none full_payload false).error ≡ payload_checksum_mismatch
unfolding validate decode_header decode_entry checksum read32 round stripe word_step byte_step
rejects_checksum = refl

rejects_short : (validate (some (0x42 ∷ [])) none structural_only false).error ≡ file_too_small
unfolding validate
rejects_short = refl

validate_exact_example :
    ((validate (some cache_file) (some identity) structural_only false).error ≡ no_error)
    ↔ WellFormed cache_file (some identity) structural_only false
validate_exact_example =
    validate_exact cache_file (some identity) structural_only false (omega arith)

cache_file-WellFormed : WellFormed cache_file (some identity) structural_only false
cache_file-WellFormed = validate_exact_example.0 accepts

WellFormed-validate_example :
    validate (some cache_file) (some identity) structural_only false ≡ record blank_result {
      header = decode_header cache_file;
      data_start = data_begin (decode_header cache_file);
      valid_size = committed_end cache_file;
    }
WellFormed-validate_example =
    WellFormed-validate cache_file (some identity) structural_only false (omega arith)
      cache_file-WellFormed

checksum-ne_example : checksum (some (1 ∷ 2 ∷ 3 ∷ [])) 3 ≢ checksum (some (1 ∷ 9 ∷ 3 ∷ [])) 3
checksum-ne_example =
    checksum-ne (1 ∷ []) (3 ∷ []) 2 9 3 3 (omega arith) (omega arith) (omega arith)
