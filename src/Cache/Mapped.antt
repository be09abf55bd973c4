-- ===== src/Cache/Mapped.antt =====
-- Skyrim/src/DecompCache.cpp, MapCommittedFile: mapping a cache file, and the index that it gives.
-- Which calls fail, and the address of the mapping, are a parameter. MapCommittedFile takes no lock, and
-- cache files are written by the flush that calls it: the model assumes that nothing changes the file from
-- GetHandleSize on, so that its size and the bytes of the mapping, which has no other bounds than the
-- file, are those of its contents.
pub mod Serves
pub mod Inside
pub mod Reader
pub mod Served
mod Tests
use faster_file_copy.Prelude.{
  ℕ, zero, suc, ◌+◌, Bool, true, false, not, Option, none, some, List, [], ◌∷◌, ltb, if◌then◌else◌,
  length, ◌||◌,
}
use faster_file_copy.Format.Layout.{
  header_size, Entry, ArchiveIdentity, decode_entry, structural_only, ValidationResult,
}
use faster_file_copy.Format.Validate.{validate, is_no_error}
use faster_file_copy.Cache.State.{verify_unknown, verify_valid, MappedView, CachedEntry, contains}
use faster_file_copy.Cache.Flush.{OlResult}

pub record MapAnswers : Type 0 where
  -- CreateFileW, and GetHandleSize
  pub opened : Bool
  pub sized : Bool
  -- CreateFileMappingW
  pub mapping : Bool
  -- The address that MapViewOfFile gives
  pub view : Option ℕ
  -- Validate finds memory for its offsets.
  pub memory : Bool

unfoldable pub cached_entry : ℕ → List ℕ → Entry → CachedEntry
cached_entry base known_valid e = record {
  data_address = some (base + e.cache_offset);
  size = e.decomp_size;
  checksum_value = e.checksum_value;
  verification =
      some (if contains known_valid e.start_offset then verify_valid else verify_unknown);
}

-- The index from slot i on, with the rounds left. A key that emplace meets again is behind the first,
-- where find does not see it.
unfoldable pub index_entries : ℕ → List ℕ → List ℕ → ℕ → ℕ → List (ℕ × CachedEntry)
unfolding cached_entry
index_entries base bytes known_valid i zero = []
index_entries base bytes known_valid i (suc left) =
    let e = decode_entry bytes i in
    (e.start_offset, cached_entry base known_valid e)
    ∷ index_entries base bytes known_valid (i + 1) left

unfoldable pub map_validated : ℕ → ℕ → ℕ → List ℕ → List ℕ → ValidationResult → Option OlResult
unfolding index_entries is_no_error
map_validated view base file_size bytes known_valid v =
    if not (is_no_error v.error)
    then none
    else some (record {
      view = view;
      mapped = record {
        base = base;
        size = file_size;
        committed_size = v.valid_size;
        prefaulted_through = 0;
        unusable = false;
      };
      index = index_entries base bytes known_valid 0 v.header.entry_count;
      file_size = file_size;
    })

unfoldable pub map_view : ℕ → List ℕ → ArchiveIdentity → List ℕ → Bool → Option ℕ → Option OlResult
unfolding map_validated
map_view view file id known_valid memory none = none
map_view view file id known_valid memory (some base) =
    if memory
    then map_validated view base (length file) file known_valid
        (validate (some file) (some id) structural_only false)
    else none

-- The number of the new view is `view`.
unfoldable pub map_committed_file :
    ℕ → MapAnswers → List ℕ → ArchiveIdentity → List ℕ → Option OlResult
unfolding map_view
map_committed_file view answers file id known_valid =
    if not answers.opened || not answers.sized || ltb (length file) header_size
    then none
    else if answers.mapping
    then map_view view file id known_valid answers.memory answers.view
    else none
