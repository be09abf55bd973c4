-- ===== src/Cache/Load.antt =====
-- Skyrim/src/DecompCache.cpp, LoadCacheFile: mapping an archive's cache file when the game starts, and
-- cutting off what an interrupted append left behind the committed payloads. The kernel's answers are
-- a parameter; the file is alone under its lock, so its contents are those of the mapping. Log lines
-- are left out.
pub mod Contents
pub mod Recovery
pub mod Served
mod Tests
use faster_file_copy.Prelude.{
  ℕ, Bool, true, false, not, ◌&&◌, ◌||◌, Option, none, some, List, [], ◌∷◌, ltb, ◌==◌,
  if◌then◌else◌, length, take,
}
use faster_file_copy.Prelude.Words.{add64}
use faster_file_copy.Format.Layout.{header_size, ArchiveIdentity, structural_only, ValidationResult}
use faster_file_copy.Format.Validate.{validate, is_no_error}
use faster_file_copy.Cache.State.{
  MappedView, CachedEntry, ArchiveCache, DecompCache, replace, update_view,
}
use faster_file_copy.Cache.Mapped.{index_entries}

pub record LoadAnswers : Type 0 where
  -- CreateFileW to read and write, and to read only
  pub writable : Bool
  pub readable : Bool
  -- The exclusive lock, and CreateFileW to read only if it is refused
  pub locked : Bool
  pub reopened : Bool
  -- GetHandleSize
  pub sized : Bool
  -- The address of the mapping, `none` if CreateFileMappingW or MapViewOfFile fails
  pub mapping : Option ℕ
  -- Validate finds memory for its offsets.
  pub memory : Bool
  -- Truncate, and the mapping after it
  pub truncates : Bool
  pub remapping : Option ℕ

-- What the load assigns to the cache.
pub record Loaded : Type 0 where
  pub view : ℕ
  pub mapped : MappedView
  pub index : List (ℕ × CachedEntry)
  pub file_size : ℕ
  pub needs_replacement : Bool

-- Whether the file is open for writing too, if it is open.
unfoldable pub open_cache : LoadAnswers → Option Bool
open_cache answers =
    if answers.writable
    then (if answers.locked then some true else if answers.reopened then some false else none)
    else if answers.readable
    then some false
    else none

-- The new view and its index; the file's contents come first.
unfoldable pub publish_mapping :
    ℕ → List ℕ → Bool → ValidationResult → Option ℕ → List ℕ × Option Loaded
unfolding index_entries
publish_mapping view file needs v none = (file, none)
publish_mapping view file needs v (some base) = (
  file,
  some (record {
    view = view;
    mapped = record {
      base = base;
      size = length file;
      committed_size = v.valid_size;
      prefaulted_through = 0;
      unusable = false;
    };
    index = index_entries base file [] 0 v.header.entry_count;
    file_size = length file;
    needs_replacement = needs;
  }),
)

unfoldable pub load_validated :
    ℕ → LoadAnswers → List ℕ → Bool → ℕ → ValidationResult → List ℕ × Option Loaded
unfolding publish_mapping is_no_error
load_validated view answers file writable base v =
    let needs = not (v.valid_size == length file) in
    if not (is_no_error v.error)
    then (file, none)
    else if needs && writable
    then (if answers.truncates
        then publish_mapping view (take v.valid_size file) false v answers.remapping
        else publish_mapping view file true v answers.remapping)
    else publish_mapping view file needs v (some base)

unfoldable pub load_mapped :
    ℕ → LoadAnswers → ArchiveIdentity → List ℕ → Bool → Option ℕ → List ℕ × Option Loaded
unfolding load_validated
load_mapped view answers id file writable none = (file, none)
load_mapped view answers id file writable (some base) =
    if answers.memory
    then load_validated view answers file writable base
        (validate (some file) (some id) structural_only true)
    else (file, none)

unfoldable pub load_opened :
    ℕ → LoadAnswers → ArchiveIdentity → List ℕ → Option Bool → List ℕ × Option Loaded
unfolding load_mapped
load_opened view answers id file none = (file, none)
load_opened view answers id file (some writable) =
    if not answers.sized || ltb (length file) header_size
    then (file, none)
    else load_mapped view answers id file writable answers.mapping

unfoldable pub load_cache_file : ℕ → LoadAnswers → ArchiveIdentity → List ℕ → List ℕ × Option Loaded
unfolding open_cache load_opened
load_cache_file view answers id file = load_opened view answers id file (open_cache answers)

-- The assignments to the cache, whose file has this path.
unfoldable pub adopt : ℕ → ℕ → Loaded → ArchiveCache → DecompCache → DecompCache
adopt archive path r c s = record s {
  caches = replace s.caches archive (record c {
    index = r.index;
    view = some r.view;
    active_path = some path;
    on_disk_bytes = r.file_size;
    disk_invalidated = false;
    needs_replacement = r.needs_replacement;
  });
  views = update_view s.views r.view r.mapped;
  cache_epoch = add64 s.cache_epoch 1;
}
