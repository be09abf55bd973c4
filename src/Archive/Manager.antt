-- ===== src/Archive/Manager.antt =====
-- Skyrim/src/BSAMemoryMap.cpp: MemoryMapManager, which opens the archives of the Data folder and finds
-- them by name. A path or a name is a list of characters; what std::filesystem answers is a
-- parameter. Archives whose names compare equal keep the order of the scan.
pub mod Kept
use faster_file_copy.Prelude.{
  ℕ, zero, suc, ◌+◌, ◌≡◌, refl, Bool, true, false, not, ◌&&◌, ◌||◌, Option, none, some, List, [],
  ◌∷◌, ◌++◌, ltb, leb, ◌==◌, if◌then◌else◌, length, get_elem?,
}
use faster_file_copy.Format.Validate.{same_bytes}
use faster_file_copy.Archive.State.{FileSystem, MappedArchive, World, new_archive, close, is_some}
use faster_file_copy.Archive.Open.{open_archive}

-- What std::filesystem answers.
pub record Directory : Type 0 where
  -- absolute and lexically_normal; `none` for an error
  pub normalize : List ℕ → Option (List ℕ)
  pub is_directory : List ℕ → Bool
  -- The regular files that the iteration yields before its end or its first error.
  pub regular_files : List ℕ → List (List ℕ)
  pub filename : List ℕ → List ℕ
  pub extension : List ℕ → List ℕ
  pub files : List ℕ → FileSystem

pub record MemoryMapManager : Type 0 where
  pub archives : List MappedArchive
  pub name_index : List (List ℕ × ℕ)
  pub initialized_path : List ℕ
  pub initialized_map_full : Bool

-- std::tolower in the "C" locale
unfoldable pub to_lower : ℕ → ℕ
to_lower c = if leb 65 c && leb c 90 then c + 32 else c

unfoldable pub lower_ascii : List ℕ → List ℕ
unfolding to_lower
lower_ascii [] = []
lower_ascii (c ∷ name) = to_lower c ∷ lower_ascii name

-- ".bsa"
abbrev pub bsa_extension : List ℕ
bsa_extension = 46 ∷ 98 ∷ 115 ∷ 97 ∷ []

-- operator< of std::string
unfoldable pub name_less : List ℕ → List ℕ → Bool
name_less [] [] = false
name_less [] (y ∷ q) = true
name_less (x ∷ p) [] = false
name_less (x ∷ p) (y ∷ q) = ltb x y || x == y && name_less p q

unfoldable pub find_name : List (List ℕ × ℕ) → List ℕ → Option ℕ
find_name [] name = none
find_name ((n, i) ∷ index) name = if same_bytes n name then some i else find_name index name

-- The destruction of the archives.
unfoldable pub close_all : List MappedArchive → World → World
close_all [] w = w
close_all (a ∷ l) w = close_all l (close (a, w)).1

unfoldable pub shutdown : MemoryMapManager × World → MemoryMapManager × World
unfolding close_all
shutdown (m, w) = if length m.archives == 0 then (m, w) else (
  record { archives = []; name_index = []; initialized_path = []; initialized_map_full = false },
  close_all m.archives w,
)

unfoldable pub same_flag : Bool → Bool → Bool
same_flag true b = b
same_flag false b = not b

module _ (dir : Directory) where
  unfoldable pub keep_bsa : List (List ℕ) → List (List ℕ)
  unfolding lower_ascii
  keep_bsa [] = []
  keep_bsa (p ∷ paths) =
      if same_bytes (lower_ascii (dir.extension p)) bsa_extension
      then p ∷ keep_bsa paths
      else keep_bsa paths

  unfoldable pub insert_path : List ℕ → List (List ℕ) → List (List ℕ)
  unfolding lower_ascii name_less
  insert_path p [] = p ∷ []
  insert_path p (q ∷ paths) =
      if name_less (lower_ascii (dir.filename q)) (lower_ascii (dir.filename p))
      then q ∷ insert_path p paths
      else p ∷ q ∷ paths

  unfoldable pub sort_paths : List (List ℕ) → List (List ℕ)
  unfolding insert_path
  sort_paths [] = []
  sort_paths (p ∷ paths) = insert_path p (sort_paths paths)

  -- One round of the loop, by what Open returned; an archive that is not kept is destroyed.
  unfoldable pub keep_archive :
      List ℕ → MemoryMapManager → Bool × MappedArchive × World → MemoryMapManager × World
  keep_archive name m (ok, a, w) =
      if not ok || is_some (find_name m.name_index name) then (m, (close (a, w)).1) else (
        record m {
          archives = m.archives ++ a ∷ [];
          name_index = (name, length m.archives) ∷ m.name_index;
        },
        w,
      )

  unfoldable pub load_archives :
      Bool → List (List ℕ) → MemoryMapManager → World → MemoryMapManager × World
  load_archives map_full [] m w = (m, w)
  load_archives map_full (p ∷ paths) m w =
      let opened = open_archive (dir.files p) map_full p new_archive w in
      let next = keep_archive (lower_ascii (dir.filename p)) m opened in
      load_archives map_full paths next.0 next.1

  -- The scan of a directory, for a manager that holds no archive.
  unfoldable pub scan : Bool → List ℕ → MemoryMapManager → World → Bool × MemoryMapManager × World
  unfolding load_archives sort_paths keep_bsa
  scan map_full path m w =
      let r = load_archives map_full (sort_paths (keep_bsa (dir.regular_files path))) m w in
      if length r.0.archives == 0
      then (false, r.0, r.1)
      else (true, record r.0 { initialized_path = path; initialized_map_full = map_full }, r.1)

  unfoldable pub initialize_at :
      Bool → Option (List ℕ) → MemoryMapManager → World → Bool × MemoryMapManager × World
  unfolding scan same_flag
  initialize_at map_full none m w = (false, m, w)
  initialize_at map_full (some path) m w =
      if not (length m.archives == 0)
      then (same_bytes m.initialized_path path && same_flag m.initialized_map_full map_full, m, w)
      else if not (dir.is_directory path)
      then (false, m, w)
      else scan map_full path m w

  -- The settings bEnableMmap, bBaselineMode and bWine decide whether archives are mapped.
  unfoldable pub initialize :
      Bool → Bool → Bool → List ℕ → MemoryMapManager → World → Bool × MemoryMapManager × World
  unfolding initialize_at
  initialize enable_mmap baseline wine data_path =
      initialize_at (enable_mmap && not baseline && not wine) (dir.normalize data_path)

unfoldable pub found_at : MemoryMapManager → Option ℕ → Option MappedArchive
found_at m none = none
found_at m (some i) = if ltb i (length m.archives) then get_elem? m.archives i else none

unfoldable pub find_by_name : MemoryMapManager → List ℕ → Option MappedArchive
unfolding found_at find_name lower_ascii
find_by_name m filename = found_at m (find_name m.name_index (lower_ascii filename))

unfoldable pub total_mapped_bytes : List MappedArchive → ℕ
total_mapped_bytes [] = 0
total_mapped_bytes (a ∷ l) =
    if is_some a.base then a.file_size + total_mapped_bytes l else total_mapped_bytes l
