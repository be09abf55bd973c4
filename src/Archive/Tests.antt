-- ===== src/Archive/Tests.antt =====
-- Runs of the archive code on a small archive, and the witnesses of its theorems.
use faster_file_copy.Prelude.{
  ℕ, ◌+◌, ◌≤◌, ◌≡◌, refl, true, false, none, some, List, [], ◌∷◌, length, arith,
}
use faster_file_copy.Archive.State.{
  decode_bsa_header, has_embedded_file_names, FileSystem, MappedArchive, World, new_archive,
  blank_bsa_header, at, parse_header,
}
use faster_file_copy.Archive.Open.{open_archive, compute_fingerprint, mix_samples, sample_at}
use faster_file_copy.Archive.Open.Resources.{open_archive-Attempt}
use faster_file_copy.Archive.Open.Finish.{Attempt}
use faster_file_copy.Archive.Manager.{
  Directory, MemoryMapManager, lower_ascii, initialize, find_by_name,
}
use faster_file_copy.Archive.Manager.Kept.{Kept, initialize-Kept}
use faster_file_copy.Archive.Read.{
  nonzero, embedded_name_length, read_at, get_declared_decompressed_size,
}
use faster_file_copy.Archive.Read.Inside.{read_at-inside}
use faster_file_copy.Archive.Read.Field.{Mapped}
use faster_file_copy.Archive.Read.Declared.{declared_size, Remembers, get_declared-declared_size}

-- A BSA of 48 bytes: its header (version 105, default compressed, embedded names), then a
-- compressed file at 36 with a name of 2 letters and the declared size 5.
abbrev small_file : List ℕ
small_file =
    0x42 ∷ 0x53 ∷ 0x41 ∷ 0 ∷ 105 ∷ 0 ∷ 0 ∷ 0 ∷ 36 ∷ 0 ∷ 0 ∷ 0 ∷ 4 ∷ 1 ∷ 0 ∷ 0 ∷ 1 ∷ 0 ∷ 0 ∷ 0 ∷ 1
    ∷ 0 ∷ 0 ∷ 0 ∷ 0 ∷ 0 ∷ 0 ∷ 0 ∷ 3 ∷ 0 ∷ 0 ∷ 0 ∷ 0 ∷ 0 ∷ 0 ∷ 0 ∷ 2 ∷ 97 ∷ 98 ∷ 5 ∷ 0 ∷ 0 ∷ 0 ∷ 120
    ∷ 1 ∷ 2 ∷ 3 ∷ 4 ∷ []

abbrev small_files : FileSystem
small_files = record {
  open_file = some 7;
  size_of_file = some 48;
  create_mapping = some 8;
  map_view = some small_file;
  read_header = none;
  file_information = some (1, 2, 3);
  read_file = λ offset size. none;
  copy_faults = λ offset size. false;
}

abbrev no_objects : World
no_objects = record { handles = 0; views = 0 }

abbrev small_archive : MappedArchive
small_archive = (open_archive small_files true [] new_archive no_objects).1

small_archive-opens : (open_archive small_files true [] new_archive no_objects).0 ≡ true
unfolding open_archive parse_header decode_bsa_header compute_fingerprint mix_samples sample_at
small_archive-opens = refl

open_archive-Attempt_example :
    Attempt 0 0 small_files (open_archive small_files true [] new_archive no_objects)
open_archive-Attempt_example =
    open_archive-Attempt 0 0 small_files true [] new_archive no_objects
      (record { handles_balance = refl; views_balance = refl })

abbrev opened : MappedArchive
opened = record {
  path = [];
  file_handle = some 7;
  map_handle = some 8;
  base = some small_file;
  file_size = 48;
  fingerprint = 1;
  header = record blank_bsa_header { archive_flags = 260 };
  default_compressed = true;
  valid = true;
  declared_sizes = [];
}

at-last : at opened 44 4 ≡ some (1 ∷ 2 ∷ 3 ∷ 4 ∷ [])
unfolding at
at-last = refl

at-outside : at opened 45 4 ≡ none
unfolding at
at-outside = refl

abbrev first_bytes : List ℕ
first_bytes = 2 ∷ 97 ∷ 98 ∷ []

opened-reads : read_at small_files opened 36 true 3 ≡ some first_bytes
unfolding read_at
opened-reads = refl

opened-declares : (get_declared_decompressed_size small_files opened 36).0 ≡ some 5
unfolding get_declared_decompressed_size embedded_name_length has_embedded_file_names read_at
opened-declares = refl

read_at-inside_example : (opened.valid ≡ true) × (36 + 3 ≤ 48) × (length first_bytes ≡ 3)
read_at-inside_example = read_at-inside small_files opened 36 3 true first_bytes refl opened-reads

opened-Mapped : Mapped small_files opened small_file
opened-Mapped = record {
  valid = refl;
  view = refl;
  whole = refl;
  fits = omega arith;
  are_bytes = ground arith;
  no_fault = λ offset size. refl;
}

get_declared-declared_size_example :
    let r = get_declared_decompressed_size small_files opened 36 in
    (r.0 ≡ nonzero (declared_size small_file (has_embedded_file_names opened) 36))
    × Remembers small_file (has_embedded_file_names opened) r.1.declared_sizes
    × (r.1 ≡ record opened { declared_sizes = r.1.declared_sizes })
get_declared-declared_size_example =
    get_declared-declared_size small_files opened small_file 36 opened-Mapped tt

-- A folder with one archive under two spellings of its name.
abbrev data_folder : Directory
data_folder = record {
  normalize = λ p. some p;
  is_directory = λ p. true;
  regular_files = λ p. (97 ∷ []) ∷ (65 ∷ []) ∷ [];
  filename = λ p. p;
  extension = λ p. 46 ∷ 66 ∷ 115 ∷ 97 ∷ [];
  files = λ p. small_files;
}

abbrev new_manager : MemoryMapManager
new_manager = record {
  archives = [];
  name_index = [];
  initialized_path = [];
  initialized_map_full = false;
}

lower_ascii_name : lower_ascii (65 ∷ 46 ∷ 66 ∷ []) ≡ 97 ∷ 46 ∷ 98 ∷ []
unfolding lower_ascii
lower_ascii_name = refl

new_manager-Kept : Kept 0 0 new_manager no_objects
new_manager-Kept = record { handles = refl; views = refl; open_archives = tt; in_bounds = tt }

initialize-Kept_example :
    let r = initialize data_folder true false false [] new_manager no_objects in Kept 0 0 r.1 r.2
initialize-Kept_example =
    initialize-Kept 0 0 data_folder true false false [] new_manager no_objects new_manager-Kept

-- A manager with the opened archive, under the name "a".
abbrev loaded_manager : MemoryMapManager
loaded_manager = record {
  archives = opened ∷ [];
  name_index = (97 ∷ [], 0) ∷ [];
  initialized_path = [];
  initialized_map_full = true;
}

abbrev loaded_world : World
loaded_world = record { handles = 2; views = 1 }

loaded_manager-Kept : Kept 0 0 loaded_manager loaded_world
loaded_manager-Kept = record {
  handles = refl;
  views = refl;
  open_archives = (refl, tt);
  in_bounds = (omega arith, tt);
}

finds-upper : find_by_name loaded_manager (65 ∷ []) ≡ some opened
unfolding find_by_name
finds-upper = refl
