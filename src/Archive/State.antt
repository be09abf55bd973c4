-- ===== src/Archive/State.antt =====
-- Skyrim/src/BSAMemoryMap.h: the BSA header, the state of MappedArchive, and its Close.
use faster_file_copy.Prelude.{
  ℕ, ◌+◌, ◌-◌, ◌*◌, ◌/◌, Bool, true, false, not, ◌&&◌, ◌||◌, Option, none, some, List, [], ◌∷◌, ltb,
  ◌==◌, if◌then◌else◌, take, drop, bit_and,
}
use faster_file_copy.Format.Layout.{field_at}
use faster_file_copy.Format.Validate.{same_bytes}

-- BSA::Header
pub record BsaHeader : Type 0 where
  pub magic_bytes : List ℕ
  pub version : ℕ
  pub folder_offset : ℕ
  pub archive_flags : ℕ
  pub folder_count : ℕ
  pub file_count : ℕ
  pub total_folder_name_length : ℕ
  pub total_file_name_length : ℕ
  pub file_flags : ℕ

abbrev pub bsa_header_size : ℕ
bsa_header_size = 36

abbrev pub blank_bsa_header : BsaHeader
blank_bsa_header = record {
  magic_bytes = 0 ∷ 0 ∷ 0 ∷ 0 ∷ [];
  version = 0;
  folder_offset = 0;
  archive_flags = 0;
  folder_count = 0;
  file_count = 0;
  total_folder_name_length = 0;
  total_file_name_length = 0;
  file_flags = 0;
}

abbrev pub default_compressed_flag : ℕ
default_compressed_flag = 2 * 2

abbrev pub embed_file_names_flag : ℕ
embed_file_names_flag = 256

-- What Win32 answers for one archive file; a handle is a number other than INVALID_HANDLE_VALUE.
pub record FileSystem : Type 0 where
  -- CreateFileW
  pub open_file : Option ℕ
  -- GetFileSizeEx, for a size that is not negative
  pub size_of_file : Option ℕ
  -- CreateFileMappingW
  pub create_mapping : Option ℕ
  -- MapViewOfFile
  pub map_view : Option (List ℕ)
  -- ReadFile of the header from the file's start: the bytes that it delivers
  pub read_header : Option (List ℕ)
  -- GetFileInformationByHandle: the volume serial number and the two halves of the file index
  pub file_information : Option (ℕ × ℕ × ℕ)
  -- SetFilePointerEx and ReadFile, by offset and size
  pub read_file : ℕ → ℕ → Option (List ℕ)
  -- Whether a copy out of the mapped view faults, by offset and size
  pub copy_faults : ℕ → ℕ → Bool

pub record MappedArchive : Type 0 where
  pub path : List ℕ
  pub file_handle : Option ℕ
  pub map_handle : Option ℕ
  pub base : Option (List ℕ)
  pub file_size : ℕ
  pub fingerprint : ℕ
  pub header : BsaHeader
  pub default_compressed : Bool
  pub valid : Bool
  -- Resolved sizes by start offset; 0 stands for a failure.
  pub declared_sizes : List (ℕ × ℕ)

-- A default-constructed archive.
abbrev pub new_archive : MappedArchive
new_archive = record {
  path = [];
  file_handle = none;
  map_handle = none;
  base = none;
  file_size = 0;
  fingerprint = 0;
  header = blank_bsa_header;
  default_compressed = false;
  valid = false;
  declared_sizes = [];
}

-- The kernel objects that the process holds open.
pub record World : Type 0 where
  pub handles : ℕ
  pub views : ℕ

abbrev pub is_some {ℓ} : {A : Type ℓ} → Option A → Bool
is_some none = false
is_some (some a) = true

-- CloseHandle or UnmapViewOfFile, if there is something to give back.
abbrev pub give_back : Bool → ℕ → ℕ
give_back held n = if held then n - 1 else n

unfoldable pub close : MappedArchive × World → MappedArchive × World
close (a, w) = (
  record a {
    file_handle = none;
    map_handle = none;
    base = none;
    file_size = 0;
    fingerprint = 0;
    header = blank_bsa_header;
    default_compressed = false;
    valid = false;
    declared_sizes = [];
  },
  record {
    handles = give_back (is_some a.file_handle) (give_back (is_some a.map_handle) w.handles);
    views = give_back (is_some a.base) w.views;
  },
)

-- The move assignment `target = std::move(source)` of two archives.
unfoldable pub move_assign :
    MappedArchive → MappedArchive → World → MappedArchive × MappedArchive × World
unfolding close
move_assign target source w =
    let closed = close (target, w) in
    (
      source,
      record source {
        path = [];
        file_handle = none;
        map_handle = none;
        base = none;
        file_size = 0;
        fingerprint = 0;
        valid = false;
        declared_sizes = [];
      },
      closed.1,
    )

unfoldable pub has_embedded_file_names : MappedArchive → Bool
has_embedded_file_names a = not (bit_and a.header.archive_flags embed_file_names_flag == 0)

-- At: the bytes from the offset on, or `none` for a null pointer.
unfoldable pub at : MappedArchive → ℕ → ℕ → Option (List ℕ)
at a offset size = elim a.base [
  | none ↦ none
  | some bytes ↦
      if ltb a.file_size size || ltb (a.file_size - size) offset
      then none
      else some (drop offset bytes)
]

unfoldable pub decode_bsa_header : List ℕ → BsaHeader
unfolding field_at
decode_bsa_header p = record {
  magic_bytes = take 4 p;
  version = field_at 4 4 p;
  folder_offset = field_at 4 8 p;
  archive_flags = field_at 4 12 p;
  folder_count = field_at 4 16 p;
  file_count = field_at 4 20 p;
  total_folder_name_length = field_at 4 24 p;
  total_file_name_length = field_at 4 28 p;
  file_flags = field_at 4 32 p;
}

-- 'B' 'S' 'A' '\0'
abbrev pub bsa_magic : List ℕ
bsa_magic = 0x42 ∷ 0x53 ∷ 0x41 ∷ 0 ∷ []

abbrev pub max_files : ℕ
max_files = 1_000_000

abbrev pub max_folders : ℕ
max_folders = 250_000

-- The header is stored before it is checked.
unfoldable pub parse_header : MappedArchive → List ℕ → Bool × MappedArchive
parse_header a bytes =
    let h = decode_bsa_header bytes in
    let parsed = record a { header = h } in
    if not (same_bytes h.magic_bytes bsa_magic)
    then (false, parsed)
    else if not (h.version == 104) && not (h.version == 105)
    then (false, parsed)
    else if ltb h.folder_offset bsa_header_size || ltb a.file_size h.folder_offset
    then (false, parsed)
    else if ltb a.file_size (h.total_folder_name_length + h.total_file_name_length)
        || ltb max_files h.file_count
        || ltb max_folders h.folder_count
        || ltb (a.file_size / 4) h.file_count
    then (false, parsed)
    else (
      true,
      record parsed {
        default_compressed = not (bit_and h.archive_flags default_compressed_flag == 0);
      },
    )
