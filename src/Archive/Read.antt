-- ===== src/Archive/Read.antt =====
-- Skyrim/src/BSAMemoryMap.cpp: MappedArchive::ReadAt and GetDeclaredDecompressedSize. Locks, and
-- failures to allocate, which make the latter return no size, are left out.
pub mod Memo
pub mod Inside
pub mod Field
pub mod Declared
use faster_file_copy.Prelude.{
  ℕ, zero, suc, ◌+◌, ◌-◌, ◌≤◌, ◌<◌, ◌≡◌, refl, Bool, true, false, not, ◌&&◌, ◌||◌, Option, none,
  some, List, [], ◌∷◌, ltb, leb, ◌==◌, if◌then◌else◌, length, take, drop, get_or, u32_max,
}
use faster_file_copy.Policy.Layout.{
  size_field_offset, is_usable_declared_size, decode_little_endian_size,
}
use faster_file_copy.Archive.State.{FileSystem, MappedArchive, is_some, has_embedded_file_names}

-- The bytes copied to the destination, or `none` for `false`; the flag tells a destination from a
-- null pointer.
unfoldable pub read_bytes : FileSystem → Option ℕ → Option (List ℕ) → ℕ → ℕ → Option (List ℕ)
read_bytes fs handle (some bytes) offset size =
    if fs.copy_faults offset size then none else some (take size (drop offset bytes))
read_bytes fs handle none offset size =
    if not (is_some handle) || ltb u32_max size then none else elim (fs.read_file offset size) [
      | none ↦ none
      | some bytes ↦ if length bytes == size then some bytes else none
    ]

unfoldable pub read_at : FileSystem → MappedArchive → ℕ → Bool → ℕ → Option (List ℕ)
unfolding read_bytes
read_at fs a offset destination size =
    if not a.valid
      || (ltb 0 size && not destination)
      || ltb a.file_size size
      || ltb (a.file_size - size) offset
    then none
    else if size == 0
    then some []
    else read_bytes fs a.file_handle a.base offset size

-- std::unordered_map::find and try_emplace.
unfoldable pub find_size : List (ℕ × ℕ) → ℕ → Option ℕ
find_size [] k = none
find_size ((j, v) ∷ m) k = if j == k then some v else find_size m k

unfoldable pub emplace_size : List (ℕ × ℕ) → ℕ → ℕ → List (ℕ × ℕ)
unfolding find_size
emplace_size m k v = if is_some (find_size m k) then m else (k, v) ∷ m

abbrev pub nonzero : ℕ → Option ℕ
nonzero v = if v == 0 then none else some v

-- The length of the embedded name, read only if the archive has such names.
unfoldable pub embedded_name_length : FileSystem → MappedArchive → ℕ → Option ℕ
embedded_name_length fs a start =
    if has_embedded_file_names a
    then elim (read_at fs a start true 1) [ none ↦ none | some bytes ↦ some (get_or bytes 0 0) ]
    else some 0

unfoldable pub decode_size : Option (List ℕ) → ℕ
unfolding is_usable_declared_size decode_little_endian_size
decode_size none = 0
decode_size (some bytes) =
    let candidate =
      decode_little_endian_size (get_or bytes 0 0) (get_or bytes 1 0) (get_or bytes 2 0)
        (get_or bytes 3 0) in
    if is_usable_declared_size candidate then candidate else 0

unfoldable pub resolve_at : FileSystem → MappedArchive → Option ℕ → ℕ
unfolding decode_size
resolve_at fs a none = 0
resolve_at fs a (some offset) = decode_size (read_at fs a offset true 4)

unfoldable pub resolve : FileSystem → MappedArchive → ℕ → ℕ → ℕ
unfolding resolve_at size_field_offset
resolve fs a start name_length =
    resolve_at fs a (size_field_offset start a.file_size (has_embedded_file_names a) name_length)

unfoldable pub remember : FileSystem → MappedArchive → ℕ → Option ℕ → Option ℕ × MappedArchive
unfolding resolve emplace_size
remember fs a start none =
    (none, record a { declared_sizes = emplace_size a.declared_sizes start 0 })
remember fs a start (some name_length) =
    let sizes = emplace_size a.declared_sizes start (resolve fs a start name_length) in
    (
      elim (find_size sizes start) [ none ↦ none | some v ↦ nonzero v ],
      record a { declared_sizes = sizes },
    )

unfoldable pub get_declared_decompressed_size :
    FileSystem → MappedArchive → ℕ → Option ℕ × MappedArchive
unfolding remember
get_declared_decompressed_size fs a start = elim (find_size a.declared_sizes start) [
  | some v ↦ (nonzero v, a)
  | none ↦ remember fs a start (embedded_name_length fs a start)
]
