-- ===== src/Archive/Open.antt =====
-- Skyrim/src/BSAMemoryMap.cpp: MappedArchive::ComputeFingerprint and MappedArchive::Open.
pub mod Finish
pub mod Resources
use faster_file_copy.Prelude.{
  ℕ, zero, suc, ◌+◌, ◌-◌, ◌*◌, ◌/◌, ◌%◌, ◌≤◌, ◌<◌, min, ◌≡◌, refl, Bool, true, false, not, ◌&&◌,
  ◌||◌, Option, none, some, List, [], ◌∷◌, ◌++◌, ltb, leb, ◌==◌, if◌then◌else◌, length, take, drop,
  bit_xor, u32_max, u64_max,
}
use faster_file_copy.Prelude.Words.{mul64, write_le}
use faster_file_copy.Archive.State.{
  FileSystem, MappedArchive, World, bsa_header_size, close, parse_header, is_some,
}

abbrev pub fnv_offset : ℕ
fnv_offset = 14695981039346656037

abbrev pub fnv_prime : ℕ
fnv_prime = 1099511628211

abbrev pub sample_size : ℕ
sample_size = 4096

unfoldable pub mix : ℕ → List ℕ → ℕ
mix hash [] = hash
mix hash (b ∷ bytes) = mix (mul64 (bit_xor hash b) fnv_prime) bytes

unfoldable pub mix_identity : ℕ → Option (ℕ × ℕ × ℕ) → ℕ
mix_identity hash none = hash
mix_identity hash (some (volume, high, low)) =
    mix (mix (mix hash (write_le 4 volume)) (write_le 4 high)) (write_le 4 low)

-- The bytes of one sample, from the view or else from the file.
unfoldable pub sample_at : FileSystem → MappedArchive → ℕ → ℕ → Option (List ℕ)
sample_at fs a offset size = elim a.base [
  | some bytes ↦ some (take size (drop offset bytes))
  | none ↦ if not (is_some a.file_handle) then none else elim (fs.read_file offset size) [
    | none ↦ none
    | some bytes ↦ if length bytes == size then some bytes else none
  ]
]

-- The loop over the sample offsets; `none` is `return false`.
unfoldable pub mix_samples : FileSystem → MappedArchive → ℕ → ℕ → ℕ → List ℕ → Option ℕ
mix_samples fs a size hash previous [] = some hash
mix_samples fs a size hash previous (offset ∷ offsets) =
    if offset == previous
    then mix_samples fs a size hash previous offsets
    else elim (sample_at fs a offset size) [
      | none ↦ none
      | some bytes ↦ mix_samples fs a size (mix (mix hash (write_le 8 offset)) bytes) offset offsets
    ]

unfoldable pub compute_fingerprint : FileSystem → MappedArchive → Bool × MappedArchive
compute_fingerprint fs a =
    if a.file_size == 0
    then (false, a)
    else (let sized = mix fnv_offset (write_le 8 a.file_size) in
        let hash =
          if is_some a.file_handle then mix_identity sized fs.file_information else sized in
        let size = min a.file_size sample_size in
        let middle =
          if ltb size a.file_size then min (a.file_size - size) (a.file_size / 2) else 0 in
        elim (mix_samples fs a size hash u64_max (0 ∷ middle ∷ (a.file_size - size) ∷ [])) [
          | none ↦ (false, a)
          | some sum ↦ (true, record a { fingerprint = if sum == 0 then 1 else sum })
        ])

-- Close, and `return false`.
unfoldable pub give_up : MappedArchive → World → Bool × MappedArchive × World
give_up a w = let c = close (a, w) in (false, c.0, c.1)

-- ParseHeader, ComputeFingerprint, and `valid_ = true` if both succeed.
unfoldable pub finish_open :
    FileSystem → List ℕ → MappedArchive → World → Bool × MappedArchive × World
unfolding give_up
finish_open fs header a w =
    let parsed = parse_header a header in
    let hashed = compute_fingerprint fs parsed.1 in
    if not parsed.0
    then give_up parsed.1 w
    else if not hashed.0
    then give_up hashed.1 w
    else (true, record hashed.1 { valid = true }, w)

-- The steps of Open, each by the answer of the Win32 call that it waits for.
unfoldable pub view_mapped :
    FileSystem → MappedArchive → World → Option (List ℕ) → Bool × MappedArchive × World
unfolding give_up finish_open
view_mapped fs a w none = give_up a w
view_mapped fs a w (some view) =
    finish_open fs view (record a { base = some view }) (record w { views = w.views + 1 })

unfoldable pub mapping_created :
    FileSystem → MappedArchive → World → Option ℕ → Bool × MappedArchive × World
unfolding give_up view_mapped
mapping_created fs a w none = give_up a w
mapping_created fs a w (some mh) =
    view_mapped fs (record a { map_handle = some mh }) (record w { handles = w.handles + 1 })
      fs.map_view

unfoldable pub header_read :
    FileSystem → MappedArchive → World → Option (List ℕ) → Bool × MappedArchive × World
unfolding give_up finish_open
header_read fs a w none = give_up a w
header_read fs a w (some header) =
    if length header == bsa_header_size then finish_open fs header a w else give_up a w

unfoldable pub size_known :
    FileSystem → Bool → MappedArchive → World → Option ℕ → Bool × MappedArchive × World
unfolding give_up mapping_created header_read
size_known fs map_full a w none = give_up a w
size_known fs map_full a w (some size) =
    let sized = record a { file_size = size } in
    if ltb size bsa_header_size || ltb u32_max size
    then give_up a w
    else if map_full
    then mapping_created fs sized w fs.create_mapping
    else header_read fs sized w fs.read_header

unfoldable pub file_opened :
    FileSystem → Bool → MappedArchive → World → Option ℕ → Bool × MappedArchive × World
unfolding size_known
file_opened fs map_full a w none = (false, a, w)
file_opened fs map_full a w (some fh) =
    size_known fs map_full (record a { file_handle = some fh })
      (record w { handles = w.handles + 1 }) fs.size_of_file

unfoldable pub open_archive :
    FileSystem → Bool → List ℕ → MappedArchive → World → Bool × MappedArchive × World
unfolding file_opened
open_archive fs map_full path a w =
    let c = close (a, w) in file_opened fs map_full (record c.0 { path = path }) c.1 fs.open_file
