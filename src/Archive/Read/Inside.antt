-- ===== src/Archive/Read/Inside.antt =====
-- ReadAt stays inside the archive.
use faster_file_copy.Prelude.{
  ℕ, ◌+◌, ◌≤◌, ◌≡◌, Bool, true, Option, none, some, List, length, drop, length-take, length-drop,
  arith,
}
use faster_file_copy.Archive.State.{FileSystem, MappedArchive}
use faster_file_copy.Archive.Read.{read_bytes, read_at}

-- A view, if there is one, maps the whole file.
abbrev pub ViewWhole : Option (List ℕ) → ℕ → Type 0
ViewWhole none size = Unit
ViewWhole (some bytes) size = length bytes ≡ size

length-read_bytes :
    (fs : FileSystem) (handle : Option ℕ) (base : Option (List ℕ)) (file_size offset size : ℕ)
    (got : List ℕ)
    → ViewWhole base file_size
    → offset + size ≤ file_size
    → read_bytes fs handle base offset size ≡ some got
    → length got ≡ size
unfolding read_bytes
length-read_bytes fs handle none file_size offset size got v h e = ground arith
length-read_bytes fs handle (some bytes) file_size offset size got v h e =
    ground (arith, length-take size (drop offset bytes), length-drop offset bytes)

-- A read succeeds only on a valid archive and for a range inside the file, and delivers as many
-- bytes as were asked for.
pub read_at-inside :
    (fs : FileSystem) (a : MappedArchive) (offset size : ℕ) (destination : Bool) (got : List ℕ)
    → ViewWhole a.base a.file_size
    → read_at fs a offset destination size ≡ some got
    → (a.valid ≡ true) × (offset + size ≤ a.file_size) × (length got ≡ size)
unfolding read_at
read_at-inside fs a offset size destination got v h = (
  ground arith,
  ground arith,
  ground (arith, length-read_bytes fs a.file_handle a.base a.file_size offset size got v),
)
