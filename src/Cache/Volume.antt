-- ===== src/Cache/Volume.antt =====
-- What the cache relies on of Win32 files: WriteFile, SetEndOfFile and FlushFileBuffers, and what a
-- restart may find after a crash. The library is used through this interface only.
use faster_file_copy.Prelude.{ℕ, ◌+◌, ◌≤◌, ◌≡◌, ◌⊎◌, List, [], length, take}
use faster_file_copy.Prelude.Splice.{slice, splice}

abbrev pub Apart : ℕ → ℕ → ℕ → ℕ → Type 0
Apart i n o m = (i + n ≤ o) ⊎ (o + m ≤ i)

-- A file cut to a size, or extended to it by zeros.
abbrev pub resize : List ℕ → ℕ → List ℕ
resize f size = take size (splice f size [])

pub record Volume : Type 1 where
  pub File : Type 0
  -- The bytes that a reader sees while the system runs.
  pub bytes : File → List ℕ
  -- The contents that a restart may find if the system crashes now.
  pub Image : File → List ℕ → Type 0
  pub write : File → ℕ → List ℕ → File
  -- A write that fails after so many bytes.
  pub torn : File → ℕ → List ℕ → ℕ → File
  pub set_size : File → ℕ → File
  pub flush : File → File
  pub bytes-write : (f : File) (o : ℕ) (b : List ℕ) → bytes (write f o b) ≡ splice (bytes f) o b
  pub bytes-torn :
      (f : File) (o : ℕ) (b : List ℕ) (got : ℕ)
      → bytes (torn f o b got) ≡ splice (bytes f) o (take got b)
  pub bytes-set_size : (f : File) (size : ℕ) → bytes (set_size f size) ≡ resize (bytes f) size
  pub bytes-flush : (f : File) → bytes (flush f) ≡ bytes f
  -- A range that every image has, with the same bytes, stays so under a write elsewhere, and under
  -- a cut behind it.
  pub write_keeps :
      (f : File) (o : ℕ) (b : List ℕ) (i n : ℕ) (c : List ℕ)
      → Apart i n o (length b)
      → ((img : List ℕ) → Image f img → (slice i n img ≡ c) × (i + n ≤ length img))
      → (img : List ℕ) → Image (write f o b) img
      → (slice i n img ≡ c) × (i + n ≤ length img)
  pub torn_keeps :
      (f : File) (o : ℕ) (b : List ℕ) (got i n : ℕ) (c : List ℕ)
      → Apart i n o (length b)
      → ((img : List ℕ) → Image f img → (slice i n img ≡ c) × (i + n ≤ length img))
      → (img : List ℕ) → Image (torn f o b got) img
      → (slice i n img ≡ c) × (i + n ≤ length img)
  pub set_size_keeps :
      (f : File) (size i n : ℕ) (c : List ℕ)
      → i + n ≤ size
      → ((img : List ℕ) → Image f img → (slice i n img ≡ c) × (i + n ≤ length img))
      → (img : List ℕ) → Image (set_size f size) img
      → (slice i n img ≡ c) × (i + n ≤ length img)
  pub flush_settles : (f : File) (img : List ℕ) → Image (flush f) img → img ≡ bytes f
  -- A write into the first disk sector happens as a whole or not at all.
  pub sector_atomic :
      (f : File) (b c : List ℕ)
      → length b ≤ 512
      → ((img : List ℕ) → Image f img → (slice 0 (length b) img ≡ c) × (length b ≤ length img))
      → (img : List ℕ) → Image (write f 0 b) img
      → ((slice 0 (length b) img ≡ c) ⊎ (slice 0 (length b) img ≡ b)) × (length b ≤ length img)
