-- ===== src/Archive/Read/Declared.antt =====
-- MappedArchive::GetDeclaredDecompressedSize in Skyrim/src/BSAMemoryMap.cpp: the answer in terms of the
-- archive's bytes.
use faster_file_copy.Prelude.{
  ℕ, zero, suc, ◌+◌, ◌≤◌, ◌<◌, ◌≡◌, refl, sym, ap, ◌∙◌, inl, inr, Bool, true, false, List, [], ◌∷◌,
  ltb, ◌==◌, if◌then◌else◌, length, drop, All, arith, Bool-cases,
}
use faster_file_copy.Prelude.Words.{read_le, read_le-lt, Bytes-drop}
use faster_file_copy.Policy.Layout.{size_field_offset}
use faster_file_copy.Archive.State.{FileSystem, MappedArchive, has_embedded_file_names}
use faster_file_copy.Archive.Read.{
  nonzero, embedded_name_length, resolve_at, resolve, get_declared_decompressed_size,
}
use faster_file_copy.Archive.Read.Memo.{declared, Coherent, declared-memo, get_declared-Answers}
use faster_file_copy.Archive.Read.Field.{
  size_at, Mapped, read_inside, read_outside, resolve-size_at, offset-plain, offset-named,
  offset-unnamed, byte-read_le, read_le-outside,
}

-- The size that an archive declares for the compressed block at `start`, 0 for none: the number at the
-- block's start, or in an archive with embedded names behind a length byte and a name that is not empty.
abbrev pub declared_size : List ℕ → Bool → ℕ → ℕ
declared_size bytes false start = size_at bytes start
declared_size bytes true start =
    let name_length = read_le 1 (drop start bytes) in
    if name_length == 0 then 0 else size_at bytes (start + 1 + name_length)

module _ (fs : FileSystem) (a : MappedArchive) (bytes : List ℕ) (start : ℕ)
    (m : Mapped fs a bytes) where
  resolve-field :
      (n : ℕ)
      → resolve fs a start n
        ≡ resolve_at fs a (size_field_offset start a.file_size (has_embedded_file_names a) n)
  unfolding resolve
  resolve-field n = refl

  declared-plain :
      has_embedded_file_names a ≡ false → declared fs a start ≡ declared_size bytes false start
  unfolding embedded_name_length
  declared-plain e =
      let place = offset-plain start a.file_size (length bytes) 0 _ m.whole e in
      let found = resolve-field 0 ∙ resolve-size_at fs a bytes _ start m place in
      rw (declared, e) found

  resolve-unnamed : has_embedded_file_names a ≡ true → resolve fs a start 0 ≡ 0
  resolve-unnamed e =
      resolve-field 0
      ∙ ap (resolve_at fs a) (offset-unnamed start a.file_size _ e)
      ∙ (unfold resolve_at in refl)

  resolve-named :
      (n : ℕ)
      → has_embedded_file_names a ≡ true
      → 0 < n
      → n < 256
      → resolve fs a start n ≡ size_at bytes (start + 1 + n)
  resolve-named n e named short =
      let place = offset-named start a.file_size (length bytes) n _ m.whole e m.fits named short in
      resolve-field n ∙ resolve-size_at fs a bytes _ (start + 1 + n) m place

  resolve-declared_size :
      (n : ℕ)
      → has_embedded_file_names a ≡ true
      → n ≡ read_le 1 (drop start bytes)
      → resolve fs a start n ≡ declared_size bytes true start
  resolve-declared_size zero e is = rw (← is) (resolve-unnamed e)
  resolve-declared_size (suc n) e is =
      let short = read_le-lt 1 (drop start bytes) (Bytes-drop start bytes m.are_bytes) in
      let full : (suc n == 0) ≡ false = ground arith in
      rw (← is, full) (resolve-named (suc n) e (omega arith) (omega (arith, is, short)))

  declared-named :
      has_embedded_file_names a ≡ true → declared fs a start ≡ declared_size bytes true start
  unfolding embedded_name_length
  declared-named e = elim (Bool-cases (ltb start (length bytes))) [
    | inl inside ↦
        let fits : start + 1 ≤ length bytes = ground arith in
        rw (declared, e, read_inside fs a bytes start 1 m (omega arith) fits)
          (resolve-declared_size _ e (byte-read_le (drop start bytes)))
    | inr outside ↦
        let beyond : length bytes < start + 1 = ground arith in
        rw
          (
            declared,
            e,
            read_outside fs a bytes start 1 m beyond,
            read_le-outside start bytes (omega (arith, beyond)),
          )
          refl
  ]

  declared-declared_size :
      declared fs a start ≡ declared_size bytes (has_embedded_file_names a) start
  declared-declared_size = elim (Bool-cases (has_embedded_file_names a)) [
    | inl embedded ↦ declared-named embedded ∙ rw embedded refl
    | inr plain ↦ declared-plain plain ∙ rw plain refl
  ]

-- A memo of sizes that the archive declares.
abbrev pub Remembers : List ℕ → Bool → List (ℕ × ℕ) → Type 0
Remembers bytes embedded sizes = All (λ (r : ℕ × ℕ). r.1 ≡ declared_size bytes embedded r.0) sizes

All_declared :
    (f g : ℕ → ℕ) (sizes : List (ℕ × ℕ))
    → ((k : ℕ) → f k ≡ g k)
    → All (λ (r : ℕ × ℕ). r.1 ≡ f r.0) sizes
    → All (λ (r : ℕ × ℕ). r.1 ≡ g r.0) sizes
All_declared f g [] same h = tt
All_declared f g (r ∷ sizes) same h = (h.0 ∙ same r.0, All_declared f g sizes same h.1)

declared-kept :
    (fs : FileSystem) (a b : MappedArchive) (start : ℕ)
    → b ≡ record a { declared_sizes = b.declared_sizes }
    → declared fs b start ≡ declared fs a start
declared-kept fs a b start e =
    ap (λ (x : MappedArchive). declared fs x start) e ∙ declared-memo fs a b.declared_sizes start

-- For a valid archive whose file is mapped whole and read without a fault, with a memo of sizes that it
-- declares: the answer is the little-endian number in the four bytes at the start of the block, or, if the archive
-- has embedded names, in those behind the length byte there and a name of that many bytes. There is no
-- answer if the number or the length of the name is 0, or if the bytes to read do not all lie in the
-- file. The memo again holds sizes that the archive declares, and nothing else of the archive changes.
pub get_declared-declared_size :
    (fs : FileSystem) (a : MappedArchive) (bytes : List ℕ) (start : ℕ)
    → Mapped fs a bytes
    → Remembers bytes (has_embedded_file_names a) a.declared_sizes
    → let r = get_declared_decompressed_size fs a start in
      (r.0 ≡ nonzero (declared_size bytes (has_embedded_file_names a) start))
      × Remembers bytes (has_embedded_file_names a) r.1.declared_sizes
      × (r.1 ≡ record a { declared_sizes = r.1.declared_sizes })
get_declared-declared_size fs a bytes start m memo =
    let spec = declared_size bytes (has_embedded_file_names a) in
    let is = λ (k : ℕ). declared-declared_size fs a bytes k m in
    let coherent : Coherent fs a =
      All_declared spec (declared fs a) a.declared_sizes (λ k. sym (is k)) memo in
    let (answer, kept, only_memo) = get_declared-Answers fs a start coherent in
    let b = (get_declared_decompressed_size fs a start).1 in
    (
      answer ∙ ap nonzero (is start),
      All_declared (declared fs b) spec b.declared_sizes
          (λ k. declared-kept fs a b k only_memo ∙ is k) kept,
      only_memo,
    )
