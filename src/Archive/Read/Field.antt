-- ===== src/Archive/Read/Field.antt =====
-- MappedArchive::GetDeclaredDecompressedSize in Skyrim/src/BSAMemoryMap.cpp: its reads of an archive that is
-- mapped whole.
use faster_file_copy.Prelude.{
  ℕ, ◌+◌, ◌-◌, ◌≤◌, ◌<◌, ◌≡◌, refl, sym, ◌∙◌, inl, inr, Bool, true, false, Option, none, some, List,
  [], ◌∷◌, ltb, leb, ◌==◌, if◌then◌else◌, length, take, drop, get_or, u64_max, arith, Bool-cases,
  length-drop,
}
use faster_file_copy.Prelude.Words.{read_le, Bytes, Bytes-drop}
use faster_file_copy.Policy.Layout.{
  size_field_offset, is_usable_declared_size, decode_little_endian_size_lem,
}
use faster_file_copy.Archive.State.{FileSystem, MappedArchive}
use faster_file_copy.Archive.Read.{read_bytes, read_at, decode_size, resolve_at}

-- The little-endian number in the four bytes at an offset, 0 if they do not all lie in the archive.
abbrev pub size_at : List ℕ → ℕ → ℕ
size_at bytes offset = if leb (offset + 4) (length bytes) then read_le 4 (drop offset bytes) else 0

-- An archive whose file is mapped whole, and from which every copy succeeds.
pub record Mapped (fs : FileSystem) (a : MappedArchive) (bytes : List ℕ) : Type 0 where
  pub valid : a.valid ≡ true
  pub view : a.base ≡ some bytes
  pub whole : a.file_size ≡ length bytes
  pub fits : length bytes ≤ u64_max
  pub are_bytes : Bytes bytes
  pub no_fault : (offset size : ℕ) → fs.copy_faults offset size ≡ false

pub read_inside :
    (fs : FileSystem) (a : MappedArchive) (bytes : List ℕ) (offset size : ℕ)
    → Mapped fs a bytes
    → 0 < size
    → offset + size ≤ length bytes
    → read_at fs a offset true size ≡ some (take size (drop offset bytes))
unfolding read_at read_bytes
read_inside fs a bytes offset size m some_byte inside =
    let small : ltb (length bytes) size ≡ false = ground (arith, inside) in
    let low : ltb (length bytes - size) offset ≡ false = ground (arith, inside) in
    let full : (size == 0) ≡ false = ground (arith, some_byte) in
    rw (m.valid, m.view, m.whole, small, low, full, m.no_fault offset size) (ground arith)

pub read_outside :
    (fs : FileSystem) (a : MappedArchive) (bytes : List ℕ) (offset size : ℕ)
    → Mapped fs a bytes
    → length bytes < offset + size
    → read_at fs a offset true size ≡ none
unfolding read_at
read_outside fs a bytes offset size m outside = rw (m.whole) (ground (arith, outside))

decode-read_le : (p : List ℕ) → Bytes p → 4 ≤ length p → decode_size (some (take 4 p)) ≡ read_le 4 p
unfolding decode_size is_usable_declared_size
decode-read_le (a ∷ b ∷ c ∷ d ∷ p) h l =
    let e = decode_little_endian_size_lem a b c d h.0 h.1.0 h.1.1.0 h.1.1.1.0 in
    let same : read_le 4 (a ∷ b ∷ c ∷ d ∷ []) ≡ read_le 4 (a ∷ b ∷ c ∷ d ∷ p) =
      unfold read_le in refl in
    rw (e, same) (ground arith)
decode-read_le (a ∷ b ∷ c ∷ []) h l = absurd (omega arith)
decode-read_le (a ∷ b ∷ []) h l = absurd (omega arith)
decode-read_le (a ∷ []) h l = absurd (omega arith)
decode-read_le [] h l = absurd (omega arith)

resolve_at-size_at :
    (fs : FileSystem) (a : MappedArchive) (bytes : List ℕ) (offset : ℕ)
    → Mapped fs a bytes
    → resolve_at fs a (some offset) ≡ size_at bytes offset
unfolding resolve_at
resolve_at-size_at fs a bytes offset m = elim (Bool-cases (leb (offset + 4) (length bytes))) [
  | inl inside ↦
      let fits : offset + 4 ≤ length bytes = ground arith in
      let long : 4 ≤ length (drop offset bytes) = omega (arith, length-drop offset bytes) in
      rw (inside, read_inside fs a bytes offset 4 m (omega arith) fits)
        (decode-read_le (drop offset bytes) (Bytes-drop offset bytes m.are_bytes) long)
  | inr outside ↦
      let beyond : length bytes < offset + 4 = ground arith in
      rw (outside, read_outside fs a bytes offset 4 m beyond) (unfold decode_size in refl)
]

size_at-outside :
    (bytes : List ℕ) (offset : ℕ) → length bytes < offset + 4 → size_at bytes offset ≡ 0
size_at-outside bytes offset h =
    let outside : leb (offset + 4) (length bytes) ≡ false = ground (arith, h) in rw outside refl

pub resolve-size_at :
    (fs : FileSystem) (a : MappedArchive) (bytes : List ℕ) (o : Option ℕ) (offset : ℕ)
    → Mapped fs a bytes
    → o ≡ (if leb (offset + 4) (length bytes) then some offset else none)
    → resolve_at fs a o ≡ size_at bytes offset
resolve-size_at fs a bytes o offset m e = elim (Bool-cases (leb (offset + 4) (length bytes))) [
  | inl inside ↦
      let here : o ≡ some offset = e ∙ rw inside refl in
      rw here (resolve_at-size_at fs a bytes offset m)
  | inr outside ↦
      let nowhere : o ≡ none = e ∙ rw outside refl in
      let beyond : length bytes < offset + 4 = ground arith in
      rw nowhere (unfold resolve_at in sym (size_at-outside bytes offset beyond))
]

pub offset-plain :
    (start size len n : ℕ) (flag : Bool)
    → size ≡ len
    → flag ≡ false
    → size_field_offset start size flag n ≡ (if leb (start + 4) len then some start else none)
unfolding size_field_offset
offset-plain start size len n true s f = absurd (cc)
offset-plain start size len n false s f = rw s (ground arith)

pub offset-named :
    (start size len n : ℕ) (flag : Bool)
    → size ≡ len
    → flag ≡ true
    → len ≤ u64_max
    → 0 < n
    → n < 256
    → size_field_offset start size flag n
      ≡ (if leb (start + 1 + n + 4) len then some (start + 1 + n) else none)
unfolding size_field_offset
offset-named start size len n false s f fits named short = absurd (cc)
offset-named start size len n true s f fits named short = rw s (ground arith)

pub offset-unnamed :
    (start size : ℕ) (flag : Bool) → flag ≡ true → size_field_offset start size flag 0 ≡ none
unfolding size_field_offset
offset-unnamed start size true f = refl
offset-unnamed start size false f = absurd (cc)

pub byte-read_le : (p : List ℕ) → get_or (take 1 p) 0 0 ≡ read_le 1 p
unfolding read_le
byte-read_le [] = refl
byte-read_le (b ∷ p) = omega arith

pub read_le-outside :
    (offset : ℕ) (bytes : List ℕ) → length bytes ≤ offset → read_le 1 (drop offset bytes) ≡ 0
unfolding read_le
read_le-outside offset bytes h =
    by_rest (drop offset bytes) (omega (arith, length-drop offset bytes))
  where
    by_rest : (p : List ℕ) → length p ≡ 0 → read_le 1 p ≡ 0
    by_rest [] e = refl
    by_rest (b ∷ p) e = absurd (omega arith)
