-- ===== src/Policy/Layout.antt =====
-- Skyrim/src/CompressedEntryLayout.h: where the size of a compressed block stands.
use faster_file_copy.Prelude.{
  ℕ, ◌+◌, ◌-◌, ◌*◌, ◌/◌, ◌%◌, ◌^◌, ◌≤◌, ◌<◌, ◌≡◌, ◌↔◌, Bool, false, not, ◌&&◌, ◌||◌, Option, none,
  some, ltb, ◌==◌, if◌then◌else◌, u64_max, u32_mod, arith, bit_or, [], ◌∷◌, ◌∙◌,
}
use faster_file_copy.Prelude.Bits.{bit_or-disjoint}
use faster_file_copy.Prelude.Words.{read_le}

-- The last test, and the result behind it.
size_field_at : ℕ → ℕ → Option ℕ
size_field_at prefix archive_size =
    if ltb archive_size 4 || ltb (archive_size - 4) prefix then none else some prefix

unfoldable pub size_field_offset : ℕ → ℕ → Bool → ℕ → Option ℕ
unfolding size_field_at
size_field_offset start archive_size embedded name_length =
    if embedded
    then (let skip = 1 + name_length in
        if name_length == 0
        then none
        else if ltb (u64_max - skip) start
        then none
        else size_field_at (start + skip) archive_size)
    else size_field_at start archive_size

unfoldable pub is_usable_declared_size : ℕ → Bool
is_usable_declared_size size = not (size == 0)

-- Shifts of a byte, at 32 bits.
unfoldable pub decode_little_endian_size : ℕ → ℕ → ℕ → ℕ → ℕ
decode_little_endian_size b0 b1 b2 b3 =
    bit_or (bit_or (bit_or b0 (b1 * 2 ^ 8 % u32_mod)) (b2 * 2 ^ 16 % u32_mod))
      (b3 * 2 ^ 24 % u32_mod)

-- The size field is found exactly where the archive's size leaves room for it: behind the length
-- byte and the name, which must not be empty, in an archive with embedded names, and otherwise at
-- the block's start. The four bytes of the field lie inside the archive.
pub size_field_offset_exact :
    (start archive_size : ℕ) (embedded : Bool) (name_length offset : ℕ)
    → archive_size ≤ u64_max
    → name_length < 256
    → (size_field_offset start archive_size embedded name_length ≡ some offset) ↔ (
        (offset ≡ (if embedded then start + 1 + name_length else start))
        × ((embedded && name_length == 0) ≡ false)
        × (offset + 4 ≤ archive_size))
unfolding size_field_offset
size_field_offset_exact start archive_size embedded name_length offset h k =
    ((λ e. ground arith), (λ e. ground arith))

-- The decoded size is the little-endian number of the four bytes.
pub decode_little_endian_size_lem :
    (b0 b1 b2 b3 : ℕ)
    → b0 < 256
    → b1 < 256
    → b2 < 256
    → b3 < 256
    → decode_little_endian_size b0 b1 b2 b3 ≡ read_le 4 (b0 ∷ b1 ∷ b2 ∷ b3 ∷ [])
unfolding decode_little_endian_size read_le
decode_little_endian_size_lem b0 b1 b2 b3 h0 h1 h2 h3 =
    let e1 : b1 * 2 ^ 8 % u32_mod ≡ b1 * 2 ^ 8 = omega arith in
    let e2 : b2 * 2 ^ 16 % u32_mod ≡ b2 * 2 ^ 16 = omega arith in
    let e3 : b3 * 2 ^ 24 % u32_mod ≡ b3 * 2 ^ 24 = omega arith in
    rw
      (
        e1,
        e2,
        e3,
        bit_or-disjoint 8 b0 b1 (omega arith),
        bit_or-disjoint 16 (b0 + b1 * 2 ^ 8) b2 (omega arith),
        bit_or-disjoint 24 (b0 + b1 * 2 ^ 8 + b2 * 2 ^ 16) b3 (omega arith),
      )
      (omega arith)

-- Encoding a size in four little-endian bytes and decoding it gives the size.
pub decode-encode :
    (n : ℕ)
    → n < u32_mod
    → decode_little_endian_size (n % 256) (n / 2 ^ 8 % 256) (n / 2 ^ 16 % 256) (n / 2 ^ 24) ≡ n
unfolding read_le
decode-encode n h =
    decode_little_endian_size_lem _ _ _ _ (omega arith) (omega arith) (omega arith) (omega arith)
    ∙ omega arith
