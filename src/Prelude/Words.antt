-- ===== src/Prelude/Words.antt =====
-- Unsigned arithmetic at 32 and 64 bits, std::rotl, and little-endian reads from a byte list.
use Prim.Native.Nat.{ℕ, zero, suc, ◌+◌, ◌-◌, ◌*◌, ◌/◌, ◌%◌, ◌^◌, ◌<◌}
use mathlib.Core.Path.{◌≡◌, refl}
use mathlib.Core.List.{List, [], ◌∷◌, ◌++◌}
use native.Mathlib.Omega.{arith}
use faster_file_copy.Prelude.Lists.{length, drop, All}
use faster_file_copy.Prelude.Tests.{u32_mod, u64_mod}

abbrev pub add32 : ℕ → ℕ → ℕ
add32 a b = (a + b) % u32_mod

abbrev pub mul32 : ℕ → ℕ → ℕ
mul32 a b = a * b % u32_mod

-- `a - b` on std::uint32_t wraps.
abbrev pub sub32 : ℕ → ℕ → ℕ
sub32 a b = (a + u32_mod - b) % u32_mod

abbrev pub add64 : ℕ → ℕ → ℕ
add64 a b = (a + b) % u64_mod

abbrev pub sub64 : ℕ → ℕ → ℕ
sub64 a b = (a + u64_mod - b) % u64_mod

-- std::rotl of a 32-bit word by 0 < k < 32.
abbrev pub rotl32 : ℕ → ℕ → ℕ
rotl32 x k = x * 2 ^ k % u32_mod + x / 2 ^ (32 - k)

-- A memcpy of n bytes into an integer, on the little-endian targets of the program.
unfoldable pub read_le : ℕ → List ℕ → ℕ
read_le zero p = 0
read_le (suc n) [] = 0
read_le (suc n) (b ∷ p) = b + 256 * read_le n p

abbrev pub Bytes : List ℕ → Type 0
Bytes p = All (λ b. b < 256) p

pub read_le-lt : (n : ℕ) (p : List ℕ) → Bytes p → read_le n p < 256 ^ n
unfolding read_le
read_le-lt zero p h = omega arith
read_le-lt (suc n) [] h = grind (arith, read_le-lt n [] h)
read_le-lt (suc n) (b ∷ p) h = omega (arith, read_le-lt n p h.1)

pub Bytes-drop : (n : ℕ) (p : List ℕ) → Bytes p → Bytes (drop n p)
Bytes-drop zero p h = h
Bytes-drop (suc n) [] h = h
Bytes-drop (suc n) (b ∷ p) h = Bytes-drop n p h.1

abbrev pub mul64 : ℕ → ℕ → ℕ
mul64 a b = a * b % u64_mod

-- The n bytes of an integer in memory.
unfoldable pub write_le : ℕ → ℕ → List ℕ
write_le zero v = []
write_le (suc n) v = v % 256 ∷ write_le n (v / 256)

pub length-write_le : (n v : ℕ) → length (write_le n v) ≡ n
unfolding write_le
length-write_le zero v = refl
length-write_le (suc n) v = omega (arith, length-write_le n (v / 256))

-- Writing an integer that fits and reading it back, with anything behind it.
pub read_le-write_le :
    (n v : ℕ) (rest : List ℕ) → v < 256 ^ n → read_le n (write_le n v ++ rest) ≡ v
unfolding read_le write_le
read_le-write_le zero v rest h = omega arith
read_le-write_le (suc n) v rest h =
    let back = read_le-write_le n (v / 256) rest (omega arith) in omega (arith, back)

pub Bytes-write_le : (n v : ℕ) → Bytes (write_le n v)
unfolding write_le
Bytes-write_le zero v = tt
Bytes-write_le (suc n) v = (omega arith, Bytes-write_le n (v / 256))
