-- ===== src/Format/Checksum.antt =====
-- Skyrim/src/CacheFormat.h, Checksum: XXH32 with seed 0 over a payload's bytes.
-- A null pointer is `none`. The counted loops run as often as the source's tests on `p` let them.
pub mod Lanes
pub mod Detect
pub mod Stripes
pub mod Merge
use faster_file_copy.Prelude.{
  ℕ, zero, suc, ◌+◌, ◌-◌, ◌*◌, ◌/◌, ◌%◌, ◌^◌, ◌≤◌, ◌<◌, ◌≡◌, bit_xor, List, [], ◌∷◌, Option, none,
  some, leb, if◌then◌else◌, length, drop, u32_mod, refl,
}
use faster_file_copy.Prelude.Words.{add32, mul32, sub32, rotl32, read_le}

abbrev pub p1 : ℕ
p1 = 0x9E3779B1

abbrev pub p2 : ℕ
p2 = 0x85EBCA77

abbrev pub p3 : ℕ
p3 = 0xC2B2AE3D

abbrev pub p4 : ℕ
p4 = 0x27D4EB2F

abbrev pub p5 : ℕ
p5 = 0x165667B1

unfoldable pub read32 : List ℕ → ℕ
read32 p = read_le 4 p

unfoldable pub round : ℕ → ℕ → ℕ
round acc input = mul32 (rotl32 (add32 acc (mul32 input p2)) 13) p1

-- The four accumulators v1 to v4 of the loop over 16-byte stripes.
pub record Accumulators : Type 0 where
  pub v1 : ℕ
  pub v2 : ℕ
  pub v3 : ℕ
  pub v4 : ℕ

unfoldable pub initial : Accumulators
initial = record { v1 = add32 p1 p2; v2 = p2; v3 = 0; v4 = sub32 0 p1 }

unfoldable pub stripe : Accumulators → List ℕ → Accumulators
stripe v p = record {
  v1 = round v.v1 (read32 p);
  v2 = round v.v2 (read32 (drop 4 p));
  v3 = round v.v3 (read32 (drop 4 (drop 4 p)));
  v4 = round v.v4 (read32 (drop 4 (drop 4 (drop 4 p))));
}

-- `p += 4` after each of the four reads.
abbrev pub skip_stripe : List ℕ → List ℕ
skip_stripe p = drop 4 (drop 4 (drop 4 (drop 4 p)))

-- do { … } while (p <= end - 16), with the rounds left: one for each whole stripe.
unfoldable pub stripes : ℕ → Accumulators → List ℕ → Accumulators × List ℕ
stripes zero v p = (v, p)
stripes (suc n) v p = stripes n (stripe v p) (skip_stripe p)

unfoldable pub merge : Accumulators → ℕ
merge v = add32 (add32 (add32 (rotl32 v.v1 1) (rotl32 v.v2 7)) (rotl32 v.v3 12)) (rotl32 v.v4 18)

unfoldable pub word_step : ℕ → ℕ → ℕ
word_step h w = mul32 (rotl32 (add32 h (mul32 w p3)) 17) p4

-- while (end - p >= 4), with the rounds left.
unfoldable pub words : ℕ → ℕ → List ℕ → ℕ × List ℕ
words zero h p = (h, p)
words (suc n) h p = words n (word_step h (read32 p)) (drop 4 p)

unfoldable pub byte_step : ℕ → ℕ → ℕ
byte_step h b = mul32 (rotl32 (add32 h (mul32 b p5)) 11) p1

-- while (p < end)
unfoldable pub tail_bytes : ℕ → List ℕ → ℕ
tail_bytes h [] = h
tail_bytes h (b ∷ p) = tail_bytes (byte_step h b) p

unfoldable pub avalanche : ℕ → ℕ
avalanche h =
    let a = bit_xor h (h / 2 ^ 15) in
    let b = mul32 a p2 in
    let c = bit_xor b (b / 2 ^ 13) in let d = mul32 c p3 in bit_xor d (d / 2 ^ 16)

-- The value of `h` before the length is added, and the bytes left.
unfoldable pub start : List ℕ → ℕ × List ℕ
unfolding stripes merge initial
start p =
    if leb 16 (length p)
    then (let (v, rest) = stripes (length p / 16) initial p in (merge v, rest))
    else (p5, p)

unfoldable pub finish : ℕ → ℕ → List ℕ → ℕ
unfolding words tail_bytes avalanche
finish size h p =
    let (h', rest) = words (length p / 4) (add32 h (size % u32_mod)) p in
    avalanche (tail_bytes h' rest)

unfoldable pub checksum_bytes : List ℕ → ℕ
unfolding start finish
checksum_bytes p = let (h, rest) = start p in finish (length p) h rest

-- A null pointer with a size other than 0 has checksum 0; with size 0 it stands for no bytes.
unfoldable pub checksum : Option (List ℕ) → ℕ → ℕ
unfolding checksum_bytes
checksum none size = if leb 1 size then 0 else checksum_bytes []
checksum (some p) size = checksum_bytes p

-- The reference vectors of Skyrim/tests/CacheFormatTests.cpp.
empty_vector : checksum none 0 ≡ 0x02CC5D05
unfolding checksum read32 read_le stripe round word_step byte_step
empty_vector = refl

abc_vector : checksum (some (b'a' ∷ b'b' ∷ b'c' ∷ [])) 3 ≡ 0x32D153FF
unfolding checksum read32 read_le stripe round word_step byte_step
abc_vector = refl
