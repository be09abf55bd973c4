-- ===== src/Prelude/Bits.antt =====
-- Exclusive or at variables, from its digit recursion, and the words that it keeps in range.
use Prim.Native.Nat.{
  ℕ, zero, suc, ◌+◌, ◌*◌, ◌/◌, ◌%◌, ◌^◌, ◌≤◌, ◌<◌, max, bit_xor, bit_or, digits, differ,
  bit_xor-bitwise, bit_or-bitwise,
}
use mathlib.Core.Path.{◌≡◌, refl, sym, ◌∙◌, ap}
use native.Mathlib.Nat.{div-div-eq-div-mul, mul_comm, pow-suc}
use native.Mathlib.Omega.{arith}

abbrev xor_digits : ℕ → ℕ → ℕ → ℕ
xor_digits = digits (λ b. b) differ

-- Any count of digits that covers the first number gives the same result.
xor_digits_cover : (k a b : ℕ) → a ≤ k → xor_digits k a b ≡ xor_digits a a b
xor_digits_cover k a b h = go k a a b h (omega arith)
  where
    go : (k l a b : ℕ) → a ≤ k → a ≤ l → xor_digits k a b ≡ xor_digits l a b
    go zero zero a b p q = refl
    go (suc k) zero zero b p q = refl
    go (suc k) zero (suc a) b p q = absurd (omega arith)
    go zero (suc l) zero b p q = refl
    go zero (suc l) (suc a) b p q = absurd (omega arith)
    go (suc k) (suc l) zero b p q = refl
    go (suc k) (suc l) (suc a) b p q =
        omega (arith, go k l (suc a / 2) (b / 2) (omega arith) (omega arith))

-- The lowest digit and the others, one by one.
pub bit_xor_low : (a b : ℕ) → bit_xor a b ≡ bit_xor (a / 2) (b / 2) * 2 + differ (a % 2) (b % 2)
bit_xor_low zero b = omega (arith, bit_xor-bitwise 0 b, bit_xor-bitwise 0 (b / 2))
bit_xor_low (suc a) b = omega (
  arith,
  bit_xor-bitwise (suc a) b,
  bit_xor-bitwise (suc a / 2) (b / 2),
  xor_digits_cover a (suc a / 2) (b / 2) (omega arith),
)

differ_bits : (x y : ℕ) → x < 2 → y < 2 → differ x y ≡ (x + y) % 2
differ_bits zero y p q = omega arith
differ_bits (suc zero) zero p q = refl
differ_bits (suc zero) (suc zero) p q = refl
differ_bits (suc zero) (suc (suc y)) p q = absurd (omega arith)
differ_bits (suc (suc x)) y p q = absurd (omega arith)

pub bit_xor_step : (a b : ℕ) → bit_xor a b ≡ bit_xor (a / 2) (b / 2) * 2 + (a % 2 + b % 2) % 2
bit_xor_step a b =
    omega (arith, bit_xor_low a b, differ_bits (a % 2) (b % 2) (omega arith) (omega arith))

-- The exclusive or of two numbers of w digits has at most w digits.
pub bit_xor-lt : (w a b : ℕ) → a < 2 ^ w → b < 2 ^ w → bit_xor a b < 2 ^ w
bit_xor-lt zero zero zero p q = omega arith
bit_xor-lt zero (suc a) b p q = absurd (omega arith)
bit_xor-lt zero zero (suc b) p q = absurd (omega arith)
bit_xor-lt (suc w) a b p q =
    omega (arith, bit_xor_step a b, bit_xor-lt w (a / 2) (b / 2) (omega arith) (omega arith))

-- x ^ (x >> (s + 1)), for e = 2 ^ s.
abbrev pub fold_right : ℕ → ℕ → ℕ
fold_right e x = bit_xor x (x / 2 / e)

div_swap : (x e : ℕ) → x / e / 2 ≡ x / 2 / e
div_swap x e =
    div-div-eq-div-mul x e 2 ∙ ap (λ d. x / d) (mul_comm e 2) ∙ sym (div-div-eq-div-mul x 2 e)

fold_right_step :
    (e x : ℕ) → fold_right e x ≡ fold_right e (x / 2) * 2 + (x % 2 + x / 2 / e % 2) % 2
fold_right_step e x =
    bit_xor_step x (x / 2 / e)
    ∙ ap (λ t. bit_xor (x / 2) t * 2 + (x % 2 + x / 2 / e % 2) % 2) (div_swap (x / 2) e)

-- Folding a number onto itself loses nothing.
pub fold_right_injective :
    (e w x y : ℕ) → x < 2 ^ w → y < 2 ^ w → fold_right e x ≡ fold_right e y → x ≡ y
fold_right_injective e zero x y p q h = omega arith
fold_right_injective e (suc w) x y p q h =
    let high : x / 2 ≡ y / 2 =
      fold_right_injective e w (x / 2) (y / 2) (omega arith) (omega arith)
        (omega (arith, fold_right_step e x, fold_right_step e y)) in
    omega (arith, fold_right_step e x, fold_right_step e y, ap (λ t. t / e % 2) high)

abbrev or_digits : ℕ → ℕ → ℕ → ℕ
or_digits = digits (λ b. b) max

or_digits_cover : (k l a b : ℕ) → a ≤ k → a ≤ l → or_digits k a b ≡ or_digits l a b
or_digits_cover zero zero a b p q = refl
or_digits_cover (suc k) zero zero b p q = refl
or_digits_cover (suc k) zero (suc a) b p q = absurd (omega arith)
or_digits_cover zero (suc l) zero b p q = refl
or_digits_cover zero (suc l) (suc a) b p q = absurd (omega arith)
or_digits_cover (suc k) (suc l) zero b p q = refl
or_digits_cover (suc k) (suc l) (suc a) b p q =
    omega (arith, or_digits_cover k l (suc a / 2) (b / 2) (omega arith) (omega arith))

pub bit_or_low : (a b : ℕ) → bit_or a b ≡ bit_or (a / 2) (b / 2) * 2 + max (a % 2) (b % 2)
bit_or_low zero b = omega (arith, bit_or-bitwise 0 b, bit_or-bitwise 0 (b / 2))
bit_or_low (suc a) b = omega (
  arith,
  bit_or-bitwise (suc a) b,
  bit_or-bitwise (suc a / 2) (b / 2),
  or_digits_cover a (suc a / 2) (suc a / 2) (b / 2) (omega arith) (omega arith),
)

-- Digits that do not overlap add up.
pub bit_or-disjoint : (k a b : ℕ) → a < 2 ^ k → bit_or a (b * 2 ^ k) ≡ a + b * 2 ^ k
bit_or-disjoint zero zero b p = omega (arith, bit_or-bitwise 0 (b * 2 ^ 0))
bit_or-disjoint zero (suc a) b p = absurd (omega arith)
bit_or-disjoint (suc k) a b p =
    let twice : b * 2 ^ suc k ≡ b * 2 ^ k * 2 = ap (λ t. b * t) (pow-suc 2 k) ∙ omega arith in
    rw twice (
      omega (
        arith,
        bit_or_low a (b * 2 ^ k * 2),
        ap (λ t. bit_or (a / 2) t) half,
        bit_or-disjoint k (a / 2) b (omega arith),
      ))
  where
    half : b * 2 ^ k * 2 / 2 ≡ b * 2 ^ k
    half = omega arith
