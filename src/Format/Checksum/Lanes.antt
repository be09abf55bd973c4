-- ===== src/Format/Checksum/Lanes.antt =====
-- Each mixing step of the checksum loses nothing.
use faster_file_copy.Prelude.{ℕ, ◌/◌, ◌^◌, ◌<◌, ◌≡◌, arith, bit_xor, u32_mod, ◌∙◌, ap, sym}
use faster_file_copy.Prelude.Bits.{fold_right_injective, bit_xor-lt}
use faster_file_copy.Prelude.Words.{add32, mul32, rotl32}
use faster_file_copy.Format.Checksum.{
  p1, p2, p3, p4, p5, round, word_step, byte_step, merge, Accumulators, avalanche,
}

mul_p1_injective : (a b : ℕ) → a < u32_mod → b < u32_mod → mul32 a p1 ≡ mul32 b p1 → a ≡ b
mul_p1_injective a b p q h = omega arith

mul_p2_injective : (a b : ℕ) → a < u32_mod → b < u32_mod → mul32 a p2 ≡ mul32 b p2 → a ≡ b
mul_p2_injective a b p q h = omega arith

mul_p3_injective : (a b : ℕ) → a < u32_mod → b < u32_mod → mul32 a p3 ≡ mul32 b p3 → a ≡ b
mul_p3_injective a b p q h = omega arith

mul_p4_injective : (a b : ℕ) → a < u32_mod → b < u32_mod → mul32 a p4 ≡ mul32 b p4 → a ≡ b
mul_p4_injective a b p q h = omega arith

mul_p5_injective : (a b : ℕ) → a < u32_mod → b < u32_mod → mul32 a p5 ≡ mul32 b p5 → a ≡ b
mul_p5_injective a b p q h = omega arith

pub round-lt : (acc i : ℕ) → round acc i < u32_mod
unfolding round
round-lt acc i = omega arith

rotated_by_13 : (a b i j : ℕ) → round a i ≡ round b j → add32 a (mul32 i p2) ≡ add32 b (mul32 j p2)
unfolding round
rotated_by_13 a b i j h =
    let r : rotl32 (add32 a (mul32 i p2)) 13 ≡ rotl32 (add32 b (mul32 j p2)) 13 =
      mul_p1_injective _ _ (omega arith) (omega arith) h in
    omega arith

pub round_acc_injective : (a b i : ℕ) → a < u32_mod → b < u32_mod → round a i ≡ round b i → a ≡ b
round_acc_injective a b i p q h = omega (arith, rotated_by_13 a b i i h)

pub round_input_injective : (a i j : ℕ) → i < u32_mod → j < u32_mod → round a i ≡ round a j → i ≡ j
round_input_injective a i j p q h =
    mul_p2_injective i j p q (omega (arith, rotated_by_13 a a i j h))

pub word_step-lt : (h w : ℕ) → word_step h w < u32_mod
unfolding word_step
word_step-lt h w = omega arith

rotated_by_17 :
    (a b i j : ℕ) → word_step a i ≡ word_step b j → add32 a (mul32 i p3) ≡ add32 b (mul32 j p3)
unfolding word_step
rotated_by_17 a b i j h =
    let r : rotl32 (add32 a (mul32 i p3)) 17 ≡ rotl32 (add32 b (mul32 j p3)) 17 =
      mul_p4_injective _ _ (omega arith) (omega arith) h in
    omega arith

pub word_step_acc_injective :
    (a b i : ℕ) → a < u32_mod → b < u32_mod → word_step a i ≡ word_step b i → a ≡ b
word_step_acc_injective a b i p q h = omega (arith, rotated_by_17 a b i i h)

pub word_step_input_injective :
    (a i j : ℕ) → i < u32_mod → j < u32_mod → word_step a i ≡ word_step a j → i ≡ j
word_step_input_injective a i j p q h =
    mul_p3_injective i j p q (omega (arith, rotated_by_17 a a i j h))

pub byte_step-lt : (h b : ℕ) → byte_step h b < u32_mod
unfolding byte_step
byte_step-lt h b = omega arith

rotated_by_11 :
    (a b i j : ℕ) → byte_step a i ≡ byte_step b j → add32 a (mul32 i p5) ≡ add32 b (mul32 j p5)
unfolding byte_step
rotated_by_11 a b i j h =
    let r : rotl32 (add32 a (mul32 i p5)) 11 ≡ rotl32 (add32 b (mul32 j p5)) 11 =
      mul_p1_injective _ _ (omega arith) (omega arith) h in
    omega arith

pub byte_step_acc_injective :
    (a b i : ℕ) → a < u32_mod → b < u32_mod → byte_step a i ≡ byte_step b i → a ≡ b
byte_step_acc_injective a b i p q h = omega (arith, rotated_by_11 a b i i h)

pub byte_step_input_injective :
    (a i j : ℕ) → i < u32_mod → j < u32_mod → byte_step a i ≡ byte_step a j → i ≡ j
byte_step_input_injective a i j p q h =
    mul_p5_injective i j p q (omega (arith, rotated_by_11 a a i j h))

pub merge-lt : (v : Accumulators) → merge v < u32_mod
unfolding merge
merge-lt v = omega arith

-- h ^= h >> k for the three shifts that the source uses.
shift_injective :
    (e s x y : ℕ)
    → ((t : ℕ) → t / s ≡ t / 2 / e)
    → x < u32_mod
    → y < u32_mod
    → bit_xor x (x / s) ≡ bit_xor y (y / s)
    → x ≡ y
shift_injective e s x y split p q h =
    fold_right_injective e 32 x y p q
      (sym (ap (bit_xor x) (split x)) ∙ h ∙ ap (bit_xor y) (split y))

pub shift-lt : (s x : ℕ) → x < u32_mod → bit_xor x (x / s) < u32_mod
shift-lt s x p = bit_xor-lt 32 x (x / s) p (grind arith)

pub avalanche_injective : (x y : ℕ) → x < u32_mod → y < u32_mod → avalanche x ≡ avalanche y → x ≡ y
unfolding avalanche
avalanche_injective x y p q h =
    shift_injective (2 ^ 14) (2 ^ 15) x y (λ t. omega arith) p q
      (mul_p2_injective _ _ (shift-lt (2 ^ 15) x p) (shift-lt (2 ^ 15) y q) (
        shift_injective (2 ^ 12) (2 ^ 13) _ _ (λ t. omega arith) (omega arith) (omega arith)
          (mul_p3_injective _ _ (shift-lt (2 ^ 13) _ (omega arith))
            (shift-lt (2 ^ 13) _ (omega arith))
            (shift_injective (2 ^ 15) (2 ^ 16) _ _ (λ t. omega arith) (omega arith) (omega arith)
              h))))
