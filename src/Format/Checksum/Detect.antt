-- ===== src/Format/Checksum/Detect.antt =====
-- The checksum notices every change of a single byte: the two runs of the loops stay apart.
use faster_file_copy.Prelude.{
  ℕ, zero, suc, ◌<◌, ◌≡◌, ◌≢◌, refl, arith, ◌∙◌, ap, sym, List, [], ◌∷◌, ◌⊎◌, inl, inr, length,
  drop, u32_mod,
}
use faster_file_copy.Prelude.Words.{Bytes, Bytes-drop, read_le, read_le-lt}
use faster_file_copy.Format.Checksum.{read32, word_step, words, byte_step, tail_bytes}
use faster_file_copy.Format.Checksum.Lanes.{
  word_step-lt, word_step_acc_injective, word_step_input_injective, byte_step-lt,
  byte_step_acc_injective, byte_step_input_injective,
}

-- The two lists differ at one place.
abbrev pub OneByte : List ℕ → List ℕ → Type 0
OneByte [] q = ⊥
OneByte (x ∷ p) [] = ⊥
OneByte (x ∷ p) (y ∷ q) = ((x ≢ y) × (p ≡ q)) ⊎ ((x ≡ y) × OneByte p q)

pub length-OneByte : (p q : List ℕ) → OneByte p q → length p ≡ length q
length-OneByte [] q d = absurd d
length-OneByte (x ∷ p) [] d = absurd d
length-OneByte (x ∷ p) (y ∷ q) (inl d) = ap suc (ap length d.1)
length-OneByte (x ∷ p) (y ∷ q) (inr d) = ap suc (length-OneByte p q d.1)

-- Reading n bytes either sees the change, with the rest the same, or leaves it in the rest.
read_OneByte :
    (n : ℕ) (p q : List ℕ)
    → Bytes p
    → Bytes q
    → OneByte p q
    → ((read_le n p ≢ read_le n q) × (drop n p ≡ drop n q))
      ⊎ ((read_le n p ≡ read_le n q) × OneByte (drop n p) (drop n q))
unfolding read_le
read_OneByte zero p q hp hq d = inr (refl, d)
read_OneByte (suc n) [] q hp hq d = absurd d
read_OneByte (suc n) (x ∷ p) [] hp hq d = absurd d
read_OneByte (suc n) (x ∷ p) (y ∷ q) hp hq (inl d) = inl ((λ e. d.0 (omega arith)), ap (drop n) d.1)
read_OneByte (suc n) (x ∷ p) (y ∷ q) hp hq (inr d) = elim (read_OneByte n p q hp.1 hq.1 d.1) [
  | inl c ↦ inl ((λ e. c.0 (omega arith)), c.1)
  | inr c ↦ inr (omega arith, c.1)
]

-- What is left to tell two runs apart: the states already differ, or the change is to come.
abbrev pub Apart : {S : Type 0} → (S → S → Type 0) → S → List ℕ → S → List ℕ → Type 0
Apart Differ s p t q = (Differ s t × (p ≡ q)) ⊎ ((s ≡ t) × OneByte p q)

pub read32-lt : (p : List ℕ) → Bytes p → read32 p < u32_mod
unfolding read32
read32-lt p h = omega (arith, read_le-lt 4 p h)

pub read32-OneByte :
    (p q : List ℕ)
    → Bytes p
    → Bytes q
    → OneByte p q
    → ((read32 p ≢ read32 q) × (drop 4 p ≡ drop 4 q))
      ⊎ ((read32 p ≡ read32 q) × OneByte (drop 4 p) (drop 4 q))
unfolding read32
read32-OneByte p q = read_OneByte 4 p q

-- One more word keeps two hashes apart.
word_Apart :
    (h k : ℕ) (p q : List ℕ)
    → h < u32_mod
    → k < u32_mod
    → Bytes p
    → Bytes q
    → Apart ◌≢◌ h p k q
    → Apart ◌≢◌ (word_step h (read32 p)) (drop 4 p) (word_step k (read32 q)) (drop 4 q)
word_Apart h k p q lh lk bp bq (inl (ne, e)) = inl (
  (λ same. ne (
      word_step_acc_injective h k (read32 p) lh lk
        (same ∙ ap (λ t. word_step k (read32 t)) (sym e)))),
  ap (drop 4) e,
)
word_Apart h k p q lh lk bp bq (inr (e, d)) = elim (read32-OneByte p q bp bq d) [
  | inl c ↦ inl (
    (λ same. c.0 (
        word_step_input_injective h _ _ (read32-lt p bp) (read32-lt q bq)
          (same ∙ ap (λ t. word_step t (read32 q)) (sym e)))),
    c.1,
  )
  | inr c ↦ inr (cc, c.1)
]

-- A run of the word loop: hashes in range, bytes left, and still apart.
pub record StillApart (a b : ℕ × List ℕ) : Type 0 where
  pub left_hash : a.0 < u32_mod
  pub right_hash : b.0 < u32_mod
  pub left_bytes : Bytes a.1
  pub right_bytes : Bytes b.1
  pub apart : Apart ◌≢◌ a.0 a.1 b.0 b.1

pub words_Apart :
    (n : ℕ) (h k : ℕ) (p q : List ℕ)
    → StillApart (h, p) (k, q)
    → StillApart (words n h p) (words n k q)
unfolding words
words_Apart zero h k p q s = s
words_Apart (suc n) h k p q s =
    words_Apart n (word_step h (read32 p)) (word_step k (read32 q)) (drop 4 p) (drop 4 q) (record {
      left_hash = word_step-lt h (read32 p);
      right_hash = word_step-lt k (read32 q);
      left_bytes = Bytes-drop 4 p s.left_bytes;
      right_bytes = Bytes-drop 4 q s.right_bytes;
      apart = word_Apart h k p q s.left_hash s.right_hash s.left_bytes s.right_bytes s.apart;
    })

tail_ne :
    (h k : ℕ) (p : List ℕ) → h < u32_mod → k < u32_mod → h ≢ k → tail_bytes h p ≢ tail_bytes k p
unfolding tail_bytes
tail_ne h k [] lh lk ne = ne
tail_ne h k (b ∷ p) lh lk ne =
    tail_ne (byte_step h b) (byte_step k b) p (byte_step-lt h b) (byte_step-lt k b)
      (λ same. ne (byte_step_acc_injective h k b lh lk same))

tail_OneByte :
    (h : ℕ) (p q : List ℕ)
    → h < u32_mod
    → Bytes p
    → Bytes q
    → OneByte p q
    → tail_bytes h p ≢ tail_bytes h q
unfolding tail_bytes
tail_OneByte h [] q lh bp bq d = absurd d
tail_OneByte h (x ∷ p) [] lh bp bq d = absurd d
tail_OneByte h (x ∷ p) (y ∷ q) lh bp bq (inl (ne, e)) = rw (← e) (
    tail_ne (byte_step h x) (byte_step h y) p (byte_step-lt h x) (byte_step-lt h y)
      (λ same. ne (byte_step_input_injective h x y (omega arith) (omega arith) same)))
tail_OneByte h (x ∷ p) (y ∷ q) lh bp bq (inr (e, d)) =
    rw (← e) (tail_OneByte (byte_step h x) p q (byte_step-lt h x) bp.1 bq.1 d)

pub tail-lt : (h : ℕ) (p : List ℕ) → h < u32_mod → tail_bytes h p < u32_mod
unfolding tail_bytes
tail-lt h [] l = l
tail-lt h (b ∷ p) l = tail-lt (byte_step h b) p (byte_step-lt h b)

pub tail_Apart : (a b : ℕ × List ℕ) → StillApart a b → tail_bytes a.0 a.1 ≢ tail_bytes b.0 b.1
tail_Apart a b s = elim s.apart [
  | inl d ↦ rw (← d.1) (tail_ne a.0 b.0 a.1 s.left_hash s.right_hash d.0)
  | inr d ↦ rw (← d.0) (tail_OneByte a.0 a.1 b.1 s.left_hash s.left_bytes s.right_bytes d.1)
]
