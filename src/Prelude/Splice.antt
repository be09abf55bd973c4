-- ===== src/Prelude/Splice.antt =====
-- A file's bytes under writes at an offset, and the ranges that a write leaves alone.
use Prim.Native.Nat.{ℕ, zero, suc, ◌+◌, ◌-◌, ◌≤◌, max}
use mathlib.Core.Path.{◌≡◌, refl, sym, ap, ◌∙◌}
use mathlib.Core.List.{List, [], ◌∷◌, ◌++◌}
use faster_file_copy.Prelude.Lists.{length, take, drop, length-take, length-drop}
use native.Mathlib.Omega.{arith}

-- The bytes of a range.
abbrev pub slice : ℕ → ℕ → List ℕ → List ℕ
slice offset size p = take size (drop offset p)

-- A write at an offset; a gap behind the end is filled with zeros.
unfoldable pub splice : List ℕ → ℕ → List ℕ → List ℕ
splice [] zero b = b
splice (x ∷ f) zero [] = x ∷ f
splice (x ∷ f) zero (y ∷ b) = y ∷ splice f zero b
splice [] (suc o) b = 0 ∷ splice [] o b
splice (x ∷ f) (suc o) b = x ∷ splice f o b

pub length-splice :
    (f : List ℕ) (o : ℕ) (b : List ℕ) → length (splice f o b) ≡ max (length f) (o + length b)
unfolding splice
length-splice [] zero b = omega arith
length-splice (x ∷ f) zero [] = omega arith
length-splice (x ∷ f) zero (y ∷ b) = omega (arith, length-splice f zero b)
length-splice [] (suc o) b = omega (arith, length-splice [] o b)
length-splice (x ∷ f) (suc o) b = omega (arith, length-splice f o b)

pub take_all : (b : List ℕ) → take (length b) b ≡ b
take_all [] = refl
take_all (x ∷ b) = ap (◌∷◌ x) (take_all b)

-- What is written can be read back.
pub slice-splice_same : (f : List ℕ) (o : ℕ) (b : List ℕ) → slice o (length b) (splice f o b) ≡ b
unfolding splice
slice-splice_same [] zero b = take_all b
slice-splice_same (x ∷ f) zero [] = refl
slice-splice_same (x ∷ f) zero (y ∷ b) = ap (◌∷◌ y) (slice-splice_same f zero b)
slice-splice_same [] (suc o) b = slice-splice_same [] o b
slice-splice_same (x ∷ f) (suc o) b = slice-splice_same f o b

-- A write leaves the ranges before it and behind it.
pub slice-splice_before :
    (f : List ℕ) (o : ℕ) (b : List ℕ) (i n : ℕ)
    → i + n ≤ o
    → i + n ≤ length f
    → slice i n (splice f o b) ≡ slice i n f
unfolding splice
slice-splice_before f o b i zero h l = refl
slice-splice_before [] o b i (suc n) h l = absurd (omega (arith, l))
slice-splice_before (x ∷ f) zero b i (suc n) h l = absurd (omega (arith, h))
slice-splice_before (x ∷ f) (suc o) b zero (suc n) h l =
    ap (◌∷◌ x) (slice-splice_before f o b zero n (omega (arith, h)) (omega (arith, l)))
slice-splice_before (x ∷ f) (suc o) b (suc i) (suc n) h l =
    slice-splice_before f o b i (suc n) (omega (arith, h)) (omega (arith, l))

pub slice-splice_after :
    (f : List ℕ) (o : ℕ) (b : List ℕ) (i n : ℕ)
    → o + length b ≤ i
    → i + n ≤ length f
    → slice i n (splice f o b) ≡ slice i n f
unfolding splice
slice-splice_after f o b i zero h l = refl
slice-splice_after [] o b i (suc n) h l = absurd (omega (arith, l))
slice-splice_after (x ∷ f) zero [] i (suc n) h l = refl
slice-splice_after (x ∷ f) zero (y ∷ b) zero (suc n) h l = absurd (omega (arith, h))
slice-splice_after (x ∷ f) zero (y ∷ b) (suc i) (suc n) h l =
    slice-splice_after f zero b i (suc n) (omega (arith, h)) (omega (arith, l))
slice-splice_after (x ∷ f) (suc o) b zero (suc n) h l = absurd (omega (arith, h))
slice-splice_after (x ∷ f) (suc o) b (suc i) (suc n) h l =
    slice-splice_after f o b i (suc n) (omega (arith, h)) (omega (arith, l))

pub slice-take : (f : List ℕ) (k i n : ℕ) → i + n ≤ k → slice i n (take k f) ≡ slice i n f
slice-take f k i zero h = refl
slice-take [] zero i (suc n) h = refl
slice-take [] (suc k) i (suc n) h = refl
slice-take (x ∷ f) zero i (suc n) h = absurd (omega (arith, h))
slice-take (x ∷ f) (suc k) zero (suc n) h = ap (◌∷◌ x) (slice-take f k zero n (omega (arith, h)))
slice-take (x ∷ f) (suc k) (suc i) (suc n) h = slice-take f k i (suc n) (omega (arith, h))

drop_nil : (n : ℕ) → drop {A = ℕ} n [] ≡ []
drop_nil zero = refl
drop_nil (suc n) = refl

take_nil : (n : ℕ) → take {A = ℕ} n [] ≡ []
take_nil zero = refl
take_nil (suc n) = refl

pub drop_add : (i j : ℕ) (p : List ℕ) → drop j (drop i p) ≡ drop (i + j) p
drop_add zero j p = (let e : j ≡ 0 + j = omega arith in ap (λ k. drop k p) e)
drop_add (suc i) j [] = drop_nil j ∙ sym (drop_nil (suc i + j))
drop_add (suc i) j (x ∷ p) =
    let e : suc (i + j) ≡ suc i + j = omega arith in drop_add i j p ∙ ap (λ k. drop k (x ∷ p)) e

take_add : (n m : ℕ) (p : List ℕ) → take (n + m) p ≡ take n p ++ take m (drop n p)
take_add zero m p = let e : 0 + m ≡ m = omega arith in ap (λ k. take k p) e
take_add (suc n) m [] = take_nil (suc n + m) ∙ sym (take_nil m)
take_add (suc n) m (x ∷ p) =
    let e : suc n + m ≡ suc (n + m) = omega arith in
    ap (λ k. take k (x ∷ p)) e ∙ ap (◌∷◌ x) (take_add n m p)

-- Two ranges side by side.
pub slice_join : (p : List ℕ) (i n m : ℕ) → slice i (n + m) p ≡ slice i n p ++ slice (i + n) m p
slice_join p i n m =
    take_add n m (drop i p) ∙ ap (λ q. take n (drop i p) ++ take m q) (drop_add i n p)

-- A range as a part of another one.
slice_inner :
    (p : List ℕ) (i n j m : ℕ) → i ≤ j → j + m ≤ i + n → slice (j - i) m (slice i n p) ≡ slice j m p
slice_inner p i n j m lo hi =
    slice-take (drop i p) n (j - i) m (omega arith)
    ∙ ap (take m) (drop_add i (j - i) p)
    ∙ (let e : i + (j - i) ≡ j = omega arith in ap (λ k. slice k m p) e)

-- A part of a range that two files share.
pub slice_part :
    (p q : List ℕ) (i n j m : ℕ)
    → i ≤ j
    → j + m ≤ i + n
    → slice i n p ≡ slice i n q
    → slice j m p ≡ slice j m q
slice_part p q i n j m lo hi e =
    sym (slice_inner p i n j m lo hi) ∙ ap (slice (j - i) m) e ∙ slice_inner q i n j m lo hi

pub length-slice : (p : List ℕ) (i n : ℕ) → i + n ≤ length p → length (slice i n p) ≡ n
length-slice p i n h = omega (arith, length-take n (drop i p), length-drop i p)

pub drop-append : (a b : List ℕ) → drop (length a) (a ++ b) ≡ b
drop-append [] b = refl
drop-append (x ∷ a) b = drop-append a b

pub take-append : (a b : List ℕ) → take (length a) (a ++ b) ≡ a
take-append [] b = refl
take-append (x ∷ a) b = ap (◌∷◌ x) (take-append a b)

splice_end : (a b : List ℕ) → splice a (length a) b ≡ a ++ b
unfolding splice
splice_end [] b = refl
splice_end (x ∷ a) b = ap (◌∷◌ x) (splice_end a b)

-- Two writes side by side.
pub splice-splice :
    (f : List ℕ) (o : ℕ) (a b : List ℕ)
    → splice (splice f o a) (o + length a) b ≡ splice f o (a ++ b)
unfolding splice
splice-splice [] zero a b =
    (let e : 0 + length a ≡ length a = omega arith in ap (λ k. splice a k b) e) ∙ splice_end a b
splice-splice (x ∷ f) zero [] b = refl
splice-splice (x ∷ f) zero (y ∷ a) b =
    (let e : 0 + suc (length a) ≡ suc (length a) = omega arith in
      ap (λ k. splice (y ∷ splice f 0 a) k b) e)
    ∙ ap (◌∷◌ y) (
        (let e : length a ≡ 0 + length a = omega arith in ap (λ k. splice (splice f 0 a) k b) e)
        ∙ splice-splice f 0 a b)
splice-splice [] (suc o) a b =
    (let e : suc o + length a ≡ suc (o + length a) = omega arith in
      ap (λ k. splice (0 ∷ splice [] o a) k b) e)
    ∙ ap (◌∷◌ 0) (splice-splice [] o a b)
splice-splice (x ∷ f) (suc o) a b =
    (let e : suc o + length a ≡ suc (o + length a) = omega arith in
      ap (λ k. splice (x ∷ splice f o a) k b) e)
    ∙ ap (◌∷◌ x) (splice-splice f o a b)

pub take-drop : (k : ℕ) (b : List ℕ) → take k b ++ drop k b ≡ b
take-drop zero b = refl
take-drop (suc k) [] = refl
take-drop (suc k) (x ∷ b) = ap (◌∷◌ x) (take-drop k b)

pub splice_two :
    (k o : ℕ) (b d : List ℕ)
    → k ≤ length b
    → splice (splice d o (take k b)) (o + k) (drop k b) ≡ splice d o b
splice_two k o b d h =
    (let e : o + k ≡ o + length (take k b) = omega (arith, length-take k b) in
      ap (λ j. splice (splice d o (take k b)) j (drop k b)) e)
    ∙ splice-splice d o (take k b) (drop k b)
    ∙ ap (splice d o) (take-drop k b)

pub take_enough : (k : ℕ) (b : List ℕ) → length b ≤ k → take k b ≡ b
take_enough zero [] h = refl
take_enough zero (x ∷ b) h = absurd (omega (arith, h))
take_enough (suc k) [] h = refl
take_enough (suc k) (x ∷ b) h = ap (◌∷◌ x) (take_enough k b (omega (arith, h)))

pub splice_none : (f : List ℕ) (o : ℕ) → o ≤ length f → splice f o [] ≡ f
unfolding splice
splice_none [] zero h = refl
splice_none [] (suc o) h = absurd (omega (arith, h))
splice_none (x ∷ f) zero h = refl
splice_none (x ∷ f) (suc o) h = ap (◌∷◌ x) (splice_none f o (omega (arith, h)))
