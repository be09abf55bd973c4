-- ===== src/Format/Checksum/Merge.antt =====
-- Merging the lanes keeps two runs apart, and so does the rest of the checksum.
use faster_file_copy.Prelude.{
  ℕ, ◌/◌, ◌%◌, ◌<◌, ◌≡◌, ◌≢◌, refl, arith, ◌∙◌, ap, sym, List, [], ◌∷◌, ◌++◌, inl, inr, length,
  u32_mod, Bool-cases, leb, some,
}
use faster_file_copy.Prelude.Words.{Bytes, add32, rotl32}
use faster_file_copy.Format.Checksum.{
  Accumulators, words, tail_bytes, merge, start, finish, initial, checksum_bytes, checksum,
}
use faster_file_copy.Format.Checksum.Lanes.{merge-lt, avalanche_injective}
use faster_file_copy.Format.Checksum.Stripes.{
  InRange, OneLane, lane1, lane2, lane3, lane4, LanesApart, stripes_Apart,
}
use faster_file_copy.Format.Checksum.Detect.{
  OneByte, StillApart, words_Apart, tail_Apart, length-OneByte, tail-lt,
}

add_left_ne : {x y : ℕ} (c : ℕ) → x < u32_mod → y < u32_mod → x ≢ y → add32 x c ≢ add32 y c
add_left_ne c p q ne same = ne (omega arith)

add_right_ne : {x y : ℕ} (c : ℕ) → x < u32_mod → y < u32_mod → x ≢ y → add32 c x ≢ add32 c y
add_right_ne c p q ne same = ne (omega arith)

add32-lt : (x y : ℕ) → add32 x y < u32_mod
add32-lt x y = omega arith

-- The rotations of the merge lose nothing.
rotl_1 : (x y : ℕ) → x < u32_mod → y < u32_mod → rotl32 x 1 ≡ rotl32 y 1 → x ≡ y
rotl_1 x y p q h = omega arith

rotl_7 : (x y : ℕ) → x < u32_mod → y < u32_mod → rotl32 x 7 ≡ rotl32 y 7 → x ≡ y
rotl_7 x y p q h = omega arith

rotl_12 : (x y : ℕ) → x < u32_mod → y < u32_mod → rotl32 x 12 ≡ rotl32 y 12 → x ≡ y
rotl_12 x y p q h = omega arith

rotl_18 : (x y : ℕ) → x < u32_mod → y < u32_mod → rotl32 x 18 ≡ rotl32 y 18 → x ≡ y
rotl_18 x y p q h = omega arith

-- The sum of four summands, of which one changes.
sum4 : ℕ → ℕ → ℕ → ℕ → ℕ
sum4 a b c d = add32 (add32 (add32 a b) c) d

module _ {x y : ℕ} (p : x < u32_mod) (q : y < u32_mod) (ne : x ≢ y) (a b c : ℕ) where
  sum4_first : sum4 x a b c ≢ sum4 y a b c
  unfolding sum4
  sum4_first =
      add_left_ne c (add32-lt _ _) (add32-lt _ _)
        (add_left_ne b (add32-lt _ _) (add32-lt _ _) (add_left_ne a p q ne))

  sum4_second : sum4 a x b c ≢ sum4 a y b c
  unfolding sum4
  sum4_second =
      add_left_ne c (add32-lt _ _) (add32-lt _ _)
        (add_left_ne b (add32-lt _ _) (add32-lt _ _) (add_right_ne a p q ne))

  sum4_third : sum4 a b x c ≢ sum4 a b y c
  unfolding sum4
  sum4_third = add_left_ne c (add32-lt _ _) (add32-lt _ _) (add_right_ne (add32 a b) p q ne)

  sum4_fourth : sum4 a b c x ≢ sum4 a b c y
  unfolding sum4
  sum4_fourth = add_right_ne (add32 (add32 a b) c) p q ne

merge_sum :
    (v : Accumulators)
    → merge v ≡ sum4 (rotl32 v.v1 1) (rotl32 v.v2 7) (rotl32 v.v3 12) (rotl32 v.v4 18)
unfolding merge sum4
merge_sum v = refl

merge-OneLane : (v w : Accumulators) → InRange v → InRange w → OneLane v w → merge v ≢ merge w
merge-OneLane v w rv rw' (lane1 a b c d) =
    rw (merge_sum v, merge_sum w, b, c, d)
      (sum4_first (omega arith) (omega arith) (λ e. a (rotl_1 _ _ rv.in1 rw'.in1 e)) _ _ _)
merge-OneLane v w rv rw' (lane2 a b c d) =
    rw (merge_sum v, merge_sum w, a, c, d)
      (sum4_second (omega arith) (omega arith) (λ e. b (rotl_7 _ _ rv.in2 rw'.in2 e)) _ _ _)
merge-OneLane v w rv rw' (lane3 a b c d) =
    rw (merge_sum v, merge_sum w, a, b, d)
      (sum4_third (omega arith) (omega arith) (λ e. c (rotl_12 _ _ rv.in3 rw'.in3 e)) _ _ _)
merge-OneLane v w rv rw' (lane4 a b c d) =
    rw (merge_sum v, merge_sum w, a, b, c)
      (sum4_fourth (omega arith) (omega arith) (λ e. d (rotl_18 _ _ rv.in4 rw'.in4 e)) _ _ _)

initial-InRange : InRange initial
unfolding initial
initial-InRange = record {
  in1 = omega arith;
  in2 = omega arith;
  in3 = omega arith;
  in4 = omega arith;
}

merged_Apart :
    (a b : Accumulators × List ℕ) → LanesApart a b → StillApart (merge a.0, a.1) (merge b.0, b.1)
merged_Apart a b s = record {
  left_hash = merge-lt a.0;
  right_hash = merge-lt b.0;
  left_bytes = s.left_bytes;
  right_bytes = s.right_bytes;
  apart = elim s.apart [
    | inl d ↦ inl (merge-OneLane a.0 b.0 s.left_range s.right_range d.0, d.1)
    | inr d ↦ inr (ap merge d.0, d.1)
  ];
}

start_Apart : (p q : List ℕ) → Bytes p → Bytes q → OneByte p q → StillApart (start p) (start q)
unfolding start
start_Apart p q bp bq d = rw (← length-OneByte p q d) (elim (Bool-cases (leb 16 (length p))) [
  | inl long ↦ rw long (
      merged_Apart _ _ (
        stripes_Apart (length p / 16) initial initial p q (record {
          left_range = initial-InRange;
          right_range = initial-InRange;
          left_bytes = bp;
          right_bytes = bq;
          apart = inr (refl, d);
        })))
  | inr short ↦ rw short (record {
    left_hash = omega arith;
    right_hash = omega arith;
    left_bytes = bp;
    right_bytes = bq;
    apart = inr (refl, d);
  })
])

same_rest : (a b : ℕ × List ℕ) → StillApart a b → length b.1 ≡ length a.1
same_rest a b s = elim s.apart [
  | inl d ↦ ap length (sym d.1)
  | inr d ↦ sym (length-OneByte a.1 b.1 d.1)
]

sized_Apart :
    (size : ℕ) (a b : ℕ × List ℕ)
    → StillApart a b
    → StillApart (add32 a.0 (size % u32_mod), a.1) (add32 b.0 (size % u32_mod), b.1)
sized_Apart size a b s = record {
  left_hash = omega arith;
  right_hash = omega arith;
  left_bytes = s.left_bytes;
  right_bytes = s.right_bytes;
  apart = elim s.apart [
    | inl d ↦ inl (add_left_ne (size % u32_mod) s.left_hash s.right_hash d.0, d.1)
    | inr d ↦ inr (ap (λ t. add32 t (size % u32_mod)) d.0, d.1)
  ];
}

tail-range :
    (a b : ℕ × List ℕ)
    → StillApart a b
    → (tail_bytes a.0 a.1 < u32_mod) × (tail_bytes b.0 b.1 < u32_mod)
tail-range a b s = (tail-lt a.0 a.1 s.left_hash, tail-lt b.0 b.1 s.right_hash)

finish_Apart :
    (size : ℕ) (a b : ℕ × List ℕ) → StillApart a b → finish size a.0 a.1 ≢ finish size b.0 b.1
unfolding finish
finish_Apart size a b s = rw (same_rest a b s) (λ same.
    tail_Apart _ _ after
      (avalanche_injective _ _ (tail-range _ _ after).0 (tail-range _ _ after).1 same))
  where
    after :
        StillApart
          (words (length a.1 / 4) (add32 a.0 (size % u32_mod)) a.1)
          (words (length a.1 / 4) (add32 b.0 (size % u32_mod)) b.1)
    after = words_Apart (length a.1 / 4) _ _ a.1 b.1 (sized_Apart size a b s)

checksum_bytes_lem : (p : List ℕ) → checksum_bytes p ≡ finish (length p) (start p).0 (start p).1
unfolding checksum_bytes
checksum_bytes_lem p = refl

checksum_OneByte :
    (p q : List ℕ) → Bytes p → Bytes q → OneByte p q → checksum_bytes p ≢ checksum_bytes q
checksum_OneByte p q bp bq d same =
    finish_Apart (length p) (start p) (start q) (start_Apart p q bp bq d) (
      sym (checksum_bytes_lem p)
      ∙ same
      ∙ checksum_bytes_lem q
      ∙ ap (λ n. finish n (start q).0 (start q).1) (sym (length-OneByte p q d)))

splice-OneByte :
    (before after : List ℕ) {x y : ℕ} → x ≢ y → OneByte (before ++ x ∷ after) (before ++ y ∷ after)
splice-OneByte [] after ne = inl (ne, refl)
splice-OneByte (b ∷ before) after ne = inr (refl, splice-OneByte before after ne)

-- Two payloads of bytes that differ in exactly one byte, wherever it stands, have different
-- checksums.
pub checksum-ne :
    (before after : List ℕ) (x y m n : ℕ)
    → Bytes (before ++ x ∷ after)
    → Bytes (before ++ y ∷ after)
    → x ≢ y
    → checksum (some (before ++ x ∷ after)) m ≢ checksum (some (before ++ y ∷ after)) n
unfolding checksum
checksum-ne before after x y m n bx by ne same =
    checksum_OneByte _ _ bx by (splice-OneByte before after ne) same
