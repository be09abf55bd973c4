-- ===== src/Format/Checksum/Stripes.antt =====
-- The loop over stripes keeps two runs apart, lane by lane.
use faster_file_copy.Prelude.{ℕ, zero, suc, ◌<◌, ◌≡◌, ◌≢◌, refl, ap, List, inl, inr, drop, u32_mod}
use faster_file_copy.Prelude.Words.{Bytes, Bytes-drop}
use faster_file_copy.Format.Checksum.{Accumulators, round, stripe, stripes, skip_stripe}
use faster_file_copy.Format.Checksum.Lanes.{round-lt, round_acc_injective, round_input_injective}
use faster_file_copy.Format.Checksum.Detect.{OneByte, Apart, read32-lt, read32-OneByte}

pub record InRange (v : Accumulators) : Type 0 where
  pub in1 : v.v1 < u32_mod
  pub in2 : v.v2 < u32_mod
  pub in3 : v.v3 < u32_mod
  pub in4 : v.v4 < u32_mod

-- Two accumulators that differ in exactly one lane.
pub data OneLane (v w : Accumulators) : Type 0 where
  lane1 : v.v1 ≢ w.v1 → v.v2 ≡ w.v2 → v.v3 ≡ w.v3 → v.v4 ≡ w.v4 → OneLane v w
  lane2 : v.v1 ≡ w.v1 → v.v2 ≢ w.v2 → v.v3 ≡ w.v3 → v.v4 ≡ w.v4 → OneLane v w
  lane3 : v.v1 ≡ w.v1 → v.v2 ≡ w.v2 → v.v3 ≢ w.v3 → v.v4 ≡ w.v4 → OneLane v w
  lane4 : v.v1 ≡ w.v1 → v.v2 ≡ w.v2 → v.v3 ≡ w.v3 → v.v4 ≢ w.v4 → OneLane v w

stripe-InRange : (v : Accumulators) (p : List ℕ) → InRange (stripe v p)
unfolding stripe
stripe-InRange v p = record {
  in1 = round-lt _ _;
  in2 = round-lt _ _;
  in3 = round-lt _ _;
  in4 = round-lt _ _;
}

rounds_ne : {a b : ℕ} (i : ℕ) → a < u32_mod → b < u32_mod → a ≢ b → round a i ≢ round b i
rounds_ne {a} {b} i p q ne same = ne (round_acc_injective a b i p q same)

inputs_ne : {i j : ℕ} (a : ℕ) → i < u32_mod → j < u32_mod → i ≢ j → round a i ≢ round a j
inputs_ne {i} {j} a p q ne same = ne (round_input_injective a i j p q same)

stripe-OneLane :
    (v w : Accumulators) (p : List ℕ)
    → InRange v
    → InRange w
    → OneLane v w
    → OneLane (stripe v p) (stripe w p)
unfolding stripe
stripe-OneLane v w p rv rw' (lane1 a b c d) = lane1 (rounds_ne _ rv.in1 rw'.in1 a) (cc) (cc) (cc)
stripe-OneLane v w p rv rw' (lane2 a b c d) = lane2 (cc) (rounds_ne _ rv.in2 rw'.in2 b) (cc) (cc)
stripe-OneLane v w p rv rw' (lane3 a b c d) = lane3 (cc) (cc) (rounds_ne _ rv.in3 rw'.in3 c) (cc)
stripe-OneLane v w p rv rw' (lane4 a b c d) = lane4 (cc) (cc) (cc) (rounds_ne _ rv.in4 rw'.in4 d)

-- The first stripe that holds the change moves it from the bytes into one lane.
stripe-OneByte :
    (v : Accumulators) (p q : List ℕ)
    → Bytes p
    → Bytes q
    → OneByte p q
    → Apart OneLane (stripe v p) (skip_stripe p) (stripe v q) (skip_stripe q)
unfolding stripe
stripe-OneByte v p q bp bq d = elim (read32-OneByte p q bp bq d) [
  | inl c ↦ inl (
    lane1 (inputs_ne v.v1 (read32-lt p bp) (read32-lt q bq) c.0) (cc (c.1)) (cc (c.1)) (cc (c.1)),
    ap (λ t. drop 4 (drop 4 (drop 4 t))) c.1,
  )
  | inr c ↦ elim (read32-OneByte (drop 4 p) (drop 4 q) bp1 bq1 c.1) [
    | inl c2 ↦ inl (
      lane2 (cc (c.0)) (inputs_ne v.v2 (read32-lt (drop 4 p) bp1) (read32-lt (drop 4 q) bq1) c2.0)
          (cc (c2.1)) (cc (c2.1)),
      ap (λ t. drop 4 (drop 4 t)) c2.1,
    )
    | inr c2 ↦ elim (read32-OneByte _ _ bp2 bq2 c2.1) [
      | inl c3 ↦ inl (
        lane3 (cc (c.0)) (cc (c2.0)) (inputs_ne v.v3 (read32-lt _ bp2) (read32-lt _ bq2) c3.0)
            (cc (c3.1)),
        ap (drop 4) c3.1,
      )
      | inr c3 ↦ elim (read32-OneByte _ _ bp3 bq3 c3.1) [
        | inl c4 ↦ inl (
          lane4 (cc (c.0)) (cc (c2.0)) (cc (c3.0))
              (inputs_ne v.v4 (read32-lt _ bp3) (read32-lt _ bq3) c4.0),
          c4.1,
        )
        | inr c4 ↦ inr (cc (c.0, c2.0, c3.0, c4.0), c4.1)
      ]
    ]
  ]
]
  where
    bp1 : Bytes (drop 4 p)
    bp1 = Bytes-drop 4 p bp

    bq1 : Bytes (drop 4 q)
    bq1 = Bytes-drop 4 q bq

    bp2 : Bytes (drop 4 (drop 4 p))
    bp2 = Bytes-drop 4 (drop 4 p) bp1

    bq2 : Bytes (drop 4 (drop 4 q))
    bq2 = Bytes-drop 4 (drop 4 q) bq1

    bp3 : Bytes (drop 4 (drop 4 (drop 4 p)))
    bp3 = Bytes-drop 4 (drop 4 (drop 4 p)) bp2

    bq3 : Bytes (drop 4 (drop 4 (drop 4 q)))
    bq3 = Bytes-drop 4 (drop 4 (drop 4 q)) bq2

Bytes-skip : (p : List ℕ) → Bytes p → Bytes (skip_stripe p)
Bytes-skip p b = Bytes-drop 4 _ (Bytes-drop 4 _ (Bytes-drop 4 _ (Bytes-drop 4 p b)))

pub record LanesApart (a b : Accumulators × List ℕ) : Type 0 where
  pub left_range : InRange a.0
  pub right_range : InRange b.0
  pub left_bytes : Bytes a.1
  pub right_bytes : Bytes b.1
  pub apart : Apart OneLane a.0 a.1 b.0 b.1

stripe-Apart :
    (v w : Accumulators) (p q : List ℕ)
    → LanesApart (v, p) (w, q)
    → Apart OneLane (stripe v p) (skip_stripe p) (stripe w q) (skip_stripe q)
stripe-Apart v w p q s = elim s.apart [
  | inl d ↦ rw (← d.1) (inl (stripe-OneLane v w p s.left_range s.right_range d.0, refl))
  | inr d ↦ rw (← d.0) (stripe-OneByte v p q s.left_bytes s.right_bytes d.1)
]

pub stripes_Apart :
    (n : ℕ) (v w : Accumulators) (p q : List ℕ)
    → LanesApart (v, p) (w, q)
    → LanesApart (stripes n v p) (stripes n w q)
unfolding stripes
stripes_Apart zero v w p q s = s
stripes_Apart (suc n) v w p q s =
    stripes_Apart n (stripe v p) (stripe w q) (skip_stripe p) (skip_stripe q) (record {
      left_range = stripe-InRange v p;
      right_range = stripe-InRange w q;
      left_bytes = Bytes-skip p s.left_bytes;
      right_bytes = Bytes-skip q s.right_bytes;
      apart = stripe-Apart v w p q s;
    })
