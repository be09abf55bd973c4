-- ===== src/Atomic/Cursor/Tiles.antt =====
-- Claimed ranges do not overlap and leave no hole, under every schedule.
use faster_file_copy.Prelude.{
  ℕ, ◌+◌, ◌-◌, ◌≤◌, ◌<◌, min, ◌≡◌, refl, Bool, false, Option, none, some, List, [], ◌∷◌, ◌==◌,
  if◌then◌else◌, arith, u32_max, All, ◌⊎◌, inl, inr, Bool-cases,
}
use faster_file_copy.Atomic.Machine.{Round, returned, Event, run, idle_at, run_keeps}
use faster_file_copy.Atomic.Cursor.{
  claimed, end_of_stream, RangeClaim, Request, claim_early, claim_round,
}

-- All threads read the same entry; each asks for a size of its own.
abbrev pub same_entry : ℕ → ℕ → ℕ → Request
same_entry start total requested = record { start = start; total = total; requested = requested }

module _ (start total : ℕ) where
  abbrev pub entry_early : ℕ → Option RangeClaim
  entry_early requested = claim_early (same_entry start total requested)

  abbrev pub entry_round : ℕ → ℕ → Bool → ℕ → Round RangeClaim
  entry_round requested = claim_round (same_entry start total requested)

  -- The claims that are not empty, the last one first, lie end to end from the start to the
  -- cursor, and each has its offset in the entry and no more bytes than were asked for.
  abbrev pub Tiles : List (ℕ × RangeClaim) → ℕ → Type 0
  Tiles [] cursor = start ≡ cursor
  Tiles ((requested, c) ∷ l) cursor =
      ((c.size ≡ 0) × Tiles l cursor)
      ⊎ ((0 < c.size)
          × (c.status ≡ claimed)
          × (c.size ≤ requested)
          × (c.relative_offset + start ≡ c.absolute_offset)
          × (c.absolute_offset + c.size ≡ cursor)
          × Tiles l c.absolute_offset)

  abbrev Tiled : ℕ → List (ℕ × RangeClaim) → Type 0
  Tiled cursor replies = (cursor ≤ start + total) × Tiles replies cursor

  early-Tiled :
      (cursor : ℕ) (replies : List (ℕ × RangeClaim)) (requested : ℕ) (c : RangeClaim)
      → entry_early requested ≡ some c
      → Tiled cursor replies
      → Tiled cursor ((requested, c) ∷ replies)
  unfolding claim_early
  early-Tiled cursor replies requested c e h = (h.0, inl (ground arith, h.1))

  round-Tiled :
      (cursor : ℕ) (replies : List (ℕ × RangeClaim)) (requested observed : ℕ) (spurious : Bool)
      (c : RangeClaim) (cursor' : ℕ)
      → entry_early requested ≡ none
      → entry_round requested observed spurious cursor ≡ returned c cursor'
      → Tiled cursor replies
      → Tiled cursor' ((requested, c) ∷ replies)
  unfolding claim_round claim_early
  round-Tiled cursor replies requested observed spurious c cursor' e r h =
      elim (Bool-cases (c.size == 0)) [
        | inl empty ↦
            let same : cursor' ≡ cursor = ground arith in rw same (h.0, inl (ground arith, h.1))
        | inr nonempty ↦
            let from : c.absolute_offset ≡ cursor = ground arith in
            (
              ground arith,
              inr (
                ground arith,
                ground arith,
                ground arith,
                ground arith,
                ground arith,
                rw from h.1,
              ),
            )
      ]

  -- Whatever the schedule, the spurious failures and the sizes asked for: the cursor stays inside
  -- the entry, and the claims that are not empty lie end to end from the entry's start to the
  -- cursor, in the order of their returns, none larger than asked for.
  pub claims_tile :
      (schedule : List (Event ℕ))
      → let m = run entry_early entry_round (idle_at entry_early entry_round start) schedule in
        (m.memory ≤ start + total) × Tiles m.replies m.memory
  claims_tile schedule =
      run_keeps entry_early entry_round Tiled early-Tiled round-Tiled start schedule
        (omega arith, refl)

  -- Two claims share no byte.
  abbrev pub Apart : RangeClaim → RangeClaim → Type 0
  Apart c d = (c.size ≡ 0) ⊎ (d.size ≡ 0) ⊎ (d.absolute_offset + d.size ≤ c.absolute_offset)

  abbrev pub AllApart : List (ℕ × RangeClaim) → Type 0
  AllApart [] = Unit
  AllApart ((requested, c) ∷ l) = All (λ r. Apart c r.1) l × AllApart l

  earlier_below :
      (l : List (ℕ × RangeClaim)) (cursor : ℕ)
      → Tiles l cursor
      → All (λ r. (r.1.size ≡ 0) ⊎ (r.1.absolute_offset + r.1.size ≤ cursor)) l
  earlier_below l cursor t = go l cursor cursor (omega arith) t
    where
      go :
          (l : List (ℕ × RangeClaim)) (cursor bound : ℕ)
          → cursor ≤ bound
          → Tiles l cursor
          → All (λ r. (r.1.size ≡ 0) ⊎ (r.1.absolute_offset + r.1.size ≤ bound)) l
      go [] cursor bound b t = tt
      go ((requested, c) ∷ l) cursor bound b (inl t) = (inl t.0, go l cursor bound b t.1)
      go ((requested, c) ∷ l) cursor bound b (inr t) =
          (inr (omega (arith, t.4)), go l c.absolute_offset bound (omega (arith, t.4)) t.5)

  widen :
      (c : RangeClaim) (l : List (ℕ × RangeClaim))
      → All (λ r. (r.1.size ≡ 0) ⊎ (r.1.absolute_offset + r.1.size ≤ c.absolute_offset)) l
      → All (λ r. Apart c r.1) l
  widen c [] h = tt
  widen c (r ∷ l) h = (elim h.0 [ inl z ↦ inr (inl z) | inr b ↦ inr (inr b) ], widen c l h.1)

  empty-Apart : (c : RangeClaim) (l : List (ℕ × RangeClaim)) → c.size ≡ 0 → All (λ r. Apart c r.1) l
  empty-Apart c [] z = tt
  empty-Apart c (r ∷ l) z = (inl z, empty-Apart c l z)

  Tiles-AllApart : (l : List (ℕ × RangeClaim)) (cursor : ℕ) → Tiles l cursor → AllApart l
  Tiles-AllApart [] cursor t = tt
  Tiles-AllApart ((requested, c) ∷ l) cursor (inl t) =
      (empty-Apart c l t.0, Tiles-AllApart l cursor t.1)
  Tiles-AllApart ((requested, c) ∷ l) cursor (inr t) =
      (widen c l (earlier_below l c.absolute_offset t.5), Tiles-AllApart l c.absolute_offset t.5)

  -- No two claims that the threads were given share a byte.
  pub claims_apart :
      (schedule : List (Event ℕ))
      → AllApart
          (run entry_early entry_round (idle_at entry_early entry_round start) schedule).replies
  claims_apart schedule = Tiles-AllApart _ _ (claims_tile schedule).1

  -- A round that no other thread has disturbed, with no spurious failure, claims as much as was
  -- asked for and is left, from the cursor on; at the end of the entry it reports the end.
  pub undisturbed_claim :
      (requested cursor : ℕ)
      → start ≤ cursor
      → cursor ≤ start + total
      → start + total ≤ u32_max
      → entry_round requested cursor false cursor
        ≡ returned
            (record {
              status = if cursor == start + total then end_of_stream else claimed;
              absolute_offset = cursor;
              relative_offset = cursor - start;
              size = min requested (start + total - cursor);
            })
            (cursor + min requested (start + total - cursor))
  unfolding claim_round
  undisturbed_claim requested cursor lo hi fits = ground arith
