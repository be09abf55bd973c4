-- ===== src/Atomic/Budget.antt =====
-- Skyrim/src/AtomicByteBudget.h: bytes reserved and released by many threads under one limit.
use faster_file_copy.Prelude.{
  ℕ, ◌+◌, ◌-◌, ◌≤◌, ◌≡◌, Bool, true, false, ◌||◌, Option, none, List, [], ◌∷◌, ltb, leb,
  if◌then◌else◌, arith, u64_max,
}
use faster_file_copy.Prelude.Words.{add64, sub64}
use faster_file_copy.Atomic.Machine.{Round, returned, exchange_weak, Event, run, idle_at, run_keeps}

pub data Call : Type 0 where
  try_reserve : ℕ → Call
  release : ℕ → Call

-- Neither operation returns before it loads the counter.
abbrev pub early : Call → Option Bool
early call = none

module _ (limit : ℕ) where
  -- One round of the loop of TryReserve.
  unfoldable pub try_reserve_round : ℕ → ℕ → Bool → ℕ → Round Bool
  try_reserve_round bytes current spurious used =
      if ltb limit current || ltb (limit - current) bytes
      then returned false used
      else exchange_weak spurious used current (add64 current bytes) true

  -- One round of the loop of Release.
  unfoldable pub release_round : ℕ → ℕ → Bool → ℕ → Round Bool
  release_round bytes current spurious used =
      if ltb current bytes
      then returned false used
      else exchange_weak spurious used current (sub64 current bytes) true

  unfoldable pub round : Call → ℕ → Bool → ℕ → Round Bool
  unfolding try_reserve_round release_round
  round (try_reserve bytes) = try_reserve_round bytes
  round (release bytes) = release_round bytes

  -- The bytes of the reservations, and of the releases, that succeeded.
  abbrev pub reserved : List (Call × Bool) → ℕ
  reserved [] = 0
  reserved ((try_reserve bytes, true) ∷ l) = bytes + reserved l
  reserved ((try_reserve bytes, false) ∷ l) = reserved l
  reserved ((release bytes, ok) ∷ l) = reserved l

  abbrev pub released : List (Call × Bool) → ℕ
  released [] = 0
  released ((release bytes, true) ∷ l) = bytes + released l
  released ((release bytes, false) ∷ l) = released l
  released ((try_reserve bytes, ok) ∷ l) = released l

  abbrev Accounted : ℕ → List (Call × Bool) → Type 0
  Accounted used replies = (used ≤ limit) × (used + released replies ≡ reserved replies)

  round-Accounted :
      (fits : limit ≤ u64_max) (used : ℕ) (replies : List (Call × Bool)) (call : Call)
      (observed : ℕ) (spurious : Bool) (ok : Bool) (used' : ℕ)
      → early call ≡ none
      → round call observed spurious used ≡ returned ok used'
      → Accounted used replies
      → Accounted used' ((call, ok) ∷ replies)
  unfolding round
  round-Accounted fits used replies (try_reserve bytes) observed spurious true used' e h a =
      ground arith
  round-Accounted fits used replies (try_reserve bytes) observed spurious false used' e h a =
      ground arith
  round-Accounted fits used replies (release bytes) observed spurious true used' e h a =
      ground arith
  round-Accounted fits used replies (release bytes) observed spurious false used' e h a =
      ground arith

  -- Whatever the schedule and the spurious failures: the counter never exceeds the limit, and it
  -- is what was successfully reserved less what was successfully released.
  pub budget_accounted :
      (schedule : List (Event Call))
      → limit ≤ u64_max
      → let m = run early round (idle_at early round 0) schedule in
        (m.memory ≤ limit) × (m.memory + released m.replies ≡ reserved m.replies)
  budget_accounted schedule fits =
      run_keeps early round Accounted (λ used replies call ok e. absurd (cc)) (round-Accounted fits)
        0 schedule (omega arith)

  -- A round that no other thread has disturbed, with no spurious failure, returns: a reservation
  -- succeeds exactly if it fits under the limit, a release exactly if so much is in use, and a
  -- failure leaves the counter alone.
  pub undisturbed_round :
      (used bytes : ℕ)
      → limit ≤ u64_max
      → used ≤ limit
      → (round (try_reserve bytes) used false used ≡ (
          if leb (used + bytes) limit then returned true (used + bytes) else returned false used))
        × (round (release bytes) used false used
            ≡ (if leb bytes used then returned true (used - bytes) else returned false used))
  unfolding round
  undisturbed_round used bytes fits h = (ground arith, ground arith)
