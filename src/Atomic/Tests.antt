-- ===== src/Atomic/Tests.antt =====
-- Schedules of the lock-free loops.
use faster_file_copy.Prelude.{ℕ, ◌+◌, ◌≤◌, ◌≡◌, refl, true, false, List, [], ◌∷◌, arith}
use faster_file_copy.Atomic.Machine.{Event, invoke, advance, run, idle_at}
use faster_file_copy.Atomic.Budget
use faster_file_copy.Atomic.Budget.{
  try_reserve, release, reserved, released, budget_accounted, undisturbed_round,
}
use faster_file_copy.Atomic.Cursor.{claim_early, claim_round}
use faster_file_copy.Atomic.Cursor.Tiles.{entry_early, entry_round, Tiles, claims_tile}

-- Two threads reserve 60 of 100 bytes; the second sees the first one's exchange and gives up.
abbrev contest : List (Event Budget.Call)
contest =
    invoke 0 (try_reserve 60)
    ∷ invoke 1 (try_reserve 60)
    ∷ advance 0 true
    ∷ advance 0 false
    ∷ advance 1 false
    ∷ advance 1 false
    ∷ []

contest_memory :
    (run Budget.early (Budget.round 100) (idle_at Budget.early (Budget.round 100) 0) contest).memory
    ≡ 60
unfolding run idle_at Budget.round
contest_memory = refl

budget_accounted_example :
    let m =
      run Budget.early (Budget.round 100) (idle_at Budget.early (Budget.round 100) 0) contest in
    (m.memory ≤ 100) × (m.memory + released 100 m.replies ≡ reserved 100 m.replies)
budget_accounted_example = budget_accounted 100 contest (omega arith)

-- Two threads claim 30 and 40 bytes of an entry of 50 bytes at offset 1000.
abbrev readers : List (Event ℕ)
readers =
    invoke 0 30
    ∷ invoke 1 40
    ∷ advance 1 false
    ∷ advance 0 false
    ∷ advance 0 false
    ∷ invoke 1 5
    ∷ advance 1 false
    ∷ []

readers_cursor :
    (run
      (entry_early 1000 50)
      (entry_round 1000 50)
      (idle_at (entry_early 1000 50) (entry_round 1000 50) 1000)
      readers).memory
    ≡ 1050
unfolding run idle_at claim_early claim_round
readers_cursor = refl

claims_tile_example :
    let m =
      run
        (entry_early 1000 50)
        (entry_round 1000 50)
        (idle_at (entry_early 1000 50) (entry_round 1000 50) 1000)
        readers in
    (m.memory ≤ 1000 + 50) × Tiles 1000 50 m.replies m.memory
claims_tile_example = claims_tile 1000 50 readers
