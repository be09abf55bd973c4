-- ===== src/Atomic/Machine.antt =====
-- Threads that run compare-exchange loops over one word. A schedule says which thread acts next,
-- and which weak exchanges fail though the word still has the observed value.
use faster_file_copy.Prelude.{
  ℕ, ◌≡◌, refl, Bool, not, ◌&&◌, Option, none, some, List, [], ◌∷◌, ◌==◌, if◌then◌else◌, Bool-cases,
  inl, inr,
}

-- What one round of a loop comes to: a return with the word's new value, or another round with
-- the value that the failed exchange loaded.
pub data Round (Reply : Type 0) : Type 0 where
  returned : Reply → ℕ → Round Reply
  again : ℕ → Round Reply

-- compare_exchange_weak(observed, desired), and what the loop returns after a success.
abbrev pub exchange_weak : {Reply : Type 0} → Bool → ℕ → ℕ → ℕ → Reply → Round Reply
exchange_weak spurious memory observed desired reply =
    if memory == observed && not spurious then returned reply desired else again memory

pub data Event (Call : Type 0) : Type 0 where
  -- An idle thread makes a call and loads the word.
  invoke : ℕ → Call → Event Call
  -- A thread makes one round of its loop; the flag asks for a spurious failure.
  advance : ℕ → Bool → Event Call

module _ {Call Reply : Type 0} (early : Call → Option Reply)
    (round : Call → ℕ → Bool → ℕ → Round Reply) where
  pub record Machine : Type 0 where
    pub memory : ℕ
    -- The call of each running thread, with the value that it observed last.
    pub running : ℕ → Option (Call × ℕ)
    -- The finished calls, the last one first.
    pub replies : List (Call × Reply)

  abbrev pub update : (ℕ → Option (Call × ℕ)) → ℕ → Option (Call × ℕ) → ℕ → Option (Call × ℕ)
  update f t v u = if t == u then v else f u

  pub answer : Machine → ℕ → Call → ℕ → Reply → Machine
  answer m t call memory reply = record {
    memory = memory;
    running = update m.running t none;
    replies = (call, reply) ∷ m.replies;
  }

  pub after_round : Machine → ℕ → Call → Round Reply → Machine
  unfolding answer
  after_round m t call (returned reply memory) = answer m t call memory reply
  after_round m t call (again observed) = record m {
    running = update m.running t (some (call, observed));
  }

  pub begin_call : Machine → ℕ → Call → Option Reply → Machine
  unfolding answer
  begin_call m t call (some reply) = answer m t call m.memory reply
  begin_call m t call none = record m { running = update m.running t (some (call, m.memory)) }

  pub advance_thread : Machine → ℕ → Bool → Option (Call × ℕ) → Machine
  unfolding after_round
  advance_thread m t spurious none = m
  advance_thread m t spurious (some (call, observed)) =
      after_round m t call (round call observed spurious m.memory)

  pub invoke_thread : Machine → ℕ → Call → Option (Call × ℕ) → Machine
  unfolding begin_call
  invoke_thread m t call none = begin_call m t call (early call)
  invoke_thread m t call (some busy) = m

  unfoldable pub step : Machine → Event Call → Machine
  unfolding advance_thread invoke_thread
  step m (invoke t call) = invoke_thread m t call (m.running t)
  step m (advance t spurious) = advance_thread m t spurious (m.running t)

  unfoldable pub run : Machine → List (Event Call) → Machine
  unfolding step
  run m [] = m
  run m (e ∷ es) = run (step m e) es

  unfoldable pub idle_at : ℕ → Machine
  idle_at memory = record { memory = memory; running = λ t. none; replies = [] }

  abbrev Looping : Option (Call × ℕ) → Type 0
  Looping none = Unit
  Looping (some (call, observed)) = early call ≡ none

  module _ {ℓ} (P : ℕ → List (Call × Reply) → Type ℓ)
      (keep_early : (memory : ℕ) (replies : List (Call × Reply)) (call : Call) (reply : Reply)
        → early call ≡ some reply
        → P memory replies
        → P memory ((call, reply) ∷ replies))
      (keep_round : (memory : ℕ) (replies : List (Call × Reply)) (call : Call) (observed : ℕ)
          (spurious : Bool) (reply : Reply) (memory' : ℕ)
        → early call ≡ none
        → round call observed spurious memory ≡ returned reply memory'
        → P memory replies
        → P memory' ((call, reply) ∷ replies)) where
    record Holds (m : Machine) : Type ℓ where
      valid : P m.memory m.replies
      loops : (t : ℕ) → Looping (m.running t)

    idle_update :
        (f : ℕ → Option (Call × ℕ)) (t : ℕ) (v : Option (Call × ℕ))
        → ((u : ℕ) → Looping (f u))
        → Looping v
        → (u : ℕ) → Looping (update f t v u)
    idle_update f t v h k u = elim (Bool-cases (t == u)) [ inl e ↦ rw e k | inr e ↦ rw e (h u) ]

    begin_call-Holds :
        (m : Machine) (t : ℕ) (call : Call) (o : Option Reply)
        → early call ≡ o
        → Holds m
        → Holds (begin_call m t call o)
    unfolding begin_call
    begin_call-Holds m t call none e h = record {
      valid = h.valid;
      loops = idle_update m.running t _ h.loops e;
    }
    begin_call-Holds m t call (some reply) e h = record {
      valid = keep_early m.memory m.replies call reply e h.valid;
      loops = idle_update m.running t none h.loops tt;
    }

    after_round-Holds :
        (m : Machine) (t : ℕ) (call : Call) (observed : ℕ) (spurious : Bool) (r : Round Reply)
        → early call ≡ none
        → round call observed spurious m.memory ≡ r
        → Holds m
        → Holds (after_round m t call r)
    unfolding after_round
    after_round-Holds m t call observed spurious (returned reply memory') e f h = record {
      valid = keep_round m.memory m.replies call observed spurious reply memory' e f h.valid;
      loops = idle_update m.running t none h.loops tt;
    }
    after_round-Holds m t call observed spurious (again next) e f h = record {
      valid = h.valid;
      loops = idle_update m.running t _ h.loops e;
    }

    invoke-Holds :
        (m : Machine) (t : ℕ) (call : Call) (o : Option (Call × ℕ))
        → Holds m
        → Holds (invoke_thread m t call o)
    unfolding invoke_thread
    invoke-Holds m t call none h = begin_call-Holds m t call (early call) refl h
    invoke-Holds m t call (some busy) h = h

    advance-Holds :
        (m : Machine) (t : ℕ) (spurious : Bool) (o : Option (Call × ℕ))
        → Looping o
        → Holds m
        → Holds (advance_thread m t spurious o)
    unfolding advance_thread
    advance-Holds m t spurious none l h = h
    advance-Holds m t spurious (some (call, observed)) l h =
        after_round-Holds m t call observed spurious _ l refl h

    step-Holds : (m : Machine) (e : Event Call) → Holds m → Holds (step m e)
    unfolding step
    step-Holds m (invoke t call) h = invoke-Holds m t call (m.running t) h
    step-Holds m (advance t spurious) h = advance-Holds m t spurious (m.running t) (h.loops t) h

    run-Holds : (m : Machine) (es : List (Event Call)) → Holds m → Holds (run m es)
    unfolding run
    run-Holds m [] h = h
    run-Holds m (e ∷ es) h = run-Holds (step m e) es (step-Holds m e h)

    -- What every return keeps holds after every schedule from an idle machine.
    pub run_keeps :
        (memory : ℕ) (es : List (Event Call))
        → P memory []
        → P (run (idle_at memory) es).memory (run (idle_at memory) es).replies
    run_keeps memory es h =
        (run-Holds (idle_at memory) es
          (unfold idle_at in record { valid = h; loops = λ t. tt })).valid
