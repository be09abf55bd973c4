-- ===== src/Cache/Commit/Steps.antt =====
-- What one call does by its answer, and how a chain of calls ends.
use faster_file_copy.Prelude.{
  ℕ, ◌≡◌, inl, inr, refl, Bool, true, false, ◌&&◌, Option, none, some, List, [], ◌∷◌, All, arith,
  Bool-cases,
}
use faster_file_copy.Cache.Volume.{Volume}
use faster_file_copy.Cache.Commit.{
  Call, seek, write_chunk, flush_file, Answer, Status, failed, run, perform, attempt,
}
use faster_file_copy.Cache.Commit.Effect.{attempt-true}

-- No call fails by itself. Cancelling stays possible at every look at the flag.
abbrev pub NoFailure : List Answer → Type 0
NoFailure = All (λ (a : Answer). a.failure ≡ none)

attempt-same : {A : Type 0} (o : Option ℕ) (f : A) → (attempt o f (λ got. f)).1 ≡ f
unfolding attempt
attempt-same none f = refl
attempt-same (some got) f = refl

attempt-none :
    {A : Type 0} (o : Option ℕ) (done : A) (torn : ℕ → A)
    → o ≡ none
    → (attempt o done torn).0 ≡ true
unfolding attempt
attempt-none none done torn e = refl
attempt-none (some got) done torn e = absurd (ground arith)

module _ (V : Volume) where
  pub seek_same : (a : Answer) (f : V.File) → (perform V seek a f).1 ≡ f
  unfolding perform
  seek_same a f = attempt-same a.failure f

  pub chunk_done :
      (cancellable : Bool) (o : ℕ) (b : List ℕ) (a : Answer) (f : V.File)
      → (perform V (write_chunk cancellable o b) a f).0 ≡ true
      → (perform V (write_chunk cancellable o b) a f).1 ≡ V.write f o b
  unfolding perform
  chunk_done cancellable o b a f h = elim (Bool-cases (cancellable && a.cancelled)) [
    | inl stop ↦ absurd (ground (arith, rw stop at h))
    | inr go ↦ rw go (attempt-true a.failure (V.write f o b) (V.torn f o b) (rw go at h))
  ]

  pub seek_not_refused :
      (a : Answer) (f : V.File) → a.failure ≡ none → (perform V seek a f).0 ≡ true
  unfolding perform
  seek_not_refused a f none_fails = attempt-none a.failure f (λ got. f) none_fails

  pub chunk_not_refused :
      (o : ℕ) (b : List ℕ) (a : Answer) (f : V.File)
      → a.failure ≡ none
      → (perform V (write_chunk false o b) a f).0 ≡ true
  unfolding perform
  chunk_not_refused o b a f none_fails =
      attempt-none a.failure (V.write f o b) (V.torn f o b) none_fails

  -- A chunk that is not written was cancelled.
  pub chunk_refused :
      (cancellable : Bool) (o : ℕ) (b : List ℕ) (a : Answer) (f : V.File)
      → a.failure ≡ none
      → (perform V (write_chunk cancellable o b) a f).0 ≡ false
      → (perform V (write_chunk cancellable o b) a f).1 ≡ f
  unfolding perform
  chunk_refused cancellable o b a f none_fails h = elim (Bool-cases (cancellable && a.cancelled)) [
    | inl stop ↦ rw stop refl
    | inr go ↦
        let done = attempt-none a.failure (V.write f o b) (V.torn f o b) none_fails in
        absurd (ground (arith, rw go at h, done))
  ]

  pub flush_done :
      (a : Answer) (f : V.File)
      → (perform V flush_file a f).0 ≡ true
      → (perform V flush_file a f).1 ≡ V.flush f
  unfolding perform
  flush_done a f h = attempt-true a.failure (V.flush f) (λ got. f) h

  pub flush_not_refused :
      (a : Answer) (f : V.File) → a.failure ≡ none → (perform V flush_file a f).0 ≡ true
  unfolding perform
  flush_not_refused a f none_fails = attempt-none a.failure (V.flush f) (λ got. f) none_fails

  -- A property of how a chain ends, by its first call.
  pub run_step :
      (Q : Status × V.File × List Answer → Type 0) (c : Call) (calls : List Call) (a : Answer)
      (answers : List Answer) (f : V.File)
      → ((perform V c a f).0 ≡ true → Q (run V calls answers (perform V c a f).1))
      → ((perform V c a f).0 ≡ false → Q (failed, (perform V c a f).1, answers))
      → Q (run V (c ∷ calls) (a ∷ answers) f)
  unfolding run
  run_step Q c calls a answers f good bad = elim (Bool-cases (perform V c a f).0) [
    | inl t ↦ rw t (good t)
    | inr t ↦ rw t (bad t)
  ]

  pub run-NoFailure :
      (calls : List Call) (answers : List Answer) (f : V.File)
      → NoFailure answers
      → NoFailure (run V calls answers f).2
  unfolding run
  run-NoFailure [] answers f h = h
  run-NoFailure (c ∷ calls) [] f h = tt
  run-NoFailure (c ∷ calls) (a ∷ answers) f h =
      run_step (λ r. NoFailure r.2) c calls a answers f (λ t. run-NoFailure calls answers _ h.1)
        (λ t. h.1)
