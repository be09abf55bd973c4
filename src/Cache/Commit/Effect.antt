-- ===== src/Cache/Commit/Effect.antt =====
-- WriteAt and the chains of calls: what they make of a file's bytes when every call succeeds.
use faster_file_copy.Prelude.{
  ℕ, zero, suc, ◌+◌, ◌≤◌, ◌<◌, ◌≡◌, inl, inr, refl, sym, ap, ◌∙◌, Bool, true, ◌&&◌, Option, none,
  some, List, [], ◌∷◌, ◌++◌, length, take, drop, length-drop, All, arith, Bool-cases, leb, leb→le,
}
use faster_file_copy.Prelude.Splice.{
  splice, splice-splice, splice_two, take_enough, splice_none, length-splice,
}
use faster_file_copy.Cache.Volume.{Volume, resize}
use faster_file_copy.Cache.Commit.{
  Call, seek, write_chunk, truncate, flush_file, flush_unless_cancelled, overflow, Answer, finished,
  write_chunk_size, write_chunks, write_at, attempt, perform, run, PreparedPending, write_payloads,
}
use faster_file_copy.Cache.Commit.Ranges.{write_chunks_none}

-- A call's effect on the bytes that a reader sees.
abbrev pub effect : List Call → List ℕ → List ℕ
effect [] d = d
effect (seek ∷ calls) d = effect calls d
effect (write_chunk cancellable o b ∷ calls) d = effect calls (splice d o b)
effect (truncate cancellable size ∷ calls) d = effect calls (resize d size)
effect (flush_file ∷ calls) d = effect calls d
effect (flush_unless_cancelled ∷ calls) d = effect calls d
effect (overflow ∷ calls) d = effect calls d

pub effect-append : (l m : List Call) (d : List ℕ) → effect (l ++ m) d ≡ effect m (effect l d)
effect-append [] m d = refl
effect-append (seek ∷ l) m d = effect-append l m d
effect-append (write_chunk cancellable o b ∷ l) m d = effect-append l m (splice d o b)
effect-append (truncate cancellable size ∷ l) m d = effect-append l m (resize d size)
effect-append (flush_file ∷ l) m d = effect-append l m d
effect-append (flush_unless_cancelled ∷ l) m d = effect-append l m d
effect-append (overflow ∷ l) m d = effect-append l m d

pub attempt-true :
    {A : Type 0} (o : Option ℕ) (done : A) (torn : ℕ → A)
    → (attempt o done torn).0 ≡ true
    → (attempt o done torn).1 ≡ done
unfolding attempt
attempt-true none done torn h = refl
attempt-true (some got) done torn h = absurd (ground arith)

module _ (V : Volume) where
  perform-effect :
      (call : Call) (a : Answer) (f : V.File)
      → (perform V call a f).0 ≡ true
      → V.bytes (perform V call a f).1 ≡ effect (call ∷ []) (V.bytes f)
  unfolding perform
  perform-effect seek a f h = ap V.bytes (attempt-true a.failure f (λ got. f) h)
  perform-effect (write_chunk cancellable o b) a f h =
      elim (Bool-cases (cancellable && a.cancelled)) [
        | inl stop ↦ absurd (ground (arith, rw stop at h))
        | inr go ↦ rw go (
            ap V.bytes (attempt-true a.failure (V.write f o b) (V.torn f o b) (rw go at h))
            ∙ V.bytes-write f o b)
      ]
  perform-effect (truncate cancellable size) a f h =
      elim (Bool-cases (cancellable && a.cancelled)) [
        | inl stop ↦ absurd (ground (arith, rw stop at h))
        | inr go ↦ rw go (
            ap V.bytes (attempt-true a.failure (V.set_size f size) (λ got. f) (rw go at h))
            ∙ V.bytes-set_size f size)
      ]
  perform-effect flush_file a f h =
      ap V.bytes (attempt-true a.failure (V.flush f) (λ got. f) h) ∙ V.bytes-flush f
  perform-effect flush_unless_cancelled a f h = elim (Bool-cases a.cancelled) [
    | inl stop ↦ rw stop refl
    | inr go ↦
        rw go (
          ap V.bytes (attempt-true a.failure (V.flush f) (λ got. f) (rw go at h)) ∙ V.bytes-flush f)
  ]
  perform-effect overflow a f h = absurd (ground arith)

  -- A chain that ends well has every call's effect.
  pub run-effect :
      (calls : List Call) (answers : List Answer) (f : V.File)
      → (run V calls answers f).0 ≡ finished
      → V.bytes (run V calls answers f).1 ≡ effect calls (V.bytes f)
  unfolding run
  run-effect [] answers f h = refl
  run-effect (call ∷ calls) [] f h = absurd (ground arith)
  run-effect (call ∷ calls) (a ∷ answers) f h = elim (Bool-cases (perform V call a f).0) [
    | inl good ↦ rw good (
        run-effect calls answers _ (rw good at h)
        ∙ ap (effect calls) (perform-effect call a f good)
        ∙ sym (effect-append (call ∷ []) calls (V.bytes f)))
    | inr bad ↦ absurd (ground (arith, rw bad at h))
  ]

-- One round of WriteAt's loop, and what its next rounds do.
chunk_step :
    (cancellable : Bool) (fuel k o : ℕ) (b d : List ℕ)
    → (0 < length (drop k b)
        → effect (write_chunks cancellable fuel (o + k) (drop k b)) (splice d o (take k b))
          ≡ splice (splice d o (take k b)) (o + k) (drop k b))
    → effect (write_chunks cancellable fuel (o + k) (drop k b)) (splice d o (take k b))
      ≡ splice d o b
chunk_step cancellable fuel k o b d rest = elim (Bool-cases (leb (length b) k)) [
  | inl small ↦
      rw
        (
          write_chunks_none cancellable fuel (o + k) (drop k b)
              (omega (arith, leb→le _ _ small, length-drop k b)),
          take_enough k b (leb→le _ _ small),
        )
        refl
  | inr large ↦
      let big : k < length b = ground arith in
      rest (omega (arith, length-drop k b)) ∙ splice_two k o b d (omega arith)
]

-- The chunks together are one write, if the fuel is the number of bytes.
effect-write_chunks :
    (cancellable : Bool) (fuel o : ℕ) (b d : List ℕ)
    → length b ≤ fuel
    → 0 < length b
    → effect (write_chunks cancellable fuel o b) d ≡ splice d o b
unfolding write_chunks
effect-write_chunks cancellable zero o b d enough some_bytes = absurd (omega arith)
effect-write_chunks cancellable (suc fuel) o [] d enough some_bytes =
    absurd (omega (arith, some_bytes))
effect-write_chunks cancellable (suc fuel) o (x ∷ b) d enough some_bytes =
    chunk_step cancellable fuel write_chunk_size o (x ∷ b) d (
      effect-write_chunks cancellable fuel (o + write_chunk_size) (drop write_chunk_size (x ∷ b))
        (splice d o (take write_chunk_size (x ∷ b)))
        (omega (arith, enough, length-drop write_chunk_size (x ∷ b))))

pub effect-write_at :
    (cancellable : Bool) (o : ℕ) (b d : List ℕ)
    → 0 < length b
    → effect (write_at cancellable o b) d ≡ splice d o b
unfolding write_at
effect-write_at cancellable o b d h =
    effect-write_chunks cancellable (length b) o b d (omega arith) h

abbrev pub payloads : List PreparedPending → List ℕ
payloads [] = []
payloads (p ∷ pending) = p.payload ++ payloads pending

-- The payloads' writes are one write.
pub effect-write_payloads :
    (o : ℕ) (pending : List PreparedPending) (d : List ℕ)
    → o ≤ length d
    → All (λ (p : PreparedPending). 0 < length p.payload) pending
    → effect (write_payloads o pending) d ≡ splice d o (payloads pending)
unfolding write_payloads
effect-write_payloads o [] d room h = sym (splice_none d o room)
effect-write_payloads o (p ∷ pending) d room h =
    effect-append (write_at true o p.payload) (write_payloads (o + length p.payload) pending) d
    ∙ ap (effect (write_payloads (o + length p.payload) pending))
        (effect-write_at true o p.payload d h.0)
    ∙ effect-write_payloads (o + length p.payload) pending (splice d o p.payload)
        (omega (arith, length-splice d o p.payload)) h.1
    ∙ splice-splice d o p.payload (payloads pending)

-- A write of no more than one chunk.
pub write_at_one :
    (cancellable : Bool) (o : ℕ) (b : List ℕ)
    → 0 < length b
    → length b ≤ write_chunk_size
    → write_at cancellable o b ≡ seek ∷ write_chunk cancellable o b ∷ []
unfolding write_at write_chunks
write_at_one cancellable o [] some_bytes small = absurd (omega (arith, some_bytes))
write_at_one cancellable o (x ∷ b) some_bytes small =
    let rest : write_chunks cancellable (length b) (o + write_chunk_size)
          (drop write_chunk_size (x ∷ b))
        ≡ [] =
      write_chunks_none cancellable (length b) (o + write_chunk_size)
        (drop write_chunk_size (x ∷ b))
        (omega (arith, small, length-drop write_chunk_size (x ∷ b))) in
    let whole : take write_chunk_size (x ∷ b) ≡ x ∷ b =
      take_enough write_chunk_size (x ∷ b) small in
    λ i. seek ∷ write_chunk cancellable o (whole i) ∷ rest i
