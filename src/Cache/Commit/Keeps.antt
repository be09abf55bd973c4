-- ===== src/Cache/Commit/Keeps.antt =====
-- What a chain of calls keeps of a file, whatever the answers and wherever it ends.
use faster_file_copy.Prelude.{
  ℕ, ◌+◌, ◌≤◌, ◌≡◌, inl, inr, refl, ◌&&◌, Option, none, some, List, [], ◌∷◌, ◌++◌, length, take,
  All, Bool-cases,
}
use faster_file_copy.Prelude.Splice.{slice}
use faster_file_copy.Cache.Volume.{Volume, Apart}
use faster_file_copy.Cache.Commit.{
  Call, seek, write_chunk, truncate, flush_file, flush_unless_cancelled, overflow, Answer, Status,
  finished, failed, crashed, attempt, perform, run,
}
use faster_file_copy.Cache.Commit.Ranges.{Avoids, Has, splice-Has, resize-Has, Apart-take}

-- A property that every call that avoids a range keeps.
module _ (V : Volume) (i n : ℕ) (P : V.File → Type 0)
    (write_P : (f : V.File) (o : ℕ) (b : List ℕ) → Apart i n o (length b) → P f → P (V.write f o b))
    (torn_P : (f : V.File) (o : ℕ) (b : List ℕ) (got : ℕ)
      → Apart i n o (length b)
      → P f
      → P (V.torn f o b got))
    (set_size_P : (f : V.File) (size : ℕ) → i + n ≤ size → P f → P (V.set_size f size))
    (flush_P : (f : V.File) → P f → P (V.flush f)) where
  attempt_lem :
      (o : Option ℕ) (done : V.File) (torn : ℕ → V.File)
      → P done
      → ((got : ℕ) → P (torn got))
      → P (attempt o done torn).1
  unfolding attempt
  attempt_lem none done torn p q = p
  attempt_lem (some got) done torn p q = q got

  perform_keeps :
      (call : Call) (a : Answer) (f : V.File) → Avoids i n call → P f → P (perform V call a f).1
  unfolding perform
  perform_keeps seek a f h k = attempt_lem a.failure f (λ got. f) k (λ got. k)
  perform_keeps (write_chunk cancellable o b) a f h k =
      elim (Bool-cases (cancellable && a.cancelled)) [
        | inl stop ↦ rw stop k
        | inr go ↦ rw go (
            attempt_lem a.failure (V.write f o b) (V.torn f o b) (write_P f o b h k)
              (λ got. torn_P f o b got h k))
      ]
  perform_keeps (truncate cancellable size) a f h k =
      elim (Bool-cases (cancellable && a.cancelled)) [
        | inl stop ↦ rw stop k
        | inr go ↦ rw go (
            attempt_lem a.failure (V.set_size f size) (λ got. f) (set_size_P f size h k) (λ got. k))
      ]
  perform_keeps flush_file a f h k =
      attempt_lem a.failure (V.flush f) (λ got. f) (flush_P f k) (λ got. k)
  perform_keeps flush_unless_cancelled a f h k = elim (Bool-cases a.cancelled) [
    | inl stop ↦ rw stop k
    | inr go ↦ rw go (attempt_lem a.failure (V.flush f) (λ got. f) (flush_P f k) (λ got. k))
  ]
  perform_keeps overflow a f h k = k

  run_keeps :
      (calls : List Call) (answers : List Answer) (f : V.File)
      → All (Avoids i n) calls
      → P f
      → P (run V calls answers f).1
  unfolding run
  run_keeps [] answers f h k = k
  run_keeps (call ∷ calls) [] f h k = k
  run_keeps (call ∷ calls) (a ∷ answers) f h k =
      let one = perform_keeps call a f h.0 k in
      elim (Bool-cases (perform V call a f).0) [
        | inl good ↦ rw good (run_keeps calls answers _ h.1 one)
        | inr bad ↦ rw bad one
      ]

module _ (V : Volume) where
  -- Every image of the file has these bytes at the offset.
  abbrev pub Stable : V.File → ℕ → List ℕ → Type 0
  Stable f i c =
      (img : List ℕ) → V.Image f img → (slice i (length c) img ≡ c) × (i + length c ≤ length img)

  -- The bytes that a reader sees, and that survive a crash.
  pub record Kept (f : V.File) (i : ℕ) (c : List ℕ) : Type 0 where
    pub seen : Has (V.bytes f) i c
    pub survives : Stable f i c

  pub flush-Kept : (f : V.File) (i : ℕ) (c : List ℕ) → Has (V.bytes f) i c → Kept (V.flush f) i c
  flush-Kept f i c h = record {
    seen = rw (V.bytes-flush f) h;
    survives = λ img is. rw (V.flush_settles f img is) h;
  }

  pub write-Kept :
      (f : V.File) (o : ℕ) (b : List ℕ) (i : ℕ) (c : List ℕ)
      → Apart i (length c) o (length b)
      → Kept f i c
      → Kept (V.write f o b) i c
  write-Kept f o b i c apart k = record {
    seen = rw (V.bytes-write f o b) (splice-Has (V.bytes f) o b i c apart k.seen);
    survives = V.write_keeps f o b i (length c) c apart k.survives;
  }

  torn-Kept :
      (f : V.File) (o : ℕ) (b : List ℕ) (got i : ℕ) (c : List ℕ)
      → Apart i (length c) o (length b)
      → Kept f i c
      → Kept (V.torn f o b got) i c
  torn-Kept f o b got i c apart k = record {
    seen =
        rw (V.bytes-torn f o b got) (
          splice-Has (V.bytes f) o (take got b) i c (Apart-take i (length c) o got b apart) k.seen);
    survives = V.torn_keeps f o b got i (length c) c apart k.survives;
  }

  set_size-Kept :
      (f : V.File) (size i : ℕ) (c : List ℕ)
      → i + length c ≤ size
      → Kept f i c
      → Kept (V.set_size f size) i c
  set_size-Kept f size i c h k = record {
    seen = rw (V.bytes-set_size f size) (resize-Has (V.bytes f) size i c h k.seen);
    survives = V.set_size_keeps f size i (length c) c h k.survives;
  }

  -- Whatever the answers, and wherever the chain ends.
  pub run-Kept :
      (calls : List Call) (answers : List Answer) (f : V.File) (i : ℕ) (c : List ℕ)
      → All (Avoids i (length c)) calls
      → Kept f i c
      → Kept (run V calls answers f).1 i c
  run-Kept calls answers f i c =
      run_keeps V i (length c) (λ g. Kept g i c) (λ g o b. write-Kept g o b i c)
        (λ g o b got. torn-Kept g o b got i c) (λ g size. set_size-Kept g size i c)
        (λ g k. flush-Kept g i c k.seen) calls answers f

  pub run-Has :
      (calls : List Call) (answers : List Answer) (f : V.File) (i : ℕ) (c : List ℕ)
      → All (Avoids i (length c)) calls
      → Has (V.bytes f) i c
      → Has (V.bytes (run V calls answers f).1) i c
  run-Has calls answers f i c =
      run_keeps V i (length c) (λ g. Has (V.bytes g) i c)
        (λ g o b apart h. rw (V.bytes-write g o b) (splice-Has (V.bytes g) o b i c apart h))
        (λ g o b got apart h.
          rw (V.bytes-torn g o b got)
            (splice-Has (V.bytes g) o (take got b) i c (Apart-take i (length c) o got b apart) h))
        (λ g size fits h. rw (V.bytes-set_size g size) (resize-Has (V.bytes g) size i c fits h))
        (λ g h. rw (V.bytes-flush g) h) calls answers f

  -- The second of two chains runs only if the first one ends well.
  unfoldable pub continue :
      List Call → Status × V.File × List Answer → Status × V.File × List Answer
  continue m (finished, f, answers) = run V m answers f
  continue m (failed, f, answers) = (failed, f, answers)
  continue m (crashed, f, answers) = (crashed, f, answers)

  pub run-append :
      (l m : List Call) (answers : List Answer) (f : V.File)
      → run V (l ++ m) answers f ≡ continue m (run V l answers f)
  unfolding run continue
  run-append [] m answers f = refl
  run-append (call ∷ l) m [] f = refl
  run-append (call ∷ l) m (a ∷ answers) f = elim (Bool-cases (perform V call a f).0) [
    | inl good ↦ rw good (run-append l m answers _)
    | inr bad ↦ rw bad refl
  ]
