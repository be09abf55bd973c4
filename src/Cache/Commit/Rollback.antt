-- ===== src/Cache/Commit/Rollback.antt =====
-- Skyrim/src/DecompCache.cpp, AppendFile: the rollback, and the whole of an append.
use faster_file_copy.Prelude.{
  ℕ, ◌+◌, ◌≤◌, ◌≡◌, ◌≢◌, ◌⊎◌, inl, inr, false, List, [], ◌∷◌, ◌++◌, length, length-append, All,
  arith,
}
use faster_file_copy.Format.Layout.{header_size, ArchiveIdentity}
use faster_file_copy.Cache.Volume.{Volume}
use faster_file_copy.Cache.Commit.{
  PreparedPending, Call, seek, write_chunk, truncate, flush_file, Answer, Status, finished, failed,
  crashed, write_at, run, fresh_header, append_calls, rollback_calls, run_statements, after_failure,
  append_file,
}
use faster_file_copy.Cache.Commit.Ranges.{splice-Has_here}
use faster_file_copy.Cache.Commit.Keeps.{write-Kept}
use faster_file_copy.Cache.Commit.Effect.{payloads}
use faster_file_copy.Cache.Commit.Content.{Sound, Storable, Represents, begin}
use faster_file_copy.Cache.Commit.Durable.{
  header_of, index_of, end_of, length-header_of, length-index_of, header_chunk, Stored,
  Stored-Represents, run-Stored,
}
use faster_file_copy.Cache.Commit.Publish.{Outcome}
use faster_file_copy.Cache.Commit.Steps.{
  NoFailure, run_step, run-NoFailure, chunk_done, chunk_refused, seek_same,
}
use faster_file_copy.Cache.Commit.Append.{append_calls-Outcome}

module _ (V : Volume) (id : ArchiveIdentity) (l : List PreparedPending) where
  -- The statements that follow a failure, if none of their calls fails.
  header_again : (f : V.File) → Stored V id l f → Stored V id l (V.write f 0 (header_of id l))
  header_again f s =
      let h = header_of id l in
      let behind : 0 + length h ≤ header_size = omega (arith, length-header_of id l) in
      record {
        header_kept = record {
          seen = rw (V.bytes-write f 0 h) (splice-Has_here (V.bytes f) 0 h);
          survives = λ img is.
              let sector =
                V.sector_atomic f h h (omega (arith, length-header_of id l))
                  (λ j js. (
                    (s.header_kept.survives j js).0,
                    omega (arith, (s.header_kept.survives j js).1),
                  ))
                  img is in
              (elim sector.0 [ inl e ↦ e | inr e ↦ e ], omega (arith, sector.1));
        };
        index_kept = write-Kept V f 0 h header_size (index_of id l) (inr behind) s.index_kept;
        data_kept =
            write-Kept V f 0 h (begin id) (payloads l) (inr (omega (arith, behind))) s.data_kept;
      }

module _ (V : Volume) (id : ArchiveIdentity) (l : List PreparedPending)
    (within : length l ≤ id.archive_entries) where
  -- Calls that keep the old list, if no call fails by itself.
  abbrev KeepsOld : List Call → Type 0
  KeepsOld calls =
      (answers : List Answer) (f : V.File)
      → NoFailure answers
      → Stored V id l f
      → Stored V id l (run V calls answers f).1

  same_header : KeepsOld (write_at false 0 (header_of id l))
  unfolding run
  same_header answers f sure s = rw (header_chunk false id l) (by_seek answers sure)
    where
      by_chunk :
          (answers : List Answer)
          → NoFailure answers
          → Stored V id l (run V (write_chunk false 0 (header_of id l) ∷ []) answers f).1
      by_chunk [] sure = s
      by_chunk (a ∷ answers) sure =
          run_step V (λ r. Stored V id l r.1) (write_chunk false 0 (header_of id l)) [] a answers f
            (λ t. rw (chunk_done V false 0 (header_of id l) a f t) (header_again V id l f s))
            (λ t. rw (chunk_refused V false 0 (header_of id l) a f sure.0 t) s)

      by_seek :
          (answers : List Answer)
          → NoFailure answers
          → Stored V id l (run V (seek ∷ write_chunk false 0 (header_of id l) ∷ []) answers f).1
      by_seek [] sure = s
      by_seek (a ∷ answers) sure =
          run_step V (λ r. Stored V id l r.1) seek (write_chunk false 0 (header_of id l) ∷ []) a
            answers f (λ t. rw (seek_same V a f) (by_chunk answers sure.1))
            (λ t. rw (seek_same V a f) s)

  cut : KeepsOld (truncate false (end_of id l) ∷ [])
  cut answers f sure s =
      run-Stored V id (truncate false (end_of id l) ∷ []) answers l f
        (omega (arith, length-header_of id l), tt) (omega (arith, within, length-index_of id l), tt)
        (omega arith, tt) s

  flushed : KeepsOld (flush_file ∷ [])
  flushed answers f sure s =
      run-Stored V id (flush_file ∷ []) answers l f (tt, tt) (tt, tt) (tt, tt) s

  statements_keep :
      (statements : List (List Call)) (r : Status × V.File × List Answer)
      → All KeepsOld statements
      → NoFailure r.2
      → Stored V id l r.1
      → Stored V id l (run_statements V statements r).1
  unfolding run_statements
  statements_keep [] (finished, f, answers) k sure s = s
  statements_keep [] (failed, f, answers) k sure s = s
  statements_keep [] (crashed, f, answers) k sure s = s
  statements_keep (c ∷ cs) (finished, f, answers) k sure s =
      statements_keep cs (run V c answers f) k.1 (run-NoFailure V c answers f sure)
        (k.0 answers f sure s)
  statements_keep (c ∷ cs) (failed, f, answers) k sure s =
      statements_keep cs (run V c answers f) k.1 (run-NoFailure V c answers f sure)
        (k.0 answers f sure s)
  statements_keep (c ∷ cs) (crashed, f, answers) k sure s = s

  rollback_keeps :
      (answers : List Answer) (f : V.File)
      → NoFailure answers
      → Stored V id l f
      → Stored V id l
          (run_statements V
            (rollback_calls (fresh_header id (length l)) (end_of id l))
            (failed, f, answers)).1
  unfolding rollback_calls
  rollback_keeps answers f sure s =
      statements_keep (rollback_calls (fresh_header id (length l)) (end_of id l))
        (failed, f, answers) (same_header, (cut, (flushed, tt))) sure s

unfinished :
    (V : Volume) (statements : List (List Call)) (r : Status × V.File × List Answer)
    → (run_statements V statements r).0 ≢ finished
unfolding run_statements
unfinished V [] (finished, f, answers) h = absurd (ground arith)
unfinished V [] (failed, f, answers) h = absurd (ground arith)
unfinished V [] (crashed, f, answers) h = absurd (ground arith)
unfinished V (c ∷ cs) (finished, f, answers) h = unfinished V cs (run V c answers f) h
unfinished V (c ∷ cs) (failed, f, answers) h = unfinished V cs (run V c answers f) h
unfinished V (c ∷ cs) (crashed, f, answers) h = absurd (ground arith)

module _ (V : Volume) (id : ArchiveIdentity) (l m : List PreparedPending) where
  after_Outcome :
      (N : Type 0) (r : Status × V.File × List Answer) (img : List ℕ)
      → length l ≤ id.archive_entries
      → N
      → NoFailure r.2
      → Outcome V id l m N r
      → V.Image (after_failure V (fresh_header id (length l)) (end_of id l) r).1 img
      → Represents id l img ⊎ Represents id (l ++ m) img
  unfolding after_failure
  after_Outcome N (finished, f, answers) img within n sure o is =
      inr (Stored-Represents V id (l ++ m) f img o is)
  after_Outcome N (crashed, f, answers) img within n sure o is = o n img is
  after_Outcome N (failed, f, answers) img within n sure o is =
      inl (Stored-Represents V id l _ img (rollback_keeps V id l within answers f sure (o n)) is)

  finished_Outcome :
      (N : Type 0) (r : Status × V.File × List Answer)
      → Outcome V id l m N r
      → (after_failure V (fresh_header id (length l)) (end_of id l) r).0 ≡ finished
      → Stored V id (l ++ m) (after_failure V (fresh_header id (length l)) (end_of id l) r).1
  unfolding after_failure
  finished_Outcome N (finished, f, answers) o h = o
  finished_Outcome N (crashed, f, answers) o h = absurd (ground arith)
  finished_Outcome N (failed, f, answers) o h = absurd (
      unfinished V (rollback_calls (fresh_header id (length l)) (end_of id l)) (failed, f, answers)
        h)

-- Let a durable file represent a list of payloads, and let it and the new payloads together be a list
-- that a file can hold. Wherever the system crashes in the append, and wherever cancelling stops it:
-- unless a call fails by itself, every file that a restart may find represents the old list of
-- payloads or the old list with all of the new ones.
pub append_file-crash :
    (V : Volume) (id : ArchiveIdentity) (l m : List PreparedPending) (answers : List Answer)
    (f : V.File) (img : List ℕ)
    → Storable id (l ++ m)
    → All Sound m
    → NoFailure answers
    → Stored V id l f
    → V.Image (append_file V (fresh_header id (length l)) (end_of id l) m answers f).1 img
    → Represents id l img ⊎ Represents id (l ++ m) img
unfolding append_file
append_file-crash V id l m answers f img ok sound sure s is =
    let calls = append_calls (fresh_header id (length l)) (end_of id l) m in
    after_Outcome V id l m (NoFailure answers) (run V calls answers f) img
      (omega (arith, ok.within_capacity, length-append l m)) sure
      (run-NoFailure V calls answers f sure)
      (append_calls-Outcome V id l m (NoFailure answers) answers f ok sound (λ n. n) s) is

-- An append to a durable file that ends well, whatever its calls answered, leaves a durable file with
-- the new list, if that is a list that a file can hold.
pub append_file-finished :
    (V : Volume) (id : ArchiveIdentity) (l m : List PreparedPending) (answers : List Answer)
    (f : V.File)
    → Storable id (l ++ m)
    → All Sound m
    → Stored V id l f
    → (append_file V (fresh_header id (length l)) (end_of id l) m answers f).0 ≡ finished
    → Stored V id (l ++ m) (append_file V (fresh_header id (length l)) (end_of id l) m answers f).1
unfolding append_file
append_file-finished V id l m answers f ok sound s h =
    finished_Outcome V id l m (NoFailure answers)
      (run V (append_calls (fresh_header id (length l)) (end_of id l) m) answers f)
      (append_calls-Outcome V id l m (NoFailure answers) answers f ok sound (λ n. n) s) h
