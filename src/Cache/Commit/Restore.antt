-- ===== src/Cache/Commit/Restore.antt =====
-- Skyrim/src/DecompCache.cpp, AppendFile: what its rollback restores after a failed call.
use faster_file_copy.Prelude.{
  ℕ, ◌+◌, ◌*◌, ◌≤◌, ◌≡◌, ◌≢◌, inl, inr, refl, ap, ◌∙◌, true, false, List, [], ◌∷◌, ◌++◌, length,
  length-append, All, arith, u64_max,
}
use faster_file_copy.Format.Layout.{header_size, entry_size, ArchiveIdentity}
use faster_file_copy.Cache.Volume.{Volume, Apart}
use faster_file_copy.Cache.Commit.{
  PreparedPending, Call, seek, write_chunk, truncate, flush_file, Answer, Status, finished, failed,
  crashed, write_at, run, index_slot, fresh_header, encode_entries, append_calls, rollback_calls,
  run_statements, after_failure, append_file,
}
use faster_file_copy.Cache.Commit.Ranges.{Avoids, Has, write_at-Avoids, splice-Has_here, All-append}
use faster_file_copy.Cache.Commit.Keeps.{run-Has, flush-Kept}
use faster_file_copy.Cache.Commit.Effect.{payloads}
use faster_file_copy.Cache.Commit.Content.{
  Storable, begin, layout, length-layout, length-encode_entries,
}
use faster_file_copy.Cache.Commit.Durable.{
  header_of, index_of, end_of, length-header_of, length-index_of, header_chunk, Stored, data_calls,
  header_calls, data_calls-Avoids,
}
use faster_file_copy.Cache.Commit.Steps.{
  NoFailure, run_step, run-NoFailure, chunk_done, seek_same, flush_done, flush_not_refused,
  seek_not_refused, chunk_not_refused,
}
use faster_file_copy.Cache.Commit.Append.{append_calls-parts, no_calls}

-- A call of an append leaves the old index and the old payloads alone.
header_calls-Avoids :
    (id : ArchiveIdentity) (l m : List PreparedPending) (i n : ℕ)
    → header_size ≤ i
    → All (Avoids i n) (header_calls id l m)
header_calls-Avoids id l m i n h = (
  tt,
  All-append (Avoids i n) (write_at true 0 (header_of id (l ++ m))) (flush_file ∷ [])
      (write_at-Avoids true 0 (header_of id (l ++ m)) i n
        (inr (omega (arith, length-header_of id (l ++ m), h))))
      (tt, tt),
)

append_calls-Avoids :
    (id : ArchiveIdentity) (l m : List PreparedPending) (i n : ℕ)
    → end_of id (l ++ m) ≤ u64_max
    → header_size ≤ i
    → i + n ≤ end_of id l
    → Apart i n (index_slot (length l)) (length (encode_entries (layout (end_of id l) m)))
    → All (Avoids i n) (append_calls (fresh_header id (length l)) (end_of id l) m)
append_calls-Avoids id l [] i n room behind h apart = rw (no_calls id l) (h, (tt, tt))
append_calls-Avoids id l (p ∷ m) i n room behind h apart = rw (append_calls-parts id l p m room) (
    All-append (Avoids i n) (data_calls id l (p ∷ m)) (header_calls id l (p ∷ m))
      (data_calls-Avoids id l (p ∷ m) i n h apart) (header_calls-Avoids id l (p ∷ m) i n behind))

module _ (V : Volume) (id : ArchiveIdentity) (l : List PreparedPending)
    (within : length l ≤ id.archive_entries) where
  -- The old list as a reader sees it, under any header.
  abbrev pub Body : V.File → Type 0
  Body f = Has (V.bytes f) header_size (index_of id l) × Has (V.bytes f) (begin id) (payloads l)

  run-Body :
      (calls : List Call) (answers : List Answer) (f : V.File)
      → All (Avoids header_size (length (index_of id l))) calls
      → All (Avoids (begin id) (length (payloads l))) calls
      → Body f
      → Body (run V calls answers f).1
  run-Body calls answers f i d b = (
    run-Has V calls answers f header_size (index_of id l) i b.0,
    run-Has V calls answers f (begin id) (payloads l) d b.1,
  )

  pub append_calls-Body :
      (m : List PreparedPending) (answers : List Answer) (f : V.File)
      → end_of id (l ++ m) ≤ u64_max
      → length (l ++ m) ≤ id.archive_entries
      → Body f
      → Body (run V (append_calls (fresh_header id (length l)) (end_of id l) m) answers f).1
  append_calls-Body m answers f room all b =
      let new : length (encode_entries (layout (end_of id l) m)) ≡ length m * entry_size =
        length-encode_entries (layout (end_of id l) m)
        ∙ ap (λ n. n * entry_size) (length-layout (end_of id l) m) in
      let both : length l + length m ≤ id.archive_entries = omega (arith, all, length-append l m) in
      run-Body (append_calls (fresh_header id (length l)) (end_of id l) m) answers f
        (append_calls-Avoids id l m header_size (length (index_of id l)) room (omega arith)
          (omega (arith, within, length-index_of id l)) (inl (omega (arith, length-index_of id l))))
        (append_calls-Avoids id l m (begin id) (length (payloads l)) room (omega arith)
          (omega arith) (inr (omega (arith, both, new))))
        b

  abbrev Seen : V.File → Type 0
  Seen f = Has (V.bytes f) 0 (header_of id l) × Body f

  flush_restores :
      (answers : List Answer) (f : V.File)
      → NoFailure answers
      → Seen f
      → (run V (flush_file ∷ []) answers f).0 ≢ crashed
      → Stored V id l (run V (flush_file ∷ []) answers f).1
  unfolding run
  flush_restores [] f sure s = λ alive. absurd (alive refl)
  flush_restores (a ∷ answers) f sure s =
      run_step V (λ r. r.0 ≢ crashed → Stored V id l r.1) flush_file [] a answers f
        (λ t alive. rw (flush_done V a f t) (record {
          header_kept = flush-Kept V f 0 (header_of id l) s.0;
          index_kept = flush-Kept V f header_size (index_of id l) s.1.0;
          data_kept = flush-Kept V f (begin id) (payloads l) s.1.1;
        }))
        (λ t alive. absurd (ground (arith, t, flush_not_refused V a f sure.0)))

  header_restored :
      (answers : List Answer) (f : V.File)
      → NoFailure answers
      → (run V (write_at false 0 (header_of id l)) answers f).0 ≢ crashed
      → Has (V.bytes (run V (write_at false 0 (header_of id l)) answers f).1) 0 (header_of id l)
  unfolding run
  header_restored answers f sure = rw (header_chunk false id l) (by_seek answers sure)
    where
      by_chunk :
          (answers : List Answer)
          → NoFailure answers
          → (run V (write_chunk false 0 (header_of id l) ∷ []) answers f).0 ≢ crashed
          → Has
              (V.bytes (run V (write_chunk false 0 (header_of id l) ∷ []) answers f).1)
              0
              (header_of id l)
      by_chunk [] sure = λ alive. absurd (alive refl)
      by_chunk (a ∷ answers) sure =
          run_step V (λ r. r.0 ≢ crashed → Has (V.bytes r.1) 0 (header_of id l))
            (write_chunk false 0 (header_of id l)) [] a answers f
            (λ t alive. rw (chunk_done V false 0 (header_of id l) a f t) (
              rw (V.bytes-write f 0 (header_of id l))
                (splice-Has_here (V.bytes f) 0 (header_of id l))))
            (λ t alive.
              absurd (ground (arith, t, chunk_not_refused V 0 (header_of id l) a f sure.0)))

      by_seek :
          (answers : List Answer)
          → NoFailure answers
          → (run V (seek ∷ write_chunk false 0 (header_of id l) ∷ []) answers f).0 ≢ crashed
          → Has
              (V.bytes (run V (seek ∷ write_chunk false 0 (header_of id l) ∷ []) answers f).1)
              0
              (header_of id l)
      by_seek [] sure = λ alive. absurd (alive refl)
      by_seek (a ∷ answers) sure =
          run_step V (λ r. r.0 ≢ crashed → Has (V.bytes r.1) 0 (header_of id l)) seek
            (write_chunk false 0 (header_of id l) ∷ []) a answers f
            (λ t. rw (seek_same V a f) (by_chunk answers sure.1))
            (λ t alive. absurd (ground (arith, t, seek_not_refused V a f sure.0)))

  ends :
      (r : Status × V.File × List Answer)
      → (run_statements V [] r).0 ≡ failed
      → (r.0 ≢ crashed) × ((run_statements V [] r).1 ≡ r.1)
  unfolding run_statements
  ends (finished, f, answers) h = ((λ e. absurd (ground arith)), refl)
  ends (failed, f, answers) h = ((λ e. absurd (ground arith)), refl)
  ends (crashed, f, answers) h = absurd (ground arith)

  flush_ends :
      (answers : List Answer) (f : V.File)
      → NoFailure answers
      → Seen f
      → (run_statements V [] (run V (flush_file ∷ []) answers f)).0 ≡ failed
      → Stored V id l (run_statements V [] (run V (flush_file ∷ []) answers f)).1
  flush_ends answers f sure s h =
      let e = ends (run V (flush_file ∷ []) answers f) h in
      rw e.1 (flush_restores answers f sure s e.0)

  flush_statement :
      (r : Status × V.File × List Answer)
      → NoFailure r.2
      → (r.0 ≢ crashed → Seen r.1)
      → (run_statements V ((flush_file ∷ []) ∷ []) r).0 ≡ failed
      → Stored V id l (run_statements V ((flush_file ∷ []) ∷ []) r).1
  unfolding run_statements
  flush_statement (finished, f, answers) sure s =
      flush_ends answers f sure (s (λ e. absurd (ground arith)))
  flush_statement (failed, f, answers) sure s =
      flush_ends answers f sure (s (λ e. absurd (ground arith)))
  flush_statement (crashed, f, answers) sure s = λ h. absurd (ground arith)

  cut_flush :
      (answers : List Answer) (f : V.File)
      → NoFailure answers
      → Seen f
      → (run_statements V
          ((flush_file ∷ []) ∷ [])
          (run V (truncate false (end_of id l) ∷ []) answers f)).0
        ≡ failed
      → Stored V id l
          (run_statements V
            ((flush_file ∷ []) ∷ [])
            (run V (truncate false (end_of id l) ∷ []) answers f)).1
  cut_flush answers f sure s =
      let cut = truncate false (end_of id l) ∷ [] in
      flush_statement (run V cut answers f) (run-NoFailure V cut answers f sure) (λ alive. (
        run-Has V cut answers f 0 (header_of id l) (omega (arith, length-header_of id l), tt) s.0,
        run-Body cut answers f (omega (arith, within, length-index_of id l), tt) (omega arith, tt)
            s.1,
      ))

  cut_statement :
      (r : Status × V.File × List Answer)
      → NoFailure r.2
      → (r.0 ≢ crashed → Seen r.1)
      → (run_statements V ((truncate false (end_of id l) ∷ []) ∷ (flush_file ∷ []) ∷ []) r).0
        ≡ failed
      → Stored V id l
          (run_statements V ((truncate false (end_of id l) ∷ []) ∷ (flush_file ∷ []) ∷ []) r).1
  unfolding run_statements
  cut_statement (finished, f, answers) sure s =
      cut_flush answers f sure (s (λ e. absurd (ground arith)))
  cut_statement (failed, f, answers) sure s =
      cut_flush answers f sure (s (λ e. absurd (ground arith)))
  cut_statement (crashed, f, answers) sure s = λ h. absurd (ground arith)

  pub rollback_restores :
      (answers : List Answer) (f : V.File)
      → NoFailure answers
      → Body f
      → (run_statements V
          (rollback_calls (fresh_header id (length l)) (end_of id l))
          (failed, f, answers)).0
        ≡ failed
      → Stored V id l
          (run_statements V
            (rollback_calls (fresh_header id (length l)) (end_of id l))
            (failed, f, answers)).1
  unfolding run_statements rollback_calls
  rollback_restores answers f sure b =
      let header = write_at false 0 (header_of id l) in
      cut_statement (run V header answers f) (run-NoFailure V header answers f sure) (λ alive. (
        header_restored answers f sure alive,
        run-Body header answers f
            (write_at-Avoids false 0 (header_of id l) header_size (length (index_of id l))
              (inr (omega (arith, length-header_of id l))))
            (write_at-Avoids false 0 (header_of id l) (begin id) (length (payloads l))
              (inr (omega (arith, length-header_of id l))))
            b,
      ))

  after_failed :
      (r : Status × V.File × List Answer)
      → NoFailure r.2
      → Body r.1
      → (after_failure V (fresh_header id (length l)) (end_of id l) r).0 ≡ failed
      → Stored V id l (after_failure V (fresh_header id (length l)) (end_of id l) r).1
  unfolding after_failure
  after_failed (finished, f, answers) sure b = λ h. absurd (ground arith)
  after_failed (crashed, f, answers) sure b = λ h. absurd (ground arith)
  after_failed (failed, f, answers) sure b = rollback_restores answers f sure b

-- Let a durable file represent a list of payloads, and let it and the new payloads together be a list
-- that a file can hold. Whichever call of the append fails, and however much of a write it leaves
-- behind: if the calls of the rollback do not fail and the system does not crash, the failed append
-- leaves a durable file with the old list of payloads.
pub append_file-failed :
    (V : Volume) (id : ArchiveIdentity) (l m : List PreparedPending) (answers : List Answer)
    (f : V.File)
    → Storable id (l ++ m)
    → Stored V id l f
    → NoFailure (run V (append_calls (fresh_header id (length l)) (end_of id l) m) answers f).2
    → (append_file V (fresh_header id (length l)) (end_of id l) m answers f).0 ≡ failed
    → Stored V id l (append_file V (fresh_header id (length l)) (end_of id l) m answers f).1
unfolding append_file
append_file-failed V id l m answers f ok s sure =
    let within : length l ≤ id.archive_entries =
      omega (arith, ok.within_capacity, length-append l m) in
    after_failed V id l within
      (run V (append_calls (fresh_header id (length l)) (end_of id l) m) answers f) sure
      (append_calls-Body V id l within m answers f ok.room ok.within_capacity
        (s.index_kept.seen, s.data_kept.seen))
