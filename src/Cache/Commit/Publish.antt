-- ===== src/Cache/Commit/Publish.antt =====
-- AppendFile's last writes: the flush behind the index, the new header and its flush; and what a
-- crash in between leaves.
use faster_file_copy.Prelude.{
  ℕ, ◌+◌, ◌≤◌, ◌≡◌, ◌⊎◌, inl, inr, sym, ap, ◌∙◌, true, List, [], ◌∷◌, ◌++◌, length, arith,
}
use faster_file_copy.Prelude.Splice.{slice}
use faster_file_copy.Format.Layout.{header_size, ArchiveIdentity}
use faster_file_copy.Cache.Volume.{Volume}
use faster_file_copy.Cache.Commit.{
  PreparedPending, seek, write_chunk, flush_file, Answer, Status, finished, failed, crashed,
  write_at, run,
}
use faster_file_copy.Cache.Commit.Ranges.{Has, splice-Has_here}
use faster_file_copy.Cache.Commit.Keeps.{Kept, flush-Kept, write-Kept}
use faster_file_copy.Cache.Commit.Effect.{payloads}
use faster_file_copy.Cache.Commit.Content.{Represents, begin}
use faster_file_copy.Cache.Commit.Durable.{
  header_of, index_of, length-header_of, header_chunk, header_calls, Stored, Stored-Represents,
}
use faster_file_copy.Cache.Commit.Steps.{
  NoFailure, seek_same, chunk_done, chunk_refused, flush_done, flush_not_refused, run_step,
}

module _ (V : Volume) (id : ArchiveIdentity) (l m : List PreparedPending) where
  -- How an append may end, if the calls do as N says: with the old list or the new one after a crash,
  -- with the old one after a failure, and with the new one otherwise.
  abbrev pub Outcome : Type 0 → Status × V.File × List Answer → Type 0
  Outcome N (crashed, f, answers) =
      N → (img : List ℕ) → V.Image f img → Represents id l img ⊎ Represents id (l ++ m) img
  Outcome N (failed, f, answers) = N → Stored V id l f
  Outcome N (finished, f, answers) = Stored V id (l ++ m) f

  old_crash :
      (N : Type 0) (f : V.File) (answers : List Answer)
      → Stored V id l f
      → Outcome N (crashed, f, answers)
  old_crash N f answers s n img is = inl (Stored-Represents V id l f img s is)

  -- The old list under the old header, and all of the new one but the header.
  pub record Ready (f : V.File) : Type 0 where
    pub old : Stored V id l f
    pub new_index : Kept V f header_size (index_of id (l ++ m))
    pub new_data : Kept V f (begin id) (payloads (l ++ m))

  -- A crash in the write of the new header leaves one of the two.
  torn_header :
      (f : V.File) (img : List ℕ)
      → Ready f
      → V.Image (V.write f 0 (header_of id (l ++ m))) img
      → Represents id l img ⊎ Represents id (l ++ m) img
  torn_header f img r is =
      let new = header_of id (l ++ m) in
      let sizes : length (header_of id l) ≡ length new =
        length-header_of id l ∙ sym (length-header_of id (l ++ m)) in
      let behind : 0 + length new ≤ header_size = omega (arith, length-header_of id (l ++ m)) in
      let before : (j : List ℕ)
          → V.Image f j
          → (slice 0 (length new) j ≡ header_of id l) × (length new ≤ length j) =
        λ j js. (
          ap (λ n. slice 0 n j) (sym sizes) ∙ (r.old.header_kept.survives j js).0,
          omega (arith, (r.old.header_kept.survives j js).1, sizes),
        ) in
      let sector =
        V.sector_atomic f new (header_of id l) (omega (arith, length-header_of id (l ++ m))) before
          img is in
      let old_index =
        (write-Kept V f 0 new header_size (index_of id l) (inr behind) r.old.index_kept).survives
          img is in
      let old_data =
        (write-Kept V f 0 new (begin id) (payloads l) (inr (omega (arith, behind)))
            r.old.data_kept).survives
          img is in
      let index =
        (write-Kept V f 0 new header_size (index_of id (l ++ m)) (inr behind) r.new_index).survives
          img is in
      let body =
        (write-Kept V f 0 new (begin id) (payloads (l ++ m)) (inr (omega (arith, behind)))
            r.new_data).survives
          img is in
      elim sector.0 [
        | inl kept ↦ inl (record {
          has_header = (ap (λ n. slice 0 n img) sizes ∙ kept, omega (arith, sector.1, sizes));
          has_index = old_index;
          has_data = old_data;
        })
        | inr replaced ↦ inr (record {
          has_header = (replaced, omega (arith, sector.1));
          has_index = index;
          has_data = body;
        })
      ]

  -- The new header, flushed.
  new_header :
      (f : V.File) → Ready f → Stored V id (l ++ m) (V.flush (V.write f 0 (header_of id (l ++ m))))
  new_header f r =
      let new = header_of id (l ++ m) in
      let behind : 0 + length new ≤ header_size = omega (arith, length-header_of id (l ++ m)) in
      let g = V.write f 0 new in
      record {
        header_kept =
            flush-Kept V g 0 new (rw (V.bytes-write f 0 new) (splice-Has_here (V.bytes f) 0 new));
        index_kept =
            flush-Kept V g header_size (index_of id (l ++ m))
              (write-Kept V f 0 new header_size (index_of id (l ++ m)) (inr behind)
                r.new_index).seen;
        data_kept =
            flush-Kept V g (begin id) (payloads (l ++ m))
              (write-Kept V f 0 new (begin id) (payloads (l ++ m)) (inr (omega (arith, behind)))
                r.new_data).seen;
      }

  last_flush :
      (N : Type 0) (f : V.File) (answers : List Answer)
      → (N → NoFailure answers)
      → Ready f
      → Outcome N (run V (flush_file ∷ []) answers (V.write f 0 (header_of id (l ++ m))))
  unfolding run
  last_flush N f [] sure r = λ n img is. torn_header f img r is
  last_flush N f (a ∷ answers) sure r =
      let g = V.write f 0 (header_of id (l ++ m)) in
      run_step V (Outcome N) flush_file [] a answers g
        (λ t. rw (flush_done V a g t) (new_header f r))
        (λ t n. absurd (ground (arith, t, flush_not_refused V a g (sure n).0)))

  header_chunk_Outcome :
      (N : Type 0) (f : V.File) (answers : List Answer)
      → (N → NoFailure answers)
      → Ready f
      → Outcome N (run V (write_chunk true 0 (header_of id (l ++ m)) ∷ flush_file ∷ []) answers f)
  unfolding run
  header_chunk_Outcome N f [] sure r = old_crash N f [] r.old
  header_chunk_Outcome N f (a ∷ answers) sure r =
      let new = header_of id (l ++ m) in
      run_step V (Outcome N) (write_chunk true 0 new) (flush_file ∷ []) a answers f
        (λ t. rw (chunk_done V true 0 new a f t) (last_flush N f answers (λ n. (sure n).1) r))
        (λ t n. rw (chunk_refused V true 0 new a f (sure n).0 t) r.old)

  header_write_Outcome :
      (N : Type 0) (f : V.File) (answers : List Answer)
      → (N → NoFailure answers)
      → Ready f
      → Outcome N (run V (write_at true 0 (header_of id (l ++ m)) ++ (flush_file ∷ [])) answers f)
  unfolding run
  header_write_Outcome N f answers sure r =
      rw (header_chunk true id (l ++ m)) (by_seek answers sure)
    where
      by_seek :
          (answers : List Answer)
          → (N → NoFailure answers)
          → Outcome N (
              run V (seek ∷ write_chunk true 0 (header_of id (l ++ m)) ∷ flush_file ∷ []) answers f)
      by_seek [] sure = old_crash N f [] r.old
      by_seek (a ∷ answers) sure =
          run_step V (Outcome N) seek (write_chunk true 0 (header_of id (l ++ m)) ∷ flush_file ∷ [])
            a answers f
            (λ t. rw (seek_same V a f) (header_chunk_Outcome N f answers (λ n. (sure n).1) r))
            (λ t n. rw (seek_same V a f) r.old)

  -- From the flush behind the index on.
  pub header_calls-Outcome :
      (N : Type 0) (f : V.File) (answers : List Answer)
      → (N → NoFailure answers)
      → Stored V id l f
      → Has (V.bytes f) header_size (index_of id (l ++ m))
      → Has (V.bytes f) (begin id) (payloads (l ++ m))
      → Outcome N (run V (header_calls id l m) answers f)
  unfolding run
  header_calls-Outcome N f [] sure s index body = old_crash N f [] s
  header_calls-Outcome N f (a ∷ answers) sure s index body =
      let ready : Ready (V.flush f) = record {
        old = record {
          header_kept = flush-Kept V f 0 (header_of id l) s.header_kept.seen;
          index_kept = flush-Kept V f header_size (index_of id l) s.index_kept.seen;
          data_kept = flush-Kept V f (begin id) (payloads l) s.data_kept.seen;
        };
        new_index = flush-Kept V f header_size (index_of id (l ++ m)) index;
        new_data = flush-Kept V f (begin id) (payloads (l ++ m)) body;
      } in
      run_step V (Outcome N) flush_file
        (write_at true 0 (header_of id (l ++ m)) ++ (flush_file ∷ [])) a answers f
        (λ t.
          rw (flush_done V a f t)
            (header_write_Outcome N (V.flush f) answers (λ n. (sure n).1) ready))
        (λ t n. absurd (ground (arith, t, flush_not_refused V a f (sure n).0)))
