-- ===== src/Cache/Commit/Append.antt =====
-- Skyrim/src/DecompCache.cpp, AppendFile: what its chain of calls leaves, wherever it ends.
use faster_file_copy.Prelude.{
  ℕ, ◌+◌, ◌*◌, ◌≤◌, ◌<◌, ◌≡◌, inl, inr, refl, sym, ap, ◌∙◌, true, some, List, [], ◌∷◌, ◌++◌, length,
  length-append, length-take, All, arith, u64_max,
}
use mathlib.Core.List.{append_assoc, append-nil}
use faster_file_copy.Prelude.Splice.{splice, length-splice}
use faster_file_copy.Format.Layout.{header_size, entry_size, ArchiveIdentity}
use faster_file_copy.Format.Encode.{encode_header}
use faster_file_copy.Cache.Volume.{Volume, resize}
use faster_file_copy.Cache.Commit.{
  PreparedPending, truncate, flush_file, flush_unless_cancelled, Answer, Status, finished, failed,
  crashed, write_at, run, write_payloads, encode_entries, index_slot, fresh_header, place, publish,
  append_placed, append_calls,
}
use faster_file_copy.Cache.Commit.Ranges.{Has, splice-Has, splice-Has_here, Has-join}
use faster_file_copy.Cache.Commit.Keeps.{run-append, continue}
use faster_file_copy.Cache.Commit.Effect.{
  effect, run-effect, effect-append, effect-write_at, effect-write_payloads, payloads,
}
use faster_file_copy.Cache.Commit.Content.{
  Sound, Storable, begin, layout, length-layout, layout-append, place-layout, payloads-append,
  encode_entries-append, length-encode_entries,
}
use faster_file_copy.Cache.Commit.Durable.{
  index_of, end_of, length-header_of, length-index_of, data_calls, header_calls, Stored,
  Stored-Represents, run-Stored, data_calls-Stored,
}
use faster_file_copy.Cache.Commit.Publish.{Outcome, header_calls-Outcome}
use faster_file_copy.Cache.Commit.Steps.{NoFailure, run-NoFailure}

-- The calls of an append that adds something are those of its two parts.
pub append_calls-parts :
    (id : ArchiveIdentity) (l : List PreparedPending) (p : PreparedPending)
    (m : List PreparedPending)
    → end_of id (l ++ p ∷ m) ≤ u64_max
    → append_calls (fresh_header id (length l)) (end_of id l) (p ∷ m)
      ≡ data_calls id l (p ∷ m) ++ header_calls id l (p ∷ m)
unfolding append_calls append_placed publish fresh_header
append_calls-parts id l p m h =
    let whole : length (payloads (l ++ p ∷ m)) ≡ length (payloads l) + length (payloads (p ∷ m)) =
      ap length (payloads-append l (p ∷ m)) ∙ length-append (payloads l) (payloads (p ∷ m)) in
    let placed : place (end_of id l) (p ∷ m) ≡ some (layout (end_of id l) (p ∷ m)) =
      place-layout (end_of id l) (p ∷ m) (omega (arith, h, whole)) in
    let count : length l + length (layout (end_of id l) (p ∷ m)) ≡ length (l ++ p ∷ m) =
      ap (λ n. length l + n) (length-layout (end_of id l) (p ∷ m))
      ∙ sym (length-append l (p ∷ m)) in
    let s = end_of id l in
    let idx = encode_entries (layout s (p ∷ m)) in
    let with_count = λ (n : ℕ).
      truncate true s
      ∷ (write_payloads s (p ∷ m)
          ++ (flush_unless_cancelled
              ∷ (write_at true (index_slot (length l)) idx
                  ++ (flush_file
                      ∷ (write_at true 0 (encode_header (fresh_header id n))
                          ++ (flush_file ∷ [])))))) in
    ap (λ o. truncate true s ∷ append_placed (fresh_header id (length l)) s (p ∷ m) o) placed
    ∙ ap with_count count
    ∙ ap (◌∷◌ (truncate true s)) (
        sym (
          append_assoc (write_payloads s (p ∷ m))
            (flush_unless_cancelled ∷ write_at true (index_slot (length l)) idx)
            (header_calls id l (p ∷ m))))

pub Sound-nonempty :
    (l : List PreparedPending) → All Sound l → All (λ (p : PreparedPending). 0 < length p.payload) l
Sound-nonempty [] s = tt
Sound-nonempty (p ∷ l) s = (s.0.nonempty, Sound-nonempty l s.1)

module _ (V : Volume) (id : ArchiveIdentity) (l m : List PreparedPending) where
  -- What the data calls of an append have written when they all succeed.
  data_written :
      (f : V.File) (answers : List Answer)
      → 0 < length m
      → All Sound m
      → length (l ++ m) ≤ id.archive_entries
      → Has (V.bytes f) (begin id) (payloads l)
      → (run V (data_calls id l m) answers f).0 ≡ finished
      → Has
          (V.bytes (run V (data_calls id l m) answers f).1)
          (index_slot (length l))
          (encode_entries (layout (end_of id l) m))
        × Has (V.bytes (run V (data_calls id l m) answers f).1) (end_of id l) (payloads m)
  data_written f answers some_new sound room has h =
      let idx = encode_entries (layout (end_of id l) m) in
      let d = resize (V.bytes f) (end_of id l) in
      let new : length idx ≡ length m * entry_size =
        length-encode_entries (layout (end_of id l) m)
        ∙ ap (λ n. n * entry_size) (length-layout (end_of id l) m) in
      let all : length l + length m ≤ id.archive_entries = omega (arith, length-append l m) in
      let size : length d ≡ end_of id l = omega (
        arith,
        has.1,
        length-take (end_of id l) (splice (V.bytes f) (end_of id l) []),
        length-splice (V.bytes f) (end_of id l) [],
      ) in
      let e : effect (data_calls id l m) (V.bytes f)
          ≡ splice (splice d (end_of id l) (payloads m)) (index_slot (length l)) idx =
        effect-append (write_payloads (end_of id l) m)
          (flush_unless_cancelled ∷ write_at true (index_slot (length l)) idx) d
        ∙ ap (effect (write_at true (index_slot (length l)) idx))
            (effect-write_payloads (end_of id l) m d (omega (arith, size)) (Sound-nonempty m sound))
        ∙ effect-write_at true (index_slot (length l)) idx (splice d (end_of id l) (payloads m))
            (omega (arith, new, some_new)) in
      let final = run-effect V (data_calls id l m) answers f h ∙ e in
      rw final (
        splice-Has_here (splice d (end_of id l) (payloads m)) (index_slot (length l)) idx,
        splice-Has (splice d (end_of id l) (payloads m)) (index_slot (length l)) idx (end_of id l)
            (payloads m) (inr (omega (arith, all, new)))
            (splice-Has_here d (end_of id l) (payloads m)),
      )

  -- The new index and payloads are the old ones and what was written.
  joined :
      (d : List ℕ)
      → Has d header_size (index_of id l)
      → Has d (begin id) (payloads l)
      → Has d (index_slot (length l)) (encode_entries (layout (end_of id l) m))
      → Has d (end_of id l) (payloads m)
      → Has d header_size (index_of id (l ++ m)) × Has d (begin id) (payloads (l ++ m))
  joined d index body new_index new_body =
      let at : index_slot (length l) ≡ header_size + length (index_of id l) =
        omega (arith, length-index_of id l) in
      (
        rw (layout-append (begin id) l m) (
            rw (encode_entries-append (layout (begin id) l) (layout (end_of id l) m)) (
              Has-join d header_size (index_of id l) (encode_entries (layout (end_of id l) m)) index
                (rw at at new_index))),
        rw (payloads-append l m) (Has-join d (begin id) (payloads l) (payloads m) body new_body),
      )

  resume :
      (N : Type 0) (r : Status × V.File × List Answer)
      → Stored V id l r.1
      → (r.0 ≡ finished
          → Has (V.bytes r.1) (index_slot (length l)) (encode_entries (layout (end_of id l) m))
            × Has (V.bytes r.1) (end_of id l) (payloads m))
      → (N → NoFailure r.2)
      → Outcome V id l m N (continue V (header_calls id l m) r)
  unfolding continue
  resume N (finished, f, answers) s written sure =
      let h = written refl in
      let j = joined (V.bytes f) s.index_kept.seen s.data_kept.seen h.0 h.1 in
      header_calls-Outcome V id l m N f answers sure s j.0 j.1
  resume N (failed, f, answers) s written sure = λ n. s
  resume N (crashed, f, answers) s written sure =
      λ n img is. inl (Stored-Represents V id l f img s is)

  calls_Outcome :
      (N : Type 0) (answers : List Answer) (f : V.File)
      → 0 < length m
      → All Sound m
      → length (l ++ m) ≤ id.archive_entries
      → (N → NoFailure answers)
      → Stored V id l f
      → Outcome V id l m N (run V (data_calls id l m ++ header_calls id l m) answers f)
  calls_Outcome N answers f some_new sound room sure s =
      rw (run-append V (data_calls id l m) (header_calls id l m) answers f) (
        resume N (run V (data_calls id l m) answers f) (data_calls-Stored V id l m answers f room s)
          (data_written f answers some_new sound room s.data_kept.seen)
          (λ n. run-NoFailure V (data_calls id l m) answers f (sure n)))

-- The calls of an append that finds every payload in the file already.
pub no_calls :
    (id : ArchiveIdentity) (l : List PreparedPending)
    → append_calls (fresh_header id (length l)) (end_of id l) []
      ≡ truncate true (end_of id l) ∷ flush_unless_cancelled ∷ []
unfolding append_calls append_placed publish place write_payloads
no_calls id l = refl

no_calls-Outcome :
    (V : Volume) (id : ArchiveIdentity) (l : List PreparedPending) (N : Type 0)
    (r : Status × V.File × List Answer)
    → Stored V id l r.1
    → Outcome V id l [] N r
no_calls-Outcome V id l N (finished, f, answers) s = rw (append-nil l) s
no_calls-Outcome V id l N (failed, f, answers) s = λ n. s
no_calls-Outcome V id l N (crashed, f, answers) s =
    λ n img is. inl (Stored-Represents V id l f img s is)

-- An append, with nothing to add as well.
pub append_calls-Outcome :
    (V : Volume) (id : ArchiveIdentity) (l m : List PreparedPending) (N : Type 0)
    (answers : List Answer) (f : V.File)
    → Storable id (l ++ m)
    → All Sound m
    → (N → NoFailure answers)
    → Stored V id l f
    → Outcome V id l m N
        (run V (append_calls (fresh_header id (length l)) (end_of id l) m) answers f)
append_calls-Outcome V id l [] N answers f ok sound sure s =
    let within : length l ≤ id.archive_entries = rw (append-nil l) at ok.within_capacity in
    rw (no_calls id l) (
      no_calls-Outcome V id l N
        (run V (truncate true (end_of id l) ∷ flush_unless_cancelled ∷ []) answers f)
        (run-Stored V id (truncate true (end_of id l) ∷ flush_unless_cancelled ∷ []) answers l f
          (omega (arith, length-header_of id l), (tt, tt))
          (omega (arith, within, length-index_of id l), (tt, tt)) (omega arith, (tt, tt)) s))
append_calls-Outcome V id l (p ∷ m) N answers f ok sound sure s =
    rw (append_calls-parts id l p m ok.room)
      (calls_Outcome V id l (p ∷ m) N answers f (omega arith) sound ok.within_capacity sure s)
