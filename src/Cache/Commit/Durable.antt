-- ===== src/Cache/Commit/Durable.antt =====
-- Files that hold a list of payloads through a crash, and what the writes of AppendFile leave of it.
use faster_file_copy.Prelude.{
  ℕ, ◌+◌, ◌*◌, ◌≤◌, ◌≡◌, inl, inr, refl, ap, ◌∙◌, Bool, true, List, [], ◌∷◌, ◌++◌, length,
  length-append, All, arith,
}
use faster_file_copy.Format.Layout.{header_size, entry_size, ArchiveIdentity}
use faster_file_copy.Format.Encode.{encode_header, length-encode_header}
use faster_file_copy.Cache.Volume.{Volume, Apart}
use faster_file_copy.Cache.Commit.{
  PreparedPending, Call, seek, write_chunk, truncate, flush_file, flush_unless_cancelled, Answer,
  write_at, run, write_payloads, encode_entries, index_slot, fresh_header,
}
use faster_file_copy.Cache.Commit.Ranges.{Avoids, All-append, write_at-Avoids}
use faster_file_copy.Cache.Commit.Keeps.{Kept, run-Kept}
use faster_file_copy.Cache.Commit.Effect.{payloads, write_at_one}
use faster_file_copy.Cache.Commit.Content.{
  Represents, begin, layout, length-layout, length-encode_entries,
}

abbrev pub header_of : ArchiveIdentity → List PreparedPending → List ℕ
header_of id l = encode_header (fresh_header id (length l))

abbrev pub index_of : ArchiveIdentity → List PreparedPending → List ℕ
index_of id l = encode_entries (layout (begin id) l)

-- The old end of the file.
abbrev pub end_of : ArchiveIdentity → List PreparedPending → ℕ
end_of id l = begin id + length (payloads l)

pub length-header_of :
    (id : ArchiveIdentity) (l : List PreparedPending) → length (header_of id l) ≡ 44
unfolding fresh_header
length-header_of id l = length-encode_header (fresh_header id (length l)) refl

pub length-index_of :
    (id : ArchiveIdentity) (l : List PreparedPending)
    → length (index_of id l) ≡ length l * entry_size
length-index_of id l =
    length-encode_entries (layout (begin id) l)
    ∙ ap (λ n. n * entry_size) (length-layout (begin id) l)

pub header_chunk :
    (cancellable : Bool) (id : ArchiveIdentity) (l : List PreparedPending)
    → write_at cancellable 0 (header_of id l)
      ≡ seek ∷ write_chunk cancellable 0 (header_of id l) ∷ []
header_chunk cancellable id l =
    write_at_one cancellable 0 (header_of id l) (omega (arith, length-header_of id l))
      (omega (arith, length-header_of id l))

-- The payloads' writes avoid what stands before them.
write_payloads-Avoids :
    (o : ℕ) (pending : List PreparedPending) (i n : ℕ)
    → i + n ≤ o
    → All (Avoids i n) (write_payloads o pending)
unfolding write_payloads
write_payloads-Avoids o [] i n h = tt
write_payloads-Avoids o (p ∷ pending) i n h =
    All-append (Avoids i n) (write_at true o p.payload) _
      (write_at-Avoids true o p.payload i n (inl h))
      (write_payloads-Avoids (o + length p.payload) pending i n (omega arith))

-- The calls of AppendFile up to the index, and those from the flush behind it on.
abbrev pub data_calls : ArchiveIdentity → List PreparedPending → List PreparedPending → List Call
data_calls id l m =
    truncate true (end_of id l)
    ∷ (write_payloads (end_of id l) m
        ++ (flush_unless_cancelled
            ∷ write_at true (index_slot (length l)) (encode_entries (layout (end_of id l) m))))

abbrev pub header_calls : ArchiveIdentity → List PreparedPending → List PreparedPending → List Call
header_calls id l m = flush_file ∷ (write_at true 0 (header_of id (l ++ m)) ++ (flush_file ∷ []))

pub data_calls-Avoids :
    (id : ArchiveIdentity) (l m : List PreparedPending) (i n : ℕ)
    → i + n ≤ end_of id l
    → Apart i n (index_slot (length l)) (length (encode_entries (layout (end_of id l) m)))
    → All (Avoids i n) (data_calls id l m)
data_calls-Avoids id l m i n h apart = (
  h,
  All-append (Avoids i n) (write_payloads (end_of id l) m) _
      (write_payloads-Avoids (end_of id l) m i n h)
      (tt, write_at-Avoids true (index_slot (length l)) _ i n apart),
)

module _ (V : Volume) (id : ArchiveIdentity) where
  -- The file holds the list, now and in every image that a restart may find.
  pub record Stored (l : List PreparedPending) (f : V.File) : Type 0 where
    pub header_kept : Kept V f 0 (header_of id l)
    pub index_kept : Kept V f header_size (index_of id l)
    pub data_kept : Kept V f (begin id) (payloads l)

  pub Stored-Represents :
      (l : List PreparedPending) (f : V.File) (img : List ℕ)
      → Stored l f
      → V.Image f img
      → Represents id l img
  Stored-Represents l f img s is = record {
    has_header = s.header_kept.survives img is;
    has_index = s.index_kept.survives img is;
    has_data = s.data_kept.survives img is;
  }

  -- Calls that avoid the three ranges.
  pub run-Stored :
      (calls : List Call) (answers : List Answer) (l : List PreparedPending) (f : V.File)
      → All (Avoids 0 (length (header_of id l))) calls
      → All (Avoids header_size (length (index_of id l))) calls
      → All (Avoids (begin id) (length (payloads l))) calls
      → Stored l f
      → Stored l (run V calls answers f).1
  run-Stored calls answers l f h i d s = record {
    header_kept = run-Kept V calls answers f 0 (header_of id l) h s.header_kept;
    index_kept = run-Kept V calls answers f header_size (index_of id l) i s.index_kept;
    data_kept = run-Kept V calls answers f (begin id) (payloads l) d s.data_kept;
  }

  -- The payloads and the index of an append leave the old list alone, whatever fails.
  pub data_calls-Stored :
      (l m : List PreparedPending) (answers : List Answer) (f : V.File)
      → length (l ++ m) ≤ id.archive_entries
      → Stored l f
      → Stored l (run V (data_calls id l m) answers f).1
  data_calls-Stored l m answers f room s =
      let new : length (encode_entries (layout (end_of id l) m)) ≡ length m * entry_size =
        length-encode_entries (layout (end_of id l) m)
        ∙ ap (λ n. n * entry_size) (length-layout (end_of id l) m) in
      let all : length l + length m ≤ id.archive_entries = omega (arith, length-append l m) in
      run-Stored (data_calls id l m) answers l f
        (data_calls-Avoids id l m 0 (length (header_of id l)) (omega (arith, length-header_of id l))
          (inl (omega (arith, length-header_of id l))))
        (data_calls-Avoids id l m header_size (length (index_of id l))
          (omega (arith, all, length-index_of id l)) (inl (omega (arith, length-index_of id l))))
        (data_calls-Avoids id l m (begin id) (length (payloads l)) (omega arith)
          (inr (omega (arith, all, new))))
        s
