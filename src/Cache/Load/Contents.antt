-- ===== src/Cache/Load/Contents.antt =====
-- LoadCacheFile in Skyrim/src/DecompCache.cpp: the committed prefix of a file, and the index of its mapping.
use faster_file_copy.Prelude.{
  ℕ, ◌+◌, ◌*◌, ◌≤◌, ◌≡◌, refl, ap, ◌∙◌, Bool, false, not, none, some, List, [], ◌==◌, length, take,
  length-take, All, arith,
}
use faster_file_copy.Prelude.Splice.{slice-take}
use faster_file_copy.Format.Layout.{header_size, ArchiveIdentity, blank_result}
use faster_file_copy.Format.Encode.{encode_header, length-encode_header}
use faster_file_copy.Cache.State.{find, contains}
use faster_file_copy.Cache.Commit.{PreparedPending, encode_entries, fresh_header}
use faster_file_copy.Cache.Commit.Ranges.{Has}
use faster_file_copy.Cache.Commit.Effect.{payloads}
use faster_file_copy.Cache.Commit.Content.{
  begin, Storable, Represents, layout, starts, length-layout, length-encode_entries,
}
use faster_file_copy.Cache.Commit.ReadBack.{index_read}
use faster_file_copy.Cache.Mapped.{index_entries}
use faster_file_copy.Cache.Mapped.Serves.{
  Serves, rows, index_entries-rows, layout-Serves, layout-only,
}
use faster_file_copy.Cache.Load.{Loaded, publish_mapping}

Has-take :
    (f : List ℕ) (size i : ℕ) (c : List ℕ) → i + length c ≤ size → Has f i c → Has (take size f) i c
Has-take f size i c h has =
    (slice-take f size i (length c) h ∙ has.0, omega (arith, length-take size f, has.1, h))

-- The committed prefix holds all that counts.
pub take-Represents :
    (id : ArchiveIdentity) (l : List PreparedPending) (img : List ℕ)
    → Storable id l
    → Represents id l img
    → Represents id l (take (begin id + length (payloads l)) img)
unfolding fresh_header
take-Represents id l img s r =
    let header : length (encode_header (fresh_header id (length l))) ≡ header_size =
      length-encode_header (fresh_header id (length l)) refl in
    let index : length (encode_entries (layout (begin id) l)) ≡ length (layout (begin id) l) * 20 =
      length-encode_entries (layout (begin id) l) in
    let rows : length (layout (begin id) l) ≡ length l = length-layout (begin id) l in
    let fits = s.within_capacity in
    let size = begin id + length (payloads l) in
    record {
      has_header =
          Has-take img size 0 (encode_header (fresh_header id (length l))) (omega (arith, header))
            r.has_header;
      has_index =
          Has-take img size header_size (encode_entries (layout (begin id) l))
            (omega (arith, index, rows, fits)) r.has_index;
      has_data = Has-take img size (begin id) (payloads l) (omega arith) r.has_data;
    }

-- A loaded cache that serves the list from a file with these contents.
pub record LoadedWith (id : ArchiveIdentity) (l : List PreparedPending) (contents : List ℕ)
    (r : Loaded) : Type 0 where
  pub represents : Represents id l contents
  pub committed : r.mapped.committed_size ≡ begin id + length (payloads l)
  pub usable : r.mapped.unusable ≡ false
  pub serves : All (Serves r.mapped.base contents [] r.index) l
  pub nothing_else : (k : ℕ) → contains (starts l) k ≡ false → find r.index k ≡ none
  -- What must be replaced is exactly a file with bytes behind the last payload.
  pub tail : r.needs_replacement ≡ not (begin id + length (payloads l) == length contents)

module _ (view base : ℕ) (id : ArchiveIdentity) (l : List PreparedPending)
    (ok : Storable id l) where
  pub published :
      (contents : List ℕ) (needs : Bool)
      → Represents id l contents
      → needs ≡ not (begin id + length (payloads l) == length contents)
      → (r : Loaded) × (publish_mapping view contents needs
            (record blank_result {
              header = fresh_header id (length l);
              data_start = begin id;
              valid_size = begin id + length (payloads l);
            })
            (some base)
          ≡ (contents, some r))
        × LoadedWith id l contents r
  unfolding publish_mapping fresh_header
  published contents needs r tail =
      let same : index_entries base contents [] 0 (length l) ≡ rows base [] (layout (begin id) l) =
        index_entries-rows base contents [] 0 (length l)
        ∙ ap (rows base []) (index_read id l contents ok r) in
      (
        record {
          view = view;
          mapped = record {
            base = base;
            size = length contents;
            committed_size = begin id + length (payloads l);
            prefaulted_through = 0;
            unusable = false;
          };
          index = index_entries base contents [] 0 (length l);
          file_size = length contents;
          needs_replacement = needs;
        },
        refl,
        record {
          represents = r;
          committed = refl;
          usable = refl;
          serves =
              rw same (layout-Serves base contents [] (begin id) l ok.sound ok.distinct r.has_data);
          nothing_else = λ k h. rw same (layout-only base [] (begin id) l k h);
          tail = tail;
        },
      )
