-- ===== src/Cache/Mapped/Serves.antt =====
-- MapCommittedFile in Skyrim/src/DecompCache.cpp: the index of a file that holds a list of payloads.
use faster_file_copy.Prelude.{
  ℕ, zero, suc, ◌+◌, ◌≤◌, ◌≡◌, ◌≢◌, inl, inr, refl, ap, ◌∙◌, true, false, none, some, List, [], ◌∷◌,
  ◌==◌, ltb, if◌then◌else◌, length, All, arith, Bool-cases, u64_max,
}
use faster_file_copy.Prelude.Splice.{slice}
use faster_file_copy.Format.Checksum.{checksum}
use faster_file_copy.Format.Layout.{header_size, ArchiveIdentity, Entry, decode_entry}
use faster_file_copy.Format.Validate.{is_no_error}
use faster_file_copy.Format.Validate.Spec.{entries, Distinct}
use faster_file_copy.Cache.State.{verify_unknown, verify_valid, CachedEntry, find, contains}
use faster_file_copy.Cache.Flush.{OlResult}
use faster_file_copy.Cache.Commit.{PreparedPending, fresh_header}
use faster_file_copy.Cache.Commit.Ranges.{Has, Has-left, Has-right}
use faster_file_copy.Cache.Commit.Effect.{payloads}
use faster_file_copy.Cache.Commit.Content.{
  entry_for, layout, starts, Sound, begin, Storable, Represents,
}
use faster_file_copy.Cache.Commit.ReadBack.{validate-found, index_read}
use faster_file_copy.Cache.Mapped.{
  MapAnswers, cached_entry, index_entries, map_validated, map_view, map_committed_file,
}

-- The index of a mapping as a function of the file's index.
abbrev pub rows : ℕ → List ℕ → List Entry → List (ℕ × CachedEntry)
rows base known [] = []
rows base known (e ∷ es) = (e.start_offset, cached_entry base known e) ∷ rows base known es

pub index_entries-rows :
    (base : ℕ) (bytes known : List ℕ) (i n : ℕ)
    → index_entries base bytes known i n ≡ rows base known (entries bytes i n)
unfolding index_entries
index_entries-rows base bytes known i zero = refl
index_entries-rows base bytes known i (suc n) =
    ap
      (λ r.
        ((decode_entry bytes i).start_offset, cached_entry base known (decode_entry bytes i)) ∷ r)
      (index_entries-rows base bytes known (i + 1) n)

-- The entry of a payload: it is mapped whole, at its place, with its checksum, and counts as verified only
-- if it did before.
pub record Serves (base : ℕ) (bytes known : List ℕ) (index : List (ℕ × CachedEntry))
    (p : PreparedPending) : Type 0 where
  pub entry : CachedEntry
  pub offset : ℕ
  pub indexed : find index p.start_offset ≡ some entry
  pub address : entry.data_address ≡ some (base + offset)
  pub whole : entry.size ≡ length p.payload
  pub inside : offset + entry.size ≤ length bytes
  pub same_bytes : slice offset entry.size bytes ≡ p.payload
  pub summed : entry.checksum_value ≡ checksum (some p.payload) (length p.payload)
  pub state :
      entry.verification
      ≡ some (if contains known p.start_offset then verify_valid else verify_unknown)

Serves-later :
    (base : ℕ) (bytes known : List ℕ) (index : List (ℕ × CachedEntry)) (k : ℕ) (e : CachedEntry)
    (p : PreparedPending)
    → k ≢ p.start_offset
    → Serves base bytes known index p
    → Serves base bytes known ((k, e) ∷ index) p
unfolding find
Serves-later base bytes known index k e p apart s =
    let other : (k == p.start_offset) ≡ false = ground (arith, apart) in
    record {
      entry = s.entry;
      offset = s.offset;
      indexed = rw other (s.indexed);
      address = s.address;
      whole = s.whole;
      inside = s.inside;
      same_bytes = s.same_bytes;
      summed = s.summed;
      state = s.state;
    }

Serves-all_later :
    (base : ℕ) (bytes known : List ℕ) (index : List (ℕ × CachedEntry)) (k : ℕ) (e : CachedEntry)
    (l : List PreparedPending)
    → All (λ j. k ≢ j) (starts l)
    → All (Serves base bytes known index) l
    → All (Serves base bytes known ((k, e) ∷ index)) l
Serves-all_later base bytes known index k e [] apart s = tt
Serves-all_later base bytes known index k e (p ∷ l) apart s = (
  Serves-later base bytes known index k e p apart.0 s.0,
  Serves-all_later base bytes known index k e l apart.1 s.1,
)

find-head : (m : List (ℕ × CachedEntry)) (k : ℕ) (e : CachedEntry) → find ((k, e) ∷ m) k ≡ some e
unfolding find
find-head m k e = let itself : (k == k) ≡ true = ground arith in rw itself refl

pub layout-Serves :
    (base : ℕ) (bytes known : List ℕ) (c : ℕ) (l : List PreparedPending)
    → All Sound l
    → Distinct (starts l)
    → Has bytes c (payloads l)
    → All (Serves base bytes known (rows base known (layout c l))) l
unfolding cached_entry
layout-Serves base bytes known c [] sound apart h = tt
layout-Serves base bytes known c (p ∷ l) sound apart h =
    let here : Has bytes c p.payload = Has-left bytes c p.payload (payloads l) h in
    let there = rows base known (layout (c + length p.payload) l) in
    let first = cached_entry base known (entry_for c p) in
    (
      record {
        entry = first;
        offset = c;
        indexed = find-head there p.start_offset first;
        address = refl;
        whole = refl;
        inside = here.1;
        same_bytes = here.0;
        summed = sound.0.summed;
        state = refl;
      },
      Serves-all_later base bytes known there p.start_offset first l apart.0 (
          layout-Serves base bytes known (c + length p.payload) l sound.1 apart.1
            (Has-right bytes c p.payload (payloads l) h)),
    )

-- Nothing else is in the index.
pub layout-only :
    (base : ℕ) (known : List ℕ) (c : ℕ) (l : List PreparedPending) (k : ℕ)
    → contains (starts l) k ≡ false
    → find (rows base known (layout c l)) k ≡ none
unfolding contains find
layout-only base known c [] k h = refl
layout-only base known c (p ∷ l) k h = elim (Bool-cases (p.start_offset == k)) [
  | inl same ↦ absurd (let j = rw same at h in cc j)
  | inr other ↦ rw other (layout-only base known (c + length p.payload) l k (rw other at h))
]

-- Every call succeeds.
abbrev pub mapped_at : ℕ → MapAnswers
mapped_at base = record {
  opened = true;
  sized = true;
  mapping = true;
  view = some base;
  memory = true;
}

-- The mapping and the index for a list of payloads.
pub record Mapping (view base : ℕ) (bytes known : List ℕ) (l : List PreparedPending) (r : OlResult)
    : Type 0 where
  pub its_view : r.view ≡ view
  pub at_base : r.mapped.base ≡ base
  pub whole_file : r.mapped.size ≡ length bytes
  pub all_committed : r.mapped.committed_size ≡ length bytes
  pub usable : r.mapped.unusable ≡ false
  pub serves : All (Serves base bytes known r.index) l
  pub nothing_else : (k : ℕ) → contains (starts l) k ≡ false → find r.index k ≡ none

-- Mapping a file that represents a list of payloads and ends with the last of them succeeds when every
-- call does. The index then has exactly the start offsets of the list, each with the address of a range
-- inside the mapping that holds the payload's bytes, its size and its checksum, marked as verified
-- exactly if the caller knew the offset to be verified.
pub map_committed_file-Mapping :
    (view base : ℕ) (known : List ℕ) (id : ArchiveIdentity) (l : List PreparedPending)
    (bytes : List ℕ)
    → Storable id l
    → Represents id l bytes
    → begin id + length (payloads l) ≡ length bytes
    → (r : OlResult) × (map_committed_file view (mapped_at base) bytes id known ≡ some r)
      × Mapping view base bytes known l r
unfolding map_committed_file map_view map_validated is_no_error fresh_header
map_committed_file-Mapping view base known id l bytes ok r exact =
    let fits : length bytes ≤ u64_max = omega (arith, ok.room, exact) in
    let found = validate-found id l bytes false ok fits r (inr exact) in
    let large : ltb (length bytes) header_size ≡ false = ground (arith, exact) in
    let same : index_entries base bytes known 0 (length l) ≡ rows base known (layout (begin id) l) =
      index_entries-rows base bytes known 0 (length l)
      ∙ ap (rows base known) (index_read id l bytes ok r) in
    let made : OlResult = record {
      view = view;
      mapped = record {
        base = base;
        size = length bytes;
        committed_size = begin id + length (payloads l);
        prefaulted_through = 0;
        unusable = false;
      };
      index = index_entries base bytes known 0 (length l);
      file_size = length bytes;
    } in
    (
      made,
      rw (large, found) refl,
      record {
        its_view = refl;
        at_base = refl;
        whole_file = refl;
        all_committed = exact;
        usable = refl;
        serves =
            rw same (layout-Serves base bytes known (begin id) l ok.sound ok.distinct r.has_data);
        nothing_else = λ k h. rw same (layout-only base known (begin id) l k h);
      },
    )
