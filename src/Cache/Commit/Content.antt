-- ===== src/Cache/Commit/Content.antt =====
-- What a committed cache file stands for: an archive and a list of payloads. AppendFile makes the list
-- longer, and WriteFreshFile writes one.
use faster_file_copy.Prelude.{
  ℕ, suc, ◌+◌, ◌*◌, ◌-◌, ◌^◌, ◌≤◌, ◌<◌, ◌≡◌, refl, sym, ap, ◌∙◌, false, some, List, [], ◌∷◌, ◌++◌,
  length, map, length-append, All, arith, ltb, u64_max,
}
use mathlib.Core.List.{append_assoc}
use faster_file_copy.Format.Checksum.{checksum}
use faster_file_copy.Format.Layout.{
  max_payload_size, max_index_capacity, Entry, header_size, entry_size, ArchiveIdentity,
}
use faster_file_copy.Format.Encode.{encode_header, encode_entry, length-encode_entry}
use faster_file_copy.Format.Validate.Spec.{Distinct, start_offsets}
use faster_file_copy.Cache.Record.{add_checked}
use faster_file_copy.Cache.Commit.{PreparedPending, place, encode_entries, index_slot, fresh_header}
use faster_file_copy.Cache.Commit.Ranges.{Has}
use faster_file_copy.Cache.Commit.Effect.{payloads}

abbrev pub entry_for : ℕ → PreparedPending → Entry
entry_for c p = record {
  start_offset = p.start_offset;
  decomp_size = length p.payload;
  cache_offset = c;
  checksum_value = p.checksum_value;
}

-- The index entries of payloads that stand one after another.
abbrev pub layout : ℕ → List PreparedPending → List Entry
layout c [] = []
layout c (p ∷ l) = entry_for c p ∷ layout (c + length p.payload) l

abbrev pub starts : List PreparedPending → List ℕ
starts = map (λ (p : PreparedPending). p.start_offset)

-- A payload as PreparePending makes it, in the bounds of the format.
pub record Sound (p : PreparedPending) : Type 0 where
  pub nonempty : 0 < length p.payload
  pub small : length p.payload ≤ max_payload_size
  pub start_fits : p.start_offset < 256 ^ 4
  pub summed : p.checksum_value ≡ checksum (some p.payload) (length p.payload)
  pub checksum_fits : p.checksum_value < 256 ^ 4

abbrev pub begin : ArchiveIdentity → ℕ
begin id = index_slot id.archive_entries

-- A list that one file of the archive can hold.
pub record Storable (id : ArchiveIdentity) (l : List PreparedPending) : Type 0 where
  pub some_entry : 0 < length l
  pub within_capacity : length l ≤ id.archive_entries
  pub capacity_small : id.archive_entries ≤ max_index_capacity
  pub size_fits : id.file_size < 256 ^ 8
  pub write_fits : id.last_write < 256 ^ 8
  pub fingerprint_fits : id.fingerprint < 256 ^ 8
  pub sound : All Sound l
  pub distinct : Distinct (starts l)
  pub room : begin id + length (payloads l) ≤ u64_max

-- A file's contents hold the header, the index and the payloads of the list. Other bytes are free.
pub record Represents (id : ArchiveIdentity) (l : List PreparedPending) (img : List ℕ)
    : Type 0 where
  pub has_header : Has img 0 (encode_header (fresh_header id (length l)))
  pub has_index : Has img header_size (encode_entries (layout (begin id) l))
  pub has_data : Has img (begin id) (payloads l)

pub place-layout :
    (c : ℕ) (l : List PreparedPending)
    → c + length (payloads l) ≤ u64_max
    → place c l ≡ some (layout c l)
unfolding place add_checked
place-layout c [] h = refl
place-layout c (p ∷ l) h =
    let whole : length (payloads (p ∷ l)) ≡ length p.payload + length (payloads l) =
      length-append p.payload (payloads l) in
    let fits : ltb (u64_max - c) (length p.payload) ≡ false = ground (arith, h, whole) in
    let rest : place (c + length p.payload) l ≡ some (layout (c + length p.payload) l) =
      place-layout (c + length p.payload) l (omega (arith, h, whole)) in
    cc (fits, rest)

pub payloads-append : (l m : List PreparedPending) → payloads (l ++ m) ≡ payloads l ++ payloads m
payloads-append [] m = refl
payloads-append (p ∷ l) m =
    ap (λ x. p.payload ++ x) (payloads-append l m)
    ∙ sym (append_assoc p.payload (payloads l) (payloads m))

pub layout-append :
    (c : ℕ) (l m : List PreparedPending)
    → layout c (l ++ m) ≡ layout c l ++ layout (c + length (payloads l)) m
layout-append c [] m = let e : c ≡ c + 0 = omega arith in ap (λ k. layout k m) e
layout-append c (p ∷ l) m = ap (◌∷◌ (entry_for c p)) (
    layout-append (c + length p.payload) l m
    ∙ (let e : c + length p.payload + length (payloads l) ≡ c + length (payloads (p ∷ l)) =
          omega (arith, length-append p.payload (payloads l)) in
        ap (λ k. layout (c + length p.payload) l ++ layout k m) e))

pub length-layout : (c : ℕ) (l : List PreparedPending) → length (layout c l) ≡ length l
length-layout c [] = refl
length-layout c (p ∷ l) = ap suc (length-layout (c + length p.payload) l)

pub encode_entries-append :
    (l m : List Entry) → encode_entries (l ++ m) ≡ encode_entries l ++ encode_entries m
unfolding encode_entries
encode_entries-append [] m = refl
encode_entries-append (e ∷ l) m =
    ap (λ x. encode_entry e ++ x) (encode_entries-append l m)
    ∙ sym (append_assoc (encode_entry e) (encode_entries l) (encode_entries m))

pub length-encode_entries : (l : List Entry) → length (encode_entries l) ≡ length l * entry_size
unfolding encode_entries
length-encode_entries [] = refl
length-encode_entries (e ∷ l) = omega (
  arith,
  length-append (encode_entry e) (encode_entries l),
  length-encode_entry e,
  length-encode_entries l,
)

pub start_offsets-layout :
    (c : ℕ) (l : List PreparedPending) → start_offsets (layout c l) ≡ starts l
start_offsets-layout c [] = refl
start_offsets-layout c (p ∷ l) =
    ap (◌∷◌ p.start_offset) (start_offsets-layout (c + length p.payload) l)
