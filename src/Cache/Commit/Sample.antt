-- ===== src/Cache/Commit/Sample.antt =====
-- A disk that writes through, and the file of an archive with one payload, for tests.
use faster_file_copy.Prelude.{
  ℕ, ◌+◌, ◌≤◌, ◌≡◌, inl, inr, refl, ◌∙◌, some, List, [], ◌∷◌, ◌++◌, length, take, length-take,
  arith,
}
use faster_file_copy.Prelude.Splice.{
  slice, splice, length-splice, slice-splice_before, slice-splice_after, slice-splice_same,
  slice-take,
}
use faster_file_copy.Prelude.Words.{write_le}
use faster_file_copy.Format.Checksum.{checksum}
use faster_file_copy.Format.Layout.{header_size, ArchiveIdentity}
use faster_file_copy.Format.Encode.{encode_header, encode_entry}
use faster_file_copy.Cache.Volume.{Volume, Apart, resize}
use faster_file_copy.Cache.Commit.{PreparedPending, fresh_header, encode_entries}
use faster_file_copy.Cache.Commit.Ranges.{Has}
use faster_file_copy.Cache.Commit.Keeps.{Kept}
use faster_file_copy.Cache.Commit.Effect.{payloads}
use faster_file_copy.Cache.Commit.Content.{Sound, Storable, Represents, begin}
use faster_file_copy.Cache.Commit.Fresh.{IdentityFits, three_ranges}
use faster_file_copy.Cache.Commit.Prepared.{checksum-lt}
use faster_file_copy.Cache.Commit.Durable.{
  header_of, index_of, length-header_of, length-index_of, Stored,
}

pub write_range :
    (f : List ℕ) (o : ℕ) (b : List ℕ) (i n : ℕ) (c : List ℕ)
    → Apart i n o (length b)
    → (slice i n f ≡ c) × (i + n ≤ length f)
    → (slice i n (splice f o b) ≡ c) × (i + n ≤ length (splice f o b))
write_range f o b i n c (inl before) h =
    (slice-splice_before f o b i n before h.1 ∙ h.0, omega (arith, length-splice f o b, h.1))
write_range f o b i n c (inr behind) h =
    (slice-splice_after f o b i n behind h.1 ∙ h.0, omega (arith, length-splice f o b, h.1))

pub short-Apart :
    (i n o got : ℕ) (b : List ℕ) → Apart i n o (length b) → Apart i n o (length (take got b))
short-Apart i n o got b (inl h) = inl h
short-Apart i n o got b (inr h) = inr (omega (arith, length-take got b))

pub resize_range :
    (f : List ℕ) (size i n : ℕ) (c : List ℕ)
    → i + n ≤ size
    → (slice i n f ≡ c) × (i + n ≤ length f)
    → (slice i n (resize f size) ≡ c) × (i + n ≤ length (resize f size))
resize_range f size i n c fits h = (
  slice-take (splice f size []) size i n fits ∙ slice-splice_before f size [] i n fits h.1 ∙ h.0,
  omega (arith, length-take size (splice f size []), length-splice f size [], fits),
)

abbrev pub disk : Volume
disk = record {
  File = List ℕ;
  bytes = λ f. f;
  Image = λ f img. img ≡ f;
  write = splice;
  torn = λ f o b got. splice f o (take got b);
  set_size = resize;
  flush = λ f. f;
  bytes-write = λ f o b. refl;
  bytes-torn = λ f o b got. refl;
  bytes-set_size = λ f size. refl;
  bytes-flush = λ f. refl;
  write_keeps = λ f o b i n c apart h img is. rw is (write_range f o b i n c apart (h f refl));
  torn_keeps = λ f o b got i n c apart h img is.
      rw is (write_range f o (take got b) i n c (short-Apart i n o got b apart) (h f refl));
  set_size_keeps = λ f size i n c fits h img is. rw is (resize_range f size i n c fits (h f refl));
  flush_settles = λ f img is. is;
  sector_atomic = λ f b c small h img is.
      rw is (inr (slice-splice_same f 0 b), omega (arith, length-splice f 0 b));
}

abbrev pub archive : ArchiveIdentity
archive = record { file_size = 10; last_write = 11; fingerprint = 12; archive_entries = 3 }

abbrev pub item : ℕ → List ℕ → PreparedPending
item start b = record {
  start_offset = start;
  payload = b;
  checksum_value = checksum (some b) (length b);
}

abbrev pub first : PreparedPending
first = item 5 (1 ∷ 2 ∷ 3 ∷ [])

abbrev pub second : PreparedPending
second = item 7 (4 ∷ 5 ∷ [])

abbrev pub old : List PreparedPending
old = first ∷ []

abbrev pub new : List PreparedPending
new = second ∷ []

pub first-Sound : Sound first
first-Sound = record {
  nonempty = omega arith;
  small = omega arith;
  start_fits = omega arith;
  summed = refl;
  checksum_fits = (let c = checksum-lt (1 ∷ 2 ∷ 3 ∷ []) 3 in omega (arith, c));
}

pub second-Sound : Sound second
second-Sound = record {
  nonempty = omega arith;
  small = omega arith;
  start_fits = omega arith;
  summed = refl;
  checksum_fits = (let c = checksum-lt (4 ∷ 5 ∷ []) 2 in omega (arith, c));
}

pub archive-fits : IdentityFits archive
archive-fits = record {
  size_fits = omega arith;
  write_fits = omega arith;
  fingerprint_fits = omega arith;
  capacity_small = omega arith;
}

pub old-Storable : Storable archive old
old-Storable = record {
  some_entry = omega arith;
  within_capacity = omega arith;
  capacity_small = omega arith;
  size_fits = omega arith;
  write_fits = omega arith;
  fingerprint_fits = omega arith;
  sound = (first-Sound, tt);
  distinct = (tt, tt);
  room = omega arith;
}

pub both-Storable : Storable archive (old ++ new)
both-Storable = record {
  some_entry = omega arith;
  within_capacity = omega arith;
  capacity_small = omega arith;
  size_fits = omega arith;
  write_fits = omega arith;
  fingerprint_fits = omega arith;
  sound = (first-Sound, (second-Sound, tt));
  distinct = (((λ e. absurd (omega (arith, e))), tt), (tt, tt));
  room = omega arith;
}

-- The file with the first payload.
abbrev pub old_file : List ℕ
old_file =
    splice (splice (splice [] 0 (header_of archive old)) header_size (index_of archive old))
      (begin archive) (payloads old)

pub old_ranges :
    Has old_file 0 (header_of archive old)
    × Has old_file header_size (index_of archive old)
    × Has old_file (begin archive) (payloads old)
old_ranges =
    three_ranges (header_of archive old) (index_of archive old) (payloads old) (begin archive) []
      (length-header_of archive old) (omega (arith, length-index_of archive old))

pub on_disk : (i : ℕ) (c : List ℕ) → Has old_file i c → Kept disk old_file i c
on_disk i c h = record { seen = h; survives = λ img is. rw is h }

pub old-Stored : Stored disk archive old old_file
old-Stored = record {
  header_kept = on_disk 0 (header_of archive old) old_ranges.0;
  index_kept = on_disk header_size (index_of archive old) old_ranges.1;
  data_kept = on_disk (begin archive) (payloads old) old_ranges.2;
}

pub old-Represents : Represents archive old old_file
old-Represents = record {
  has_header = old_ranges.0;
  has_index = old_ranges.1;
  has_data = old_ranges.2;
}

pub old_size : length old_file ≡ 107
unfolding splice encode_header encode_entry encode_entries write_le fresh_header
old_size = refl
