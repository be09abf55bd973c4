-- ===== src/Archive/Open/Finish.antt =====
-- The kernel objects of an archive, and the last steps of Open: the header and the fingerprint.
use faster_file_copy.Prelude.{
  ℕ, ◌+◌, ◌≤◌, ◌<◌, ◌≡◌, inl, inr, refl, Bool, true, false, none, some, List, [], if◌then◌else◌,
  u32_max, arith, Bool-cases, ◌∙◌,
}
use faster_file_copy.Archive.State.{
  FileSystem, MappedArchive, World, bsa_header_size, close, parse_header, is_some,
}
use faster_file_copy.Archive.Open.{compute_fingerprint, give_up, finish_open}

abbrev pub held_handles : MappedArchive → ℕ
held_handles a = (if is_some a.file_handle then 1 else 0) + (if is_some a.map_handle then 1 else 0)

abbrev pub held_views : MappedArchive → ℕ
held_views a = if is_some a.base then 1 else 0

-- The process holds the archive's objects and a fixed number of others.
pub record Balanced (others_handles others_views : ℕ) (a : MappedArchive) (w : World) : Type 0 where
  pub handles_balance : w.handles ≡ others_handles + held_handles a
  pub views_balance : w.views ≡ others_views + held_views a

pub record Released (a : MappedArchive) : Type 0 where
  pub no_file : a.file_handle ≡ none
  pub no_mapping : a.map_handle ≡ none
  pub no_view : a.base ≡ none
  pub no_size : a.file_size ≡ 0
  pub no_fingerprint : a.fingerprint ≡ 0
  pub not_valid : a.valid ≡ false
  pub no_sizes : a.declared_sizes ≡ []

module _ (fs : FileSystem) (bytes : List ℕ) (a : MappedArchive) (w : World) where
  finish_open_parse :
      (parse_header a bytes).0 ≡ false
      → finish_open fs bytes a w ≡ give_up (parse_header a bytes).1 w
  unfolding finish_open
  finish_open_parse bad = rw bad

  finish_open_hash :
      (parse_header a bytes).0 ≡ true
      → (compute_fingerprint fs (parse_header a bytes).1).0 ≡ false
      → finish_open fs bytes a w ≡ give_up (compute_fingerprint fs (parse_header a bytes).1).1 w
  unfolding finish_open
  finish_open_hash good bad = rw (good, bad)

  finish_open_ok :
      (parse_header a bytes).0 ≡ true
      → (compute_fingerprint fs (parse_header a bytes).1).0 ≡ true
      → finish_open fs bytes a w
        ≡ (true, record (compute_fingerprint fs (parse_header a bytes).1).1 { valid = true }, w)
  unfolding finish_open
  finish_open_ok good ok = rw (good, ok)

module _ (k j : ℕ) where
  pub close-Balanced :
      (a : MappedArchive) (w : World)
      → Balanced k j a w
      → Balanced k j (close (a, w)).0 (close (a, w)).1 × Released (close (a, w)).0
  unfolding close
  close-Balanced a w b = (
    ground arith,
    record {
      no_file = refl;
      no_mapping = refl;
      no_view = refl;
      no_size = refl;
      no_fingerprint = refl;
      not_valid = refl;
      no_sizes = refl;
    },
  )

  -- What an attempt to open leaves: a valid archive with its objects, or a released one.
  pub data Attempt (fs : FileSystem) (r : Bool × MappedArchive × World) : Type 0 where
    refused : r.0 ≡ false → Balanced k j r.1 r.2 → Released r.1 → Attempt fs r
    opened :
        r.0 ≡ true
        → Balanced k j r.1 r.2
        → r.1.valid ≡ true
        → 0 < r.1.fingerprint
        → bsa_header_size ≤ r.1.file_size
        → r.1.file_size ≤ u32_max
        → fs.size_of_file ≡ some r.1.file_size
        → Attempt fs r

  pub give_up-Attempt :
      (fs : FileSystem) (a : MappedArchive) (w : World)
      → Balanced k j a w
      → Attempt fs (give_up a w)
  unfolding give_up
  give_up-Attempt fs a w b = refused refl (close-Balanced a w b).0 (close-Balanced a w b).1

  -- The hash functions touch no kernel object, and the file's size stays.
  parse_header-same :
      (a : MappedArchive) (bytes : List ℕ)
      → ((parse_header a bytes).1.file_handle ≡ a.file_handle)
        × ((parse_header a bytes).1.map_handle ≡ a.map_handle)
        × ((parse_header a bytes).1.base ≡ a.base)
        × ((parse_header a bytes).1.file_size ≡ a.file_size)
  unfolding parse_header
  parse_header-same a bytes = (ground arith, ground arith, ground arith, ground arith)

  fingerprint-same :
      (fs : FileSystem) (a : MappedArchive)
      → ((compute_fingerprint fs a).1.file_handle ≡ a.file_handle)
        × ((compute_fingerprint fs a).1.map_handle ≡ a.map_handle)
        × ((compute_fingerprint fs a).1.base ≡ a.base)
        × ((compute_fingerprint fs a).1.file_size ≡ a.file_size)
  unfolding compute_fingerprint
  fingerprint-same fs a = (ground arith, ground arith, ground arith, ground arith)

  fingerprint_pos :
      (fs : FileSystem) (a : MappedArchive)
      → (compute_fingerprint fs a).0 ≡ true
      → 0 < (compute_fingerprint fs a).1.fingerprint
  unfolding compute_fingerprint
  fingerprint_pos fs a h = ground arith

  parsed-Balanced :
      (a : MappedArchive) (bytes : List ℕ) (w : World)
      → Balanced k j a w
      → Balanced k j (parse_header a bytes).1 w
  parsed-Balanced a bytes w b =
      let s = parse_header-same a bytes in
      record {
        handles_balance = rw (s.0, s.1) b.handles_balance;
        views_balance = rw (s.2) b.views_balance;
      }

  hashed-Balanced :
      (fs : FileSystem) (a : MappedArchive) (w : World)
      → Balanced k j a w
      → Balanced k j (compute_fingerprint fs a).1 w
  hashed-Balanced fs a w b =
      let s = fingerprint-same fs a in
      record {
        handles_balance = rw (s.0, s.1) b.handles_balance;
        views_balance = rw (s.2) b.views_balance;
      }

  pub record Sized (fs : FileSystem) (a : MappedArchive) : Type 0 where
    pub at_least : bsa_header_size ≤ a.file_size
    pub at_most : a.file_size ≤ u32_max
    pub reported : fs.size_of_file ≡ some a.file_size

  pub finish_open-Attempt :
      (fs : FileSystem) (bytes : List ℕ) (a : MappedArchive) (w : World)
      → Balanced k j a w
      → Sized fs a
      → Attempt fs (finish_open fs bytes a w)
  finish_open-Attempt fs bytes a w b z =
      let p = (parse_header a bytes).1 in
      let bp = parsed-Balanced a bytes w b in
      let bh = hashed-Balanced fs p w bp in
      elim (Bool-cases (parse_header a bytes).0) [
        | inr bad ↦ rw (finish_open_parse fs bytes a w bad) (give_up-Attempt fs p w bp)
        | inl good ↦ elim (Bool-cases (compute_fingerprint fs p).0) [
          | inr bad ↦
              rw (finish_open_hash fs bytes a w good bad)
                (give_up-Attempt fs (compute_fingerprint fs p).1 w bh)
          | inl ok ↦
              let same = fingerprint-same fs p in
              let size : (compute_fingerprint fs p).1.file_size ≡ a.file_size =
                same.3 ∙ (parse_header-same a bytes).3 in
              rw (finish_open_ok fs bytes a w good ok) (
                opened refl
                  (record {
                    handles_balance = bh.handles_balance;
                    views_balance = bh.views_balance;
                  })
                  refl (fingerprint_pos fs p ok) (rw size z.at_least) (rw size z.at_most)
                  (rw size z.reported))
        ]
      ]
