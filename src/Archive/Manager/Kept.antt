-- ===== src/Archive/Manager/Kept.antt =====
-- The manager holds exactly the kernel objects of its archives, and its index leads to open ones.
use faster_file_copy.Prelude.{
  ℕ, zero, suc, ◌+◌, ◌≤◌, ◌<◌, ◌≡◌, inl, inr, refl, sym, ap, ◌∙◌, Bool, true, false, not, ◌&&◌,
  Option, none, some, List, [], ◌∷◌, ◌++◌, ltb, ◌==◌, length, length-append, get_elem?, All, arith,
  Bool-cases,
}
use faster_file_copy.Archive.State.{FileSystem, MappedArchive, World, new_archive, close, is_some}
use faster_file_copy.Archive.Open.Resources.{open_archive-Attempt}
use faster_file_copy.Archive.Open.Finish.{
  held_handles, held_views, Balanced, Attempt, refused, opened,
}
use faster_file_copy.Archive.Manager.{
  Directory, MemoryMapManager, find_name, lower_ascii, sort_paths, keep_bsa, close_all, shutdown,
  keep_archive, load_archives, scan, initialize_at, initialize, found_at, find_by_name,
}

abbrev pub all_handles : List MappedArchive → ℕ
all_handles [] = 0
all_handles (a ∷ l) = held_handles a + all_handles l

abbrev pub all_views : List MappedArchive → ℕ
all_views [] = 0
all_views (a ∷ l) = held_views a + all_views l

-- Beside the objects of others, the process holds those of the manager's archives, which are all
-- open; the index stays in bounds.
pub record Kept (others_handles others_views : ℕ) (m : MemoryMapManager) (w : World) : Type 0 where
  pub handles : w.handles ≡ others_handles + all_handles m.archives
  pub views : w.views ≡ others_views + all_views m.archives
  pub open_archives : All (λ (a : MappedArchive). a.valid ≡ true) m.archives
  pub in_bounds : All (λ (r : List ℕ × ℕ). r.1 < length m.archives) m.name_index

closed_world :
    (k j : ℕ) (a : MappedArchive) (w : World)
    → Balanced k j a w
    → ((close (a, w)).1.handles ≡ k) × ((close (a, w)).1.views ≡ j)
unfolding close
closed_world k j a w b = ground arith

all_handles-snoc :
    (l : List MappedArchive) (a : MappedArchive)
    → (all_handles (l ++ a ∷ []) ≡ all_handles l + held_handles a)
      × (all_views (l ++ a ∷ []) ≡ all_views l + held_views a)
all_handles-snoc [] a = (omega arith, omega arith)
all_handles-snoc (b ∷ l) a =
    let rest = all_handles-snoc l a in (rw (rest.0) (omega arith), rw (rest.1) (omega arith))

All-snoc {ℓ κ} :
    {A : Type ℓ} (P : A → Type κ) (l : List A) (a : A) → All P l → P a → All P (l ++ a ∷ [])
All-snoc P [] a h p = (p, tt)
All-snoc P (b ∷ l) a h p = (h.0, All-snoc P l a h.1 p)

All-grow :
    (n m : ℕ) (l : List (List ℕ × ℕ))
    → n ≤ m
    → All (λ (r : List ℕ × ℕ). r.1 < n) l
    → All (λ (r : List ℕ × ℕ). r.1 < m) l
All-grow n m [] h a = tt
All-grow n m (r ∷ l) h a = (omega (arith, a.0), All-grow n m l h a.1)

module _ (k j : ℕ) where
  dropped-Kept :
      (m : MemoryMapManager) (v : World) (a : MappedArchive) (w : World)
      → Kept k j m v
      → Balanced (k + all_handles m.archives) (j + all_views m.archives) a w
      → Kept k j m (close (a, w)).1
  dropped-Kept m v a w kept b =
      let c = closed_world _ _ a w b in
      record {
        handles = c.0;
        views = c.1;
        open_archives = kept.open_archives;
        in_bounds = kept.in_bounds;
      }

  added-Kept :
      (m : MemoryMapManager) (v : World) (name : List ℕ) (a : MappedArchive) (w : World)
      → Kept k j m v
      → Balanced (k + all_handles m.archives) (j + all_views m.archives) a w
      → a.valid ≡ true
      → Kept k j
          (record m {
            archives = m.archives ++ a ∷ [];
            name_index = (name, length m.archives) ∷ m.name_index;
          })
          w
  added-Kept m v name a w kept b ok =
      let more = all_handles-snoc m.archives a in
      let longer = length-append m.archives (a ∷ []) in
      record {
        handles = rw (more.0) (b.handles_balance ∙ omega arith);
        views = rw (more.1) (b.views_balance ∙ omega arith);
        open_archives = All-snoc _ m.archives a kept.open_archives ok;
        in_bounds =
            (omega arith, All-grow (length m.archives) _ m.name_index (omega arith) kept.in_bounds);
      }

  keep_archive-Kept :
      (dir : Directory) (fs : FileSystem) (name : List ℕ) (m : MemoryMapManager) (v : World)
      (r : Bool × MappedArchive × World)
      → Kept k j m v
      → Attempt (k + all_handles m.archives) (j + all_views m.archives) fs r
      → let n = keep_archive dir name m r in Kept k j n.0 n.1
  unfolding keep_archive
  keep_archive-Kept dir fs name m v (ok, a, w) kept (refused failed b released) =
      rw failed (dropped-Kept m v a w kept b)
  keep_archive-Kept dir fs name m v (ok, a, w) kept (opened success b valid f lo hi size) =
      elim (Bool-cases (is_some (find_name m.name_index name))) [
        | inl known ↦ rw (success, known) (dropped-Kept m v a w kept b)
        | inr new ↦ rw (success, new) (added-Kept m v name a w kept b valid)
      ]

  load_archives-Kept :
      (dir : Directory) (full : Bool) (paths : List (List ℕ)) (m : MemoryMapManager) (w : World)
      → Kept k j m w
      → let n = load_archives dir full paths m w in Kept k j n.0 n.1
  unfolding load_archives
  load_archives-Kept dir full [] m w kept = kept
  load_archives-Kept dir full (p ∷ paths) m w kept =
      let start : Balanced (k + all_handles m.archives) (j + all_views m.archives) new_archive w =
        record {
          handles_balance = kept.handles ∙ omega arith;
          views_balance = kept.views ∙ omega arith;
        } in
      load_archives-Kept dir full paths _ _ (
        keep_archive-Kept dir (dir.files p) _ m w _ kept
          (open_archive-Attempt _ _ (dir.files p) full p new_archive w start))

  scan-Kept :
      (dir : Directory) (full : Bool) (path : List ℕ) (m : MemoryMapManager) (w : World)
      → Kept k j m w
      → let r = scan dir full path m w in Kept k j r.1 r.2
  unfolding scan
  scan-Kept dir full path m w kept =
      let n = load_archives dir full (sort_paths dir (keep_bsa dir (dir.regular_files path))) m w in
      let loaded =
        load_archives-Kept dir full (sort_paths dir (keep_bsa dir (dir.regular_files path))) m w
          kept in
      elim (Bool-cases (length n.0.archives == 0)) [
        | inl nothing ↦ rw nothing loaded
        | inr something ↦ rw something (record {
          handles = loaded.handles;
          views = loaded.views;
          open_archives = loaded.open_archives;
          in_bounds = loaded.in_bounds;
        })
      ]

  initialize_at-Kept :
      (dir : Directory) (full : Bool) (o : Option (List ℕ)) (m : MemoryMapManager) (w : World)
      → Kept k j m w
      → let r = initialize_at dir full o m w in Kept k j r.1 r.2
  unfolding initialize_at
  initialize_at-Kept dir full none m w kept = kept
  initialize_at-Kept dir full (some path) m w kept = elim (Bool-cases (length m.archives == 0)) [
    | inr live ↦ rw live kept
    | inl fresh ↦ elim (Bool-cases (dir.is_directory path)) [
      | inr missing ↦ rw (fresh, missing) kept
      | inl present ↦ rw (fresh, present) (scan-Kept dir full path m w kept)
    ]
  ]

  -- Whatever the folder holds and Win32 answers: initializing keeps the account of kernel objects,
  -- so an archive that is refused or has a name taken already gives back what it held; all the
  -- archives kept are open, and the name index stays in bounds.
  pub initialize-Kept :
      (dir : Directory) (enable_mmap baseline wine : Bool) (data_path : List ℕ)
      (m : MemoryMapManager) (w : World)
      → Kept k j m w
      → let r = initialize dir enable_mmap baseline wine data_path m w in Kept k j r.1 r.2
  unfolding initialize
  initialize-Kept dir enable_mmap baseline wine data_path m w kept =
      initialize_at-Kept dir (enable_mmap && not baseline && not wine) (dir.normalize data_path) m w
        kept

  close_all_lem :
      (l : List MappedArchive) (w : World)
      → w.handles ≡ k + all_handles l
      → w.views ≡ j + all_views l
      → ((close_all l w).handles ≡ k) × ((close_all l w).views ≡ j)
  unfolding close_all close
  close_all_lem [] w h v = (h ∙ omega arith, v ∙ omega arith)
  close_all_lem (a ∷ l) w h v = close_all_lem l _ (ground arith) (ground arith)

  nothing_held : (l : List MappedArchive) → length l ≡ 0 → (all_handles l ≡ 0) × (all_views l ≡ 0)
  nothing_held [] e = (refl, refl)
  nothing_held (a ∷ l) e = absurd (omega (arith, e))

  found_none : (m : MemoryMapManager) (o : Option ℕ) → length m.archives ≡ 0 → found_at m o ≡ none
  unfolding found_at
  found_none m none e = refl
  found_none m (some i) e =
      let out : ltb i (length m.archives) ≡ false = ground arith in rw out refl

  -- After Shutdown no object of the manager is held, and it finds no archive.
  pub shutdown_releases :
      (m : MemoryMapManager) (w : World) (name : List ℕ)
      → Kept k j m w
      → let r = shutdown (m, w) in
        (r.1.handles ≡ k) × (r.1.views ≡ j) × (find_by_name r.0 name ≡ none)
  unfolding shutdown find_by_name found_at find_name
  shutdown_releases m w name kept = elim (Bool-cases (length m.archives == 0)) [
    | inl empty ↦
        let zero' : length m.archives ≡ 0 = ground arith in
        let free = nothing_held m.archives zero' in
        rw empty (
          kept.handles ∙ rw (free.0) (omega arith),
          kept.views ∙ rw (free.1) (omega arith),
          found_none m (find_name m.name_index (lower_ascii name)) zero',
        )
    | inr live ↦
        let closed = close_all_lem m.archives w kept.handles kept.views in
        rw live (closed.0, closed.1, refl)
  ]

  get_elem?-All :
      (l : List MappedArchive) (i : ℕ) (a : MappedArchive)
      → All (λ (b : MappedArchive). b.valid ≡ true) l
      → get_elem? l i ≡ some a
      → a.valid ≡ true
  get_elem?-All [] i a h e = absurd (cc)
  get_elem?-All (b ∷ l) zero a h e =
      let same : b ≡ a = cc in ap (λ (x : MappedArchive). x.valid) (sym same) ∙ h.0
  get_elem?-All (b ∷ l) (suc i) a h e = get_elem?-All l i a h.1 e

  found_at_open :
      (m : MemoryMapManager) (w : World) (o : Option ℕ) (a : MappedArchive)
      → Kept k j m w
      → found_at m o ≡ some a
      → a.valid ≡ true
  unfolding found_at
  found_at_open m w none a kept h = absurd (cc)
  found_at_open m w (some i) a kept h =
      get_elem?-All m.archives i a kept.open_archives (ground arith)

  -- An archive that is found by its name is open.
  pub find_by_name_open :
      (m : MemoryMapManager) (w : World) (name : List ℕ) (a : MappedArchive)
      → Kept k j m w
      → find_by_name m name ≡ some a
      → a.valid ≡ true
  unfolding find_by_name
  find_by_name_open m w name a kept h = found_at_open m w _ a kept h
