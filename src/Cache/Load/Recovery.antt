-- ===== src/Cache/Load/Recovery.antt =====
-- LoadCacheFile in Skyrim/src/DecompCache.cpp: a load, and a load after a crash in the middle of AppendFile.
use faster_file_copy.Prelude.{
  ℕ, ◌+◌, ◌≤◌, ◌≡◌, ◌⊎◌, inl, inr, refl, Bool, true, false, not, ◌&&◌, Option, some, List, ◌++◌,
  ◌==◌, ltb, length, take, length-take, All, arith, Bool-cases, u64_max,
}
use faster_file_copy.Format.Layout.{header_size, ArchiveIdentity, blank_result}
use faster_file_copy.Format.Validate.{is_no_error}
use faster_file_copy.Cache.Volume.{Volume}
use faster_file_copy.Cache.Commit.{PreparedPending, Answer, append_file, fresh_header}
use faster_file_copy.Cache.Commit.Effect.{payloads}
use faster_file_copy.Cache.Commit.Content.{Sound, begin, Storable, Represents}
use faster_file_copy.Cache.Commit.ReadBack.{validate-found}
use faster_file_copy.Cache.Commit.Durable.{Stored, end_of}
use faster_file_copy.Cache.Commit.Steps.{NoFailure}
use faster_file_copy.Cache.Commit.Rollback.{append_file-crash}
use faster_file_copy.Cache.Load.{
  LoadAnswers, Loaded, open_cache, publish_mapping, load_validated, load_mapped, load_opened,
  load_cache_file,
}
use faster_file_copy.Cache.Load.Contents.{take-Represents, LoadedWith, published}

-- The kernel's answers when every call that is made succeeds, but that the file may be open for reading
-- only, and may refuse to be truncated.
pub record Succeeds (answers : LoadAnswers) (writable : Bool) (base again : ℕ) : Type 0 where
  pub opened : open_cache answers ≡ some writable
  pub has_size : answers.sized ≡ true
  pub mapped : answers.mapping ≡ some base
  pub has_memory : answers.memory ≡ true
  pub remapped : answers.remapping ≡ some again

-- The contents that a load leaves, with what it has loaded.
abbrev pub Recovered :
    ArchiveIdentity → List PreparedPending → Bool → List ℕ × Option Loaded → Type 0
Recovered id l cut result =
    (r : Loaded) × (result.1 ≡ some r)
    × LoadedWith id l result.0 r
    × (cut ≡ true → length result.0 ≡ begin id + length (payloads l))

module _ (view base again : ℕ) (id : ArchiveIdentity) (l : List PreparedPending) (file : List ℕ)
    (writable : Bool) (answers : LoadAnswers) (ok : Storable id l) (fits : length file ≤ u64_max)
    (represents : Represents id l file) (good : Succeeds answers writable base again) where
  abbrev size : ℕ
  size = begin id + length (payloads l)

  abbrev Good : List ℕ × Option Loaded → Type 0
  Good = Recovered id l (writable && answers.truncates)

  whole_prefix : length (take size file) ≡ size
  whole_prefix = omega (arith, length-take size file, represents.has_data.1)

  -- The outcome of a mapping of the file as it is.
  kept :
      (at : ℕ) (needs cut : Bool)
      → needs ≡ not (size == length file)
      → (cut ≡ true → length file ≡ size)
      → Recovered id l cut (
          publish_mapping view file needs
            (record blank_result {
              header = fresh_header id (length l);
              data_start = begin id;
              valid_size = size;
            })
            (some at))
  kept at needs cut tail shorter =
      let (r, is, loaded) = published view at id l ok file needs represents tail in
      rw is (r, refl, loaded, shorter)

  cut_off :
      (cut : Bool)
      → Recovered id l cut (
          publish_mapping view
            (take size file)
            false
            (record blank_result {
              header = fresh_header id (length l);
              data_start = begin id;
              valid_size = size;
            })
            (some again))
  cut_off cut =
      let tail : false ≡ not (size == length (take size file)) = rw whole_prefix (ground arith) in
      let (r, is, loaded) =
        published view again id l ok (take size file) false
          (take-Represents id l file ok represents) tail in
      rw is (r, refl, loaded, λ h. whole_prefix)

  validated-Good : Good (
      load_validated view answers file writable base (record blank_result {
        header = fresh_header id (length l);
        data_start = begin id;
        valid_size = size;
      }))
  unfolding load_validated is_no_error
  validated-Good = elim (Bool-cases (size == length file)) [
    | inl exact ↦ rw exact (
        kept base false (writable && answers.truncates) (rw exact refl)
          (λ h. (let e : length file ≡ size = ground (arith, exact) in e)))
    | inr longer ↦ elim (Bool-cases writable) [
      | inr reading ↦
          rw (longer, reading) (kept base true false (rw longer refl) (λ h. absurd (cc (h))))
      | inl writing ↦ elim (Bool-cases answers.truncates) [
        | inl cut ↦ rw (longer, writing, cut, good.remapped) (cut_off true)
        | inr refused ↦
            rw (longer, writing, refused, good.remapped)
              (kept again true false (rw longer refl) (λ h. absurd (cc (h))))
      ]
    ]
  ]

-- Loading a file of less than 2 ^ 64 bytes that represents a list of payloads that a file can hold,
-- among any other bytes, succeeds when every call does: the index then serves exactly the payloads of the list, each from its
-- bytes in the file and still to be verified, the file is marked for replacement exactly if bytes follow
-- the last payload, and if it is open for writing and can be truncated, none do.
pub load_cache_file-Recovered :
    (view base again : ℕ) (id : ArchiveIdentity) (l : List PreparedPending) (file : List ℕ)
    (writable : Bool) (answers : LoadAnswers)
    → Storable id l
    → length file ≤ u64_max
    → Represents id l file
    → Succeeds answers writable base again
    → Recovered id l (writable && answers.truncates) (load_cache_file view answers id file)
unfolding load_cache_file load_opened load_mapped
load_cache_file-Recovered view base again id l file writable answers ok fits r good =
    let long : ltb (length file) header_size ≡ false = ground (arith, r.has_data.1) in
    let found = validate-found id l file true ok fits r (inl refl) in
    rw (good.opened, good.has_size, long, good.mapped, good.has_memory, found)
      (validated-Good view base again id l file writable answers ok fits r good)

Recovered-cut :
    (id : ArchiveIdentity) (l : List PreparedPending) (cut : Bool) (result : List ℕ × Option Loaded)
    → cut ≡ true
    → Recovered id l cut result
    → Recovered id l true result
Recovered-cut id l cut result is (r, some_r, loaded, shorter) = (r, some_r, loaded, λ h. shorter is)

-- If the system crashes at any point of an append to a durable file of which no call has failed so far,
-- where a file can hold the payloads from before and all of them together, whatever is left of the last
-- calls on the disk in less than 2 ^ 64 bytes, and the archive is loaded after the restart, open for
-- writing and with every call successful, then the cache serves exactly the payloads from before the
-- append, or exactly those together with all the appended ones, with no byte behind them in the file.
pub crash_then_load :
    (V : Volume) (id : ArchiveIdentity) (l m : List PreparedPending) (answers : List Answer)
    (f : V.File) (img : List ℕ) (view base again : ℕ) (loading : LoadAnswers)
    → Storable id l
    → Storable id (l ++ m)
    → All Sound m
    → NoFailure answers
    → Stored V id l f
    → V.Image (append_file V (fresh_header id (length l)) (end_of id l) m answers f).1 img
    → length img ≤ u64_max
    → Succeeds loading true base again
    → loading.truncates ≡ true
    → Recovered id l true (load_cache_file view loading id img)
      ⊎ Recovered id (l ++ m) true (load_cache_file view loading id img)
crash_then_load V id l m answers f img view base again loading old new sound sure stored is fits
      good cut =
    elim (append_file-crash V id l m answers f img new sound sure stored is) [
      | inl before ↦
          let loaded =
            load_cache_file-Recovered view base again id l img true loading old fits before good in
          inl (Recovered-cut id l loading.truncates _ cut loaded)
      | inr after ↦
          let loaded =
            load_cache_file-Recovered view base again id (l ++ m) img true loading new fits after
              good in
          inr (Recovered-cut id (l ++ m) loading.truncates _ cut loaded)
    ]
