-- ===== src/Cache/Lookup/Intact.antt =====
-- Entries whose payload has the recorded checksum, and what verification tells of them.
use faster_file_copy.Prelude.{
  ℕ, ◌≡◌, inl, inr, refl, sym, ap, ◌∙◌, true, Option, none, some, List, [], ◌∷◌, ◌==◌, All, arith,
  Bool-cases,
}
use faster_file_copy.Format.Checksum.{checksum}
use faster_file_copy.Cache.State.{
  Verification, verify_unknown, verify_busy, verify_valid, verify_invalid, CachedEntry,
  ArchiveCache, DecompCache, find, replace,
}
use faster_file_copy.Cache.Lookup.{payload_valid, verify_state, verify_data, verify_entry}

pub find-All {ℓ κ} :
    {A : Type ℓ} (P : A → Type κ) (m : List (ℕ × A)) (k : ℕ) (a : A)
    → All (λ (r : ℕ × A). P r.1) m
    → find m k ≡ some a
    → P a
unfolding find
find-All P [] k a h e = absurd (cc)
find-All P ((j, b) ∷ m) k a h e = elim (Bool-cases (j == k)) [
  | inl same ↦ let is : b ≡ a = ground arith in rw (← is) h.0
  | inr other ↦ find-All P m k a h.1 (ground arith)
]

pub replace-All {ℓ κ} :
    {A : Type ℓ} (P : A → Type κ) (m : List (ℕ × A)) (k : ℕ) (b : A)
    → All (λ (r : ℕ × A). P r.1) m
    → P b
    → All (λ (r : ℕ × A). P r.1) (replace m k b)
unfolding replace
replace-All P [] k b h p = tt
replace-All P ((j, a) ∷ m) k b h p = elim (Bool-cases (j == k)) [
  | inl same ↦ rw same (p, h.1)
  | inr other ↦ rw other (h.0, replace-All P m k b h.1 p)
]

module _ (read : ℕ → ℕ → Option (List ℕ)) where
  -- The payload can be read, and its checksum is the recorded one.
  pub record Intact (address size expected : ℕ) : Type 0 where
    pub bytes : List ℕ
    pub readable : read address size ≡ some bytes
    pub matches : checksum (some bytes) size ≡ expected

  abbrev pub EntryIntact : CachedEntry → Type 0
  EntryIntact e =
      (address : ℕ) → e.data_address ≡ some address → Intact address e.size e.checksum_value

  -- An entry that is marked as verified is intact.
  abbrev pub Marked : CachedEntry → Type 0
  Marked e = e.verification ≡ some verify_valid → EntryIntact e

  abbrev pub CacheMarked : ArchiveCache → Type 0
  CacheMarked c = All (λ (r : ℕ × CachedEntry). Marked r.1) c.index

  abbrev pub Sound : DecompCache → Type 0
  Sound s = All (λ (r : ℕ × ArchiveCache). CacheMarked r.1) s.caches

  payload_valid-Intact :
      (address size expected : ℕ) (o : Option (List ℕ))
      → read address size ≡ o
      → payload_valid read (some address) size expected ≡ true
      → Intact address size expected
  unfolding payload_valid
  payload_valid-Intact address size expected none e h = absurd (ground arith)
  payload_valid-Intact address size expected (some bytes) e h = record {
    bytes = bytes;
    readable = e;
    matches = ground arith;
  }

  verify_state-Intact :
      (e : CachedEntry) (address : ℕ) (o : Option Verification)
      → (o ≡ some verify_valid → Intact address e.size e.checksum_value)
      → e.data_address ≡ some address
      → (verify_state read e o).0.valid ≡ true
      → Intact address e.size e.checksum_value
  unfolding verify_state
  verify_state-Intact e address none m a h = absurd (cc)
  verify_state-Intact e address (some verify_valid) m a h = m refl
  verify_state-Intact e address (some verify_invalid) m a h = absurd (cc)
  verify_state-Intact e address (some verify_unknown) m a h =
      payload_valid-Intact address e.size e.checksum_value _ refl
        (ap (λ d. payload_valid read d e.size e.checksum_value) (sym a) ∙ h)
  verify_state-Intact e address (some verify_busy) m a h =
      payload_valid-Intact address e.size e.checksum_value _ refl
        (ap (λ d. payload_valid read d e.size e.checksum_value) (sym a) ∙ h)

  -- The byte that verification leaves marks the entry only if the answer is positive.
  verify_state-marks :
      (e : CachedEntry) (o : Option Verification)
      → (verify_state read e o).1 ≡ some verify_valid
      → (verify_state read e o).0.valid ≡ true
  unfolding verify_state
  verify_state-marks e none h = absurd (cc)
  verify_state-marks e (some verify_valid) h = refl
  verify_state-marks e (some verify_invalid) h = absurd (cc)
  verify_state-marks e (some verify_unknown) h = ground arith
  verify_state-marks e (some verify_busy) h = ground arith

  verify_data-Intact :
      (e : CachedEntry) (address : ℕ) (d : Option ℕ)
      → Marked e
      → e.data_address ≡ some address
      → (verify_data read e d).0.valid ≡ true
      → Intact address e.size e.checksum_value
  unfolding verify_data
  verify_data-Intact e address none m a h = absurd (cc)
  verify_data-Intact e address (some b) m a h =
      verify_state-Intact e address e.verification (λ v. m v address a) a (ground arith)

  pub verify_entry-Intact :
      (e : CachedEntry) (address : ℕ)
      → Marked e
      → e.data_address ≡ some address
      → (verify_entry read e).0.valid ≡ true
      → Intact address e.size e.checksum_value
  unfolding verify_entry
  verify_entry-Intact e address m a h = verify_data-Intact e address e.data_address m a h

  verify_data-Marked :
      (e : CachedEntry) (d : Option ℕ)
      → e.data_address ≡ d
      → Marked e
      → Marked (verify_data read e d).1
  unfolding verify_data
  verify_data-Marked e none same m = m
  verify_data-Marked e (some b) same m = elim (Bool-cases (e.size == 0)) [
    | inl empty ↦ rw empty m
    | inr full ↦ rw full (λ v address a.
        verify_state-Intact e address e.verification (λ w. m w address a) a
          (verify_state-marks e e.verification v))
  ]

  pub verify_entry-Marked : (e : CachedEntry) → Marked e → Marked (verify_entry read e).1
  unfolding verify_entry
  verify_entry-Marked e m = verify_data-Marked e e.data_address refl m
