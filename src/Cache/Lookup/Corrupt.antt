-- ===== src/Cache/Lookup/Corrupt.antt =====
-- VerifyEntry in Skyrim/src/DecompCache.cpp: why a verification fails.
use faster_file_copy.Prelude.{
  ℕ, ◌≡◌, ◌≢◌, inl, inr, refl, sym, ap, ◌∙◌, false, Option, none, some, List, ◌==◌, arith,
  Bool-cases,
}
use faster_file_copy.Format.Checksum.{checksum}
use faster_file_copy.Cache.State.{
  Verification, verify_unknown, verify_busy, verify_valid, verify_invalid, CachedEntry,
}
use faster_file_copy.Cache.Lookup.{payload_valid, verify_state, verify_data, verify_entry}

-- Why the payload of an entry cannot be trusted.
pub data Corrupt (read : ℕ → ℕ → Option (List ℕ)) (address : ℕ) (e : CachedEntry) : Type 0 where
  empty : e.size ≡ 0 → Corrupt read address e
  no_state : e.verification ≡ none → Corrupt read address e
  known : e.verification ≡ some verify_invalid → Corrupt read address e
  unreadable : read address e.size ≡ none → Corrupt read address e
  differs :
      (bytes : List ℕ)
      → read address e.size ≡ some bytes
      → checksum (some bytes) e.size ≢ e.checksum_value
      → Corrupt read address e

module _ (read : ℕ → ℕ → Option (List ℕ)) where
  payload_valid-Corrupt :
      (address : ℕ) (e : CachedEntry) (o : Option (List ℕ))
      → read address e.size ≡ o
      → payload_valid read (some address) e.size e.checksum_value ≡ false
      → Corrupt read address e
  unfolding payload_valid
  payload_valid-Corrupt address e none o h = unreadable o
  payload_valid-Corrupt address e (some bytes) o h = elim (Bool-cases (e.size == 0)) [
    | inl none_of_it ↦ empty (ground arith)
    | inr full ↦ differs bytes o (ground (arith, rw (full, o) at h))
  ]

  verify_state-Corrupt :
      (address : ℕ) (e : CachedEntry) (o : Option Verification)
      → e.data_address ≡ some address
      → e.verification ≡ o
      → (verify_state read e o).0.valid ≡ false
      → Corrupt read address e
  unfolding verify_state
  verify_state-Corrupt address e none a o h = no_state o
  verify_state-Corrupt address e (some verify_valid) a o h = absurd (cc)
  verify_state-Corrupt address e (some verify_invalid) a o h = known o
  verify_state-Corrupt address e (some verify_unknown) a o h =
      payload_valid-Corrupt address e _ refl
        (ap (λ d. payload_valid read d e.size e.checksum_value) (sym a) ∙ h)
  verify_state-Corrupt address e (some verify_busy) a o h =
      payload_valid-Corrupt address e _ refl
        (ap (λ d. payload_valid read d e.size e.checksum_value) (sym a) ∙ h)

  pub verify_entry-Corrupt :
      (address : ℕ) (e : CachedEntry)
      → e.data_address ≡ some address
      → (verify_entry read e).0.valid ≡ false
      → Corrupt read address e
  unfolding verify_entry verify_data
  verify_entry-Corrupt address e a h = elim (Bool-cases (e.size == 0)) [
    | inl none_of_it ↦ empty (ground arith)
    | inr full ↦
        verify_state-Corrupt address e e.verification a refl (rw (a, verify_data, full) at h)
  ]
