-- ===== src/Format/Validate/Accepts.antt =====
-- The validator accepts exactly the well-formed files.
use faster_file_copy.Prelude.{
  ℕ, zero, suc, ◌+◌, ◌≤◌, ◌≡◌, refl, sym, ◌∙◌, ap, ◌↔◌, true, false, List, [], ◌∷◌, ◌++◌, length,
  arith, Bool-cases, inl, inr, u64_max,
}
use mathlib.Core.List.{append_assoc, append-nil}
use faster_file_copy.Prelude.Words.{add64}
use faster_file_copy.Format.Layout.{
  Entry, decode_entry, ValidationMode, structural_only, full_payload, ValidationError, no_error,
}
use faster_file_copy.Format.Validate.{
  same_bytes, bad_checksum, check_entry, failed, finished, is_no_error, check_entries,
}
use faster_file_copy.Format.Validate.Spec.{
  entries, total_size, Checked, Payload, Contiguous, start_offsets,
}

pub same_bytes_iff : (p q : List ℕ) → (same_bytes p q ≡ true) ↔ (p ≡ q)
same_bytes_iff [] [] = ((λ e. refl), (λ e. refl))
same_bytes_iff [] (y ∷ q) = ((λ e. cc), (λ e. cc))
same_bytes_iff (x ∷ p) [] = ((λ e. cc), (λ e. cc))
same_bytes_iff (x ∷ p) (y ∷ q) =
    ((λ e. ground (arith, (same_bytes_iff p q).0)), (λ e. ground (arith, (same_bytes_iff p q).1)))

bad_checksum_iff :
    (mode : ValidationMode) (bytes : List ℕ) (cursor : ℕ) (e : Entry)
    → (bad_checksum mode bytes cursor e ≡ false) ↔ Checked mode bytes cursor e
unfolding bad_checksum
bad_checksum_iff structural_only bytes cursor e = ((λ h. tt), (λ h. refl))
bad_checksum_iff full_payload bytes cursor e = ((λ h. ground arith), (λ h. ground arith))

-- One round of the loop goes on exactly when the payload is in order.
module _ (mode : ValidationMode) (bytes : List ℕ) (cursor : ℕ) (e : Entry) where
  pub check_entry-Payload : check_entry mode bytes cursor e ≡ no_error → Payload mode bytes cursor e
  unfolding check_entry
  check_entry-Payload h = record {
    nonempty = ground arith;
    small = ground arith;
    in_place = ground arith;
    inside = ground arith;
    checked = (bad_checksum_iff mode bytes cursor e).0 (ground arith);
  }

  pub Payload-check_entry : Payload mode bytes cursor e → check_entry mode bytes cursor e ≡ no_error
  unfolding check_entry
  Payload-check_entry p = ground (arith, (bad_checksum_iff mode bytes cursor e).1 p.checked)

pub is_no_error_iff : (e : ValidationError) → is_no_error e ≡ true → e ≡ no_error
unfolding is_no_error
is_no_error_iff no_error h = refl
is_no_error_iff _ h = cc

module _ (mode : ValidationMode) (bytes : List ℕ) (fits : length bytes ≤ u64_max) where
  next_cursor :
      (c : ℕ) (e : Entry) → Payload mode bytes c e → add64 c e.decomp_size ≡ c + e.decomp_size
  next_cursor c e p = let h = p.inside in omega arith

  step_good :
      (n i c : ℕ) (offsets : List ℕ)
      → is_no_error (check_entry mode bytes c (decode_entry bytes i)) ≡ true
      → Payload mode bytes c (decode_entry bytes i)
      → check_entries mode bytes (suc n) i c offsets
        ≡ check_entries mode bytes n
            (i + 1)
            (c + (decode_entry bytes i).decomp_size)
            (offsets ++ (decode_entry bytes i).start_offset ∷ [])
  unfolding check_entries
  step_good n i c offsets good p = rw (good, next_cursor c (decode_entry bytes i) p)

  step_bad :
      (n i c : ℕ) (offsets : List ℕ)
      → is_no_error (check_entry mode bytes c (decode_entry bytes i)) ≡ false
      → check_entries mode bytes (suc n) i c offsets
        ≡ failed (check_entry mode bytes c (decode_entry bytes i)) i
  unfolding check_entries
  step_bad n i c offsets bad = rw bad

  -- A loop that ends has seen contiguous payloads.
  pub check_entries_sound :
      (n i c : ℕ) (offsets : List ℕ) (c' : ℕ) (offsets' : List ℕ)
      → check_entries mode bytes n i c offsets ≡ finished c' offsets'
      → Contiguous mode bytes c (entries bytes i n)
        × (c' ≡ c + total_size (entries bytes i n))
        × (offsets' ≡ offsets ++ start_offsets (entries bytes i n))
  check_entries_sound zero i c offsets c' offsets' h =
      unfold check_entries in (tt, ground arith, ground (arith, append-nil offsets))
  check_entries_sound (suc n) i c offsets c' offsets' h =
      elim (Bool-cases (is_no_error (check_entry mode bytes c (decode_entry bytes i)))) [
        | inl good ↦
            let p : Payload mode bytes c (decode_entry bytes i) =
              check_entry-Payload mode bytes c _ (is_no_error_iff _ good) in
            let rest =
              check_entries_sound n (i + 1) (c + (decode_entry bytes i).decomp_size)
                (offsets ++ (decode_entry bytes i).start_offset ∷ []) c' offsets'
                (sym (step_good n i c offsets good p) ∙ h) in
            ((p, rest.0), omega (arith, rest.1), rest.2 ∙ append_assoc offsets _ _)
        | inr bad ↦ cc (step_bad n i c offsets bad, h)
      ]

  -- A loop over contiguous payloads ends.
  pub check_entries_complete :
      (n i c : ℕ) (offsets : List ℕ)
      → Contiguous mode bytes c (entries bytes i n)
      → check_entries mode bytes n i c offsets
        ≡ finished
            (c + total_size (entries bytes i n))
            (offsets ++ start_offsets (entries bytes i n))
  check_entries_complete zero i c offsets k =
      unfold check_entries in ground (arith, append-nil offsets)
  check_entries_complete (suc n) i c offsets k =
      step_good n i c offsets
        (ap is_no_error (Payload-check_entry mode bytes c _ k.0) ∙ (unfold is_no_error in refl)) k.0
      ∙ check_entries_complete n (i + 1) (c + (decode_entry bytes i).decomp_size)
          (offsets ++ (decode_entry bytes i).start_offset ∷ []) k.1
      ∙ ground (
        arith,
        append_assoc offsets ((decode_entry bytes i).start_offset ∷ [])
            (start_offsets (entries bytes (i + 1) n)),
      )

  -- A loop that returns early returns an error.
  pub check_entries-error :
      (n i c : ℕ) (offsets : List ℕ) (e : ValidationError) (k : ℕ)
      → check_entries mode bytes n i c offsets ≡ failed e k
      → is_no_error e ≡ false
  check_entries-error zero i c offsets e k h = unfold check_entries in cc
  check_entries-error (suc n) i c offsets e k h =
      elim (Bool-cases (is_no_error (check_entry mode bytes c (decode_entry bytes i)))) [
        | inl good ↦
            check_entries-error n (i + 1) (c + (decode_entry bytes i).decomp_size)
              (offsets ++ (decode_entry bytes i).start_offset ∷ []) e k
              (sym (
                  step_good n i c offsets good
                    (check_entry-Payload mode bytes c _ (is_no_error_iff _ good)))
                ∙ h)
        | inr bad ↦ cc (step_bad n i c offsets bad, h, bad)
      ]
