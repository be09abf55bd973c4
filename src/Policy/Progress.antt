-- ===== src/Policy/Progress.antt =====
-- Skyrim/src/CompressedReadPolicy.h: what a native read may report.
use faster_file_copy.Prelude.{
  ℕ, ◌+◌, ◌-◌, ◌%◌, ◌≤◌, ◌≡◌, ◌↔◌, Bool, true, false, not, ◌&&◌, ◌||◌, ◌⊎◌, inl, inr, Bool-cases,
  ltb, ◌==◌, if◌then◌else◌, u32_max, u32_mod, arith,
}
use faster_file_copy.Prelude.Words.{add32}

pub record Progress : Type 0 where
  pub valid : Bool
  pub cursor_after : ℕ

unfoldable pub seek_moved : ℕ → ℕ → Bool
seek_moved before after = not (after == before)

unfoldable pub validate_native_progress : Bool → ℕ → ℕ → ℕ → ℕ → Bool → Bool → Progress
validate_native_progress cursor_known before known_size requested got succeeded buffer =
    if not cursor_known
      || not succeeded
      || ltb requested got
      || (ltb 0 got && not buffer)
      || ltb (u32_max - before) got
    then record { valid = false; cursor_after = before }
    else if ltb 0 known_size && (ltb known_size before || ltb (known_size - before) got)
    then record { valid = false; cursor_after = before }
    else record { valid = true; cursor_after = add32 before (got % u32_mod) }

-- What a read must satisfy to be trusted.
pub record Trusted (cursor_known : Bool) (before known_size requested got : ℕ)
    (succeeded buffer : Bool) : Type 0 where
  pub known : cursor_known ≡ true
  pub success : succeeded ≡ true
  pub no_more : got ≤ requested
  pub stored : (got ≡ 0) ⊎ (buffer ≡ true)
  pub in_word : before + got ≤ u32_max
  pub in_payload : (known_size ≡ 0) ⊎ (before + got ≤ known_size)

module _ (cursor_known : Bool) (before known_size requested got : ℕ) (succeeded buffer : Bool)
    (e : (validate_native_progress cursor_known before known_size requested got succeeded
        buffer).valid
      ≡ true) where
  stored_cases : (got ≡ 0) ⊎ (buffer ≡ true)
  unfolding validate_native_progress
  stored_cases = elim (Bool-cases buffer) [ inl b ↦ inr b | inr b ↦ inl (ground arith) ]

  payload_cases : (known_size ≡ 0) ⊎ (before + got ≤ known_size)
  unfolding validate_native_progress
  payload_cases = elim (Bool-cases (known_size == 0)) [
    | inl b ↦ inl (ground arith)
    | inr b ↦ inr (ground arith)
  ]

-- Native progress is valid exactly when the read is trusted; then the cursor moves on by the bytes
-- read without wrapping, and otherwise it stays.
pub validate_native_progress_exact :
    (cursor_known : Bool) (before known_size requested got : ℕ) (succeeded buffer : Bool)
    → before ≤ u32_max
    → let p =
        validate_native_progress cursor_known before known_size requested got succeeded buffer in
      ((p.valid ≡ true) ↔ Trusted cursor_known before known_size requested got succeeded buffer)
      × (p.cursor_after ≡ (if p.valid then before + got else before))
unfolding validate_native_progress
validate_native_progress_exact cursor_known before known_size requested got succeeded buffer h = (
  (
    (λ e. record {
      known = ground arith;
      success = ground arith;
      no_more = ground arith;
      stored = stored_cases cursor_known before known_size requested got succeeded buffer e;
      in_word = ground arith;
      in_payload = payload_cases cursor_known before known_size requested got succeeded buffer e;
    }),
    (λ t. ground (arith, t.stored, t.in_payload)),
  ),
  ground arith,
)
