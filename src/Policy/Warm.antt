-- ===== src/Policy/Warm.antt =====
-- Skyrim/src/CacheWarmPolicy.h: whether a payload lies in the part of a file that is in RAM.
use faster_file_copy.Prelude.{
  ℕ, ◌+◌, ◌-◌, ◌≤◌, ◌<◌, min, ◌≡◌, ◌↔◌, Bool, true, false, ◌&&◌, ◌||◌, ltb, leb, ◌==◌,
  if◌then◌else◌, arith,
}

unfoldable pub is_range_warm : ℕ → ℕ → ℕ → ℕ → Bool
is_range_warm offset size committed warmed =
    if size == 0 || ltb committed offset || ltb (committed - offset) size
    then false
    else (let w = min warmed committed in leb offset w && leb size (w - offset))

-- A range is warm exactly when it is not empty and ends inside both the committed and the warmed
-- prefix; no sum of the test overflows.
pub is_range_warm_exact :
    (offset size committed warmed : ℕ)
    → (is_range_warm offset size committed warmed ≡ true)
      ↔ ((0 < size) × (offset + size ≤ committed) × (offset + size ≤ warmed))
unfolding is_range_warm
is_range_warm_exact offset size committed warmed = ((λ h. ground arith), (λ h. ground arith))
