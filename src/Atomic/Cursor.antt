-- ===== src/Atomic/Cursor.antt =====
-- Skyrim/src/StreamCursor.h: ranges of a stream claimed by many threads, and clamped seeks.
pub mod Tiles
pub mod Seek
use faster_file_copy.Prelude.{
  ℕ, ◌+◌, ◌-◌, ◌%◌, ◌≤◌, ◌<◌, min, ◌≡◌, refl, Bool, true, false, not, ◌&&◌, ◌||◌, Option, none,
  some, List, [], ◌∷◌, ◌==◌, ltb, leb, if◌then◌else◌, arith, u32_max, u32_mod,
}
use faster_file_copy.Prelude.Words.{add32, sub32}
use faster_file_copy.Atomic.Machine.{Round, returned, again, exchange_weak}

pub data ClaimStatus : Type 0 where
  claimed end_of_stream invalid : ClaimStatus

pub record RangeClaim : Type 0 where
  pub status : ClaimStatus
  pub absolute_offset : ℕ
  pub relative_offset : ℕ
  pub size : ℕ

abbrev pub invalid_claim : RangeClaim
invalid_claim = record { status = invalid; absolute_offset = 0; relative_offset = 0; size = 0 }

unfoldable pub is_valid : RangeClaim → Bool
is_valid c = elim c.status [ invalid ↦ false | _ ↦ true ]

-- The arguments of ClaimRange beside the cursor.
pub record Request : Type 0 where
  pub start : ℕ
  pub total : ℕ
  pub requested : ℕ

-- What ClaimRangeImpl returns before it loads the cursor.
unfoldable pub claim_early : Request → Option RangeClaim
claim_early r = if ltb u32_max (r.start + r.total) then some invalid_claim else none

-- One round of the loop of ClaimRangeImpl.
unfoldable pub claim_round : Request → ℕ → Bool → ℕ → Round RangeClaim
claim_round r observed spurious cursor =
    let end = r.start + r.total in
    if ltb observed r.start || ltb end observed
    then returned invalid_claim cursor
    else (let size = min r.requested (end - observed) % u32_mod in
        if size == 0
        then returned
            (record {
              status = if observed == end then end_of_stream else claimed;
              absolute_offset = observed;
              relative_offset = observed - r.start;
              size = 0;
            })
            cursor
        else exchange_weak spurious cursor observed (add32 observed size) (record {
          status = claimed;
          absolute_offset = observed;
          relative_offset = observed - r.start;
          size = size;
        }))
