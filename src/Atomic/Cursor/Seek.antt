-- ===== src/Atomic/Cursor/Seek.antt =====
-- Skyrim/src/StreamCursor.h, ClampSeek. The displacement is a signed 64-bit number.
use faster_file_copy.Prelude.{
  ℕ, ◌+◌, ◌-◌, ◌%◌, ◌≤◌, min, ◌≡◌, Bool, true, false, ◌||◌, ltb, if◌then◌else◌, arith, u32_max,
  u32_mod,
}
use faster_file_copy.Prelude.Int.{ℤ, pos, negsuc}
use faster_file_copy.Prelude.Words.{add64, sub32}

pub data SeekOrigin : Type 0 where
  begin current end : SeekOrigin

pub record SeekResult : Type 0 where
  pub valid : Bool
  pub absolute_offset : ℕ
  pub relative_offset : ℕ

abbrev pub invalid_seek : SeekResult
invalid_seek = record { valid = false; absolute_offset = 0; relative_offset = 0 }

unfoldable pub seek_base : SeekOrigin → ℕ → ℕ → ℕ → ℕ
seek_base begin current_absolute start total = 0
seek_base current current_absolute start total = sub32 current_absolute start
seek_base end current_absolute start total = total

-- `relative` before it is clamped. Of a negative displacement -(n + 1) the code takes the
-- magnitude as -(displacement + 1) + 1, that is n + 1.
unfoldable pub seek_relative : ℤ → ℕ → ℕ → ℕ
seek_relative (pos n) base total = if ltb (total - min base total) n then total else add64 base n
seek_relative (negsuc n) base total = if ltb base (n + 1) then 0 else base - (n + 1)

unfoldable pub clamp_seek : ℕ → ℕ → ℕ → ℤ → SeekOrigin → SeekResult
unfolding seek_base seek_relative
clamp_seek current_absolute start total displacement origin =
    if ltb u32_max (start + total)
      || ltb current_absolute start
      || ltb (start + total) current_absolute
    then invalid_seek
    else (let relative =
          min (seek_relative displacement (seek_base origin current_absolute start total) total)
            total in
        record {
          valid = true;
          absolute_offset = (start + relative) % u32_mod;
          relative_offset = relative;
        })

-- The position that a seek asks for, as an integer, clamped to the entry.
abbrev pub asked_base : SeekOrigin → ℕ → ℕ → ℕ → ℕ
asked_base begin current_absolute start total = 0
asked_base current current_absolute start total = current_absolute - start
asked_base end current_absolute start total = total

abbrev pub clamped_target : ℤ → ℕ → ℕ → ℕ
clamped_target (pos n) base total = min (base + n) total
clamped_target (negsuc n) base total = min (base - (n + 1)) total

-- Every displacement of 64 bits, the smallest included, moves to its exact target clamped to the
-- entry, with no wrap; the absolute offset is the start plus the relative one.
pub clamp_seek_exact :
    (current_absolute start total : ℕ) (displacement : ℤ) (origin : SeekOrigin)
    → start + total ≤ u32_max
    → start ≤ current_absolute
    → current_absolute ≤ start + total
    → clamp_seek current_absolute start total displacement origin ≡ record {
      valid = true;
      absolute_offset =
          start
          + clamped_target displacement (asked_base origin current_absolute start total) total;
      relative_offset =
          clamped_target displacement (asked_base origin current_absolute start total) total;
    }
unfolding clamp_seek
clamp_seek_exact c start total (pos n) begin h lo hi = ground arith
clamp_seek_exact c start total (pos n) current h lo hi = ground arith
clamp_seek_exact c start total (pos n) end h lo hi = ground arith
clamp_seek_exact c start total (negsuc n) begin h lo hi = ground arith
clamp_seek_exact c start total (negsuc n) current h lo hi = ground arith
clamp_seek_exact c start total (negsuc n) end h lo hi = ground arith
