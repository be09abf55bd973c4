-- ===== src/Cache/Warm.antt =====
-- Skyrim/src/DecompCache.cpp: TouchMappedPages, and the loop of the warm pass that makes one mapping
-- resident. A read of a mapping succeeds or faults, which is a parameter.
pub mod Touch
pub mod Pass
pub mod Served
mod Tests
use faster_file_copy.Prelude.{
  ℕ, zero, suc, ◌+◌, ◌-◌, ◌*◌, ◌%◌, min, Bool, true, false, ◌&&◌, ◌||◌, Option, none, some, List,
  [], ◌∷◌, ◌++◌, ltb, leb, ◌==◌, if◌then◌else◌,
}
use faster_file_copy.Prelude.Words.{add64}
use faster_file_copy.Cache.State.{MappedView, DecompCache, Settings, update_view, request_warmup}
use faster_file_copy.Cache.Lookup.{report_mapping_io_failure}

abbrev pub before : ℕ → Option (List ℕ) → Option (List ℕ)
before offset none = none
before offset (some l) = some (offset ∷ l)

-- The offsets that the for loop reads; `none` when the fuel is spent.
unfoldable pub touch_loop : ℕ → ℕ → ℕ → ℕ → Option (List ℕ)
touch_loop page_size end zero offset = none
touch_loop page_size end (suc fuel) offset =
    let rest = touch_loop page_size end fuel (add64 offset page_size) in
    if leb end offset
    then some []
    else if leb (end - offset) page_size
    then some (offset ∷ [])
    else before offset rest

unfoldable pub advance : ℕ → ℕ → ℕ
advance page_size begin =
    let misalignment = begin % page_size in
    if misalignment == 0 then page_size else page_size - misalignment

abbrev pub around : ℕ → ℕ → Option (List ℕ) → Option (List ℕ)
around first last none = none
around first last (some l) = some (first ∷ (l ++ last ∷ []))

-- All offsets that are read, with the bytes of the range as fuel.
unfoldable pub touched_offsets : ℕ → ℕ → ℕ → Option (List ℕ)
unfolding touch_loop advance
touched_offsets page_size begin end =
    if leb end begin || page_size == 0
    then some []
    else around begin (end - 1) (
        if ltb (advance page_size begin) (end - begin)
        then touch_loop page_size end (end - begin) (add64 begin (advance page_size begin))
        else some [])

abbrev pub all_readable : (ℕ → Bool) → List ℕ → Bool
all_readable readable [] = true
all_readable readable (o ∷ l) = readable o && all_readable readable l

abbrev pub outcome : (ℕ → Bool) → Option (List ℕ) → Option Bool
outcome readable none = none
outcome readable (some l) = some (all_readable readable l)

-- With a base that is not null.
unfoldable pub touch_mapped_pages : (ℕ → Bool) → ℕ → ℕ → ℕ → Option Bool
unfolding touched_offsets
touch_mapped_pages readable begin end page_size =
    outcome readable (touched_offsets page_size begin end)

abbrev pub warm_chunk_bytes : ℕ
warm_chunk_bytes = 8 * 1024 * 1024

-- What a round of the loop finds when it looks.
pub record Round : Type 0 where
  pub stop_requested : Bool
  pub load_active : Bool
  pub flush_requested : Bool
  pub epoch_changed : Bool

-- How the loop over a mapping ends; `unfinished` is for fuel that is spent.
pub data WarmOutcome : Type 0 where
  warmed interrupted io_failure unfinished : WarmOutcome

-- The stores behind a chunk that could be read.
unfoldable pub advance_view : ℕ → ℕ → ℕ → DecompCache → DecompCache
advance_view view cursor warmed_bytes s = record s {
  warmed_bytes = warmed_bytes;
  views = update_view s.views view (record (s.views view) { prefaulted_through = cursor });
}

module _ (cfg : Settings) (rounds : ℕ → Round) (readable : ℕ → Bool)
    (page_size previously_warmed view committed : ℕ) where
  -- while (cursor < committed), from round i on, with the bytes that the pass has touched so far.
  unfoldable pub warm_rounds : ℕ → ℕ → ℕ → ℕ → DecompCache → WarmOutcome × ℕ × DecompCache
  unfolding touch_mapped_pages advance_view request_warmup report_mapping_io_failure
  warm_rounds zero i cursor touched s = (unfinished, touched, s)
  warm_rounds (suc fuel) i cursor touched s =
      let chunk = min warm_chunk_bytes (committed - cursor) in
      let rest =
        warm_rounds fuel (i + 1) (cursor + chunk) (touched + chunk)
          (advance_view view (cursor + chunk) (previously_warmed + (touched + chunk)) s) in
      if leb committed cursor
      then (warmed, touched, s)
      else if (rounds i).stop_requested
      then (interrupted, touched, s)
      else if (rounds i).load_active || (rounds i).flush_requested || (rounds i).epoch_changed
      then (interrupted, touched, request_warmup cfg s)
      else elim (touch_mapped_pages readable cursor (cursor + chunk) page_size) [
        | none ↦ (unfinished, touched, s)
        | some answer ↦
            if answer
            then rest
            else (io_failure, touched, report_mapping_io_failure cfg (some view) s)
      ]

-- The rounds for one mapping, with the bytes that are left as fuel.
unfoldable pub warm_view :
    Settings
    → (ℕ → Round)
    → (ℕ → Bool)
    → ℕ
    → ℕ
    → ℕ
    → ℕ
    → DecompCache
    → WarmOutcome × ℕ × DecompCache
unfolding warm_rounds
warm_view cfg rounds readable page_size previously_warmed view touched s =
    let committed = min (s.views view).committed_size (s.views view).size in
    let cursor = min (s.views view).prefaulted_through committed in
    warm_rounds cfg rounds readable page_size previously_warmed view committed
      (committed - cursor + 1) 0 cursor touched s
