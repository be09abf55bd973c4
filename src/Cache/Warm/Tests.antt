-- ===== src/Cache/Warm/Tests.antt =====
-- A warm pass over a mapping of three pages, and the witnesses of the theorems on warming.
use faster_file_copy.Prelude.{ℕ, ◌≤◌, ◌≡◌, ◌≢◌, refl, Bool, true, false, some, [], ◌∷◌, min, arith}
use faster_file_copy.Cache.State.{MappedView, DecompCache, Settings}
use faster_file_copy.Cache.Sample.{state_of}
use faster_file_copy.Cache.Warm.{
  Round, warmed, unfinished, touch_loop, advance, touched_offsets, warm_view,
}
use faster_file_copy.Cache.Warm.Touch.{Touches, touched_offsets-Touches}
use faster_file_copy.Cache.Warm.Pass.{PrefaultedResident, warm_view_ends}

-- Pages of 4 bytes, and a range that begins and ends inside of one.
three_pages : touched_offsets 4 1 10 ≡ some (1 ∷ 4 ∷ 8 ∷ 9 ∷ [])
unfolding touched_offsets touch_loop advance
three_pages = refl

touched_offsets-Touches_example : Touches 4 10 1 (touched_offsets 4 1 10)
touched_offsets-Touches_example =
    touched_offsets-Touches 4 1 10 (omega arith) (omega arith) (omega arith)

abbrev mapped : MappedView
mapped = record {
  base = 1000;
  size = 10;
  committed_size = 10;
  prefaulted_through = 0;
  unusable = false;
}

abbrev cold : DecompCache
cold = state_of [] (λ v. mapped) 0

abbrev settings : Settings
settings = record {
  measure_stats = false;
  prefault_decomp_cache = true;
  decomp_cache_max_bytes = 100000;
}

abbrev quiet : ℕ → Round
quiet i = record {
  stop_requested = false;
  load_active = false;
  flush_requested = false;
  epoch_changed = false;
}

abbrev pages : ℕ → Bool
pages o = true

warm_view_ends_example :
    let (outcome, bytes, t) = warm_view settings quiet pages 4 0 2 0 cold in
    (outcome ≢ unfinished)
    × PrefaultedResident pages 4 2 t
    × (outcome ≡ warmed → min 10 10 ≤ (t.views 2).prefaulted_through)
warm_view_ends_example =
    warm_view_ends settings quiet pages 4 0 2 0 cold (omega arith) (omega arith)
      (λ x h. absurd (omega (arith, h)))
