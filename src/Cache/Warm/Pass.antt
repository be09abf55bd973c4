-- ===== src/Cache/Warm/Pass.antt =====
-- WarmMappedCaches in Skyrim/src/DecompCache.cpp: the loop over one mapping.
use faster_file_copy.Prelude.{
  ℕ, zero, suc, ◌+◌, ◌-◌, ◌≤◌, ◌<◌, ◌≡◌, ◌≢◌, inl, inr, refl, ap, ◌∙◌, Bool, true, not, ◌||◌, some,
  min, ltb, leb, ◌==◌, arith, Bool-cases, u64_max,
}
use faster_file_copy.Cache.State.{MappedView, DecompCache, Settings, update_view, request_warmup}
use faster_file_copy.Cache.Lookup.{report_mapping_io_failure, invalidate_owner}
use faster_file_copy.Cache.Lookup.Marks.{invalidate-kept}
use faster_file_copy.Cache.Warm.{
  Round, WarmOutcome, warmed, interrupted, io_failure, unfinished, warm_chunk_bytes, advance_view,
  warm_rounds, warm_view,
}
use faster_file_copy.Cache.Warm.Touch.{Resident, touch_mapped_pages-Resident}

request_warmup-views : (cfg : Settings) (s : DecompCache) → (request_warmup cfg s).views ≡ s.views
unfolding request_warmup
request_warmup-views cfg s = elim (Bool-cases cfg.prefault_decomp_cache) [
  | inl on ↦ rw on refl
  | inr off ↦ rw off refl
]

report-prefaulted :
    (cfg : Settings) (v : ℕ) (s : DecompCache)
    → ((report_mapping_io_failure cfg (some v) s).views v).prefaulted_through
      ≡ (s.views v).prefaulted_through
unfolding report_mapping_io_failure update_view
report-prefaulted cfg v s =
    let itself : (v == v) ≡ true = ground arith in
    let r = invalidate_owner v s.caches in
    let reported = record s {
      caches = r.1;
      views = update_view s.views v (record (s.views v) { unusable = true });
    } in
    ap (λ (w : ℕ → MappedView). (w v).prefaulted_through)
      ((invalidate-kept cfg (not r.0) reported).1)
    ∙ rw itself refl

advance_view-prefaulted :
    (view cursor bytes : ℕ) (s : DecompCache)
    → ((advance_view view cursor bytes s).views view).prefaulted_through ≡ cursor
unfolding advance_view update_view
advance_view-prefaulted view cursor bytes s =
    let itself : (view == view) ≡ true = ground arith in rw itself refl

-- What the mapping counts as prefaulted could be read, page by page.
abbrev pub PrefaultedResident : (ℕ → Bool) → ℕ → ℕ → DecompCache → Type 0
PrefaultedResident readable page_size view s =
    (x : ℕ) → x < (s.views view).prefaulted_through → Resident readable page_size x

module _ (cfg : Settings) (rounds : ℕ → Round) (readable : ℕ → Bool)
    (page_size previously_warmed view committed : ℕ) (some_size : 0 < page_size)
    (fits : committed ≤ u64_max) where
  abbrev Warm : DecompCache → Type 0
  Warm = PrefaultedResident readable page_size view

  record Ends (r : WarmOutcome × ℕ × DecompCache) : Type 0 where
    finite : r.0 ≢ unfinished
    warm : Warm r.2
    complete : r.0 ≡ warmed → committed ≤ (r.2.views view).prefaulted_through

  -- An interruption.
  gives_up : (t : DecompCache) → Warm t → (touched : ℕ) → Ends (interrupted, touched, t)
  gives_up t w touched = record {
    finite = λ e. absurd (cc (e));
    warm = w;
    complete = λ e. absurd (cc (e));
  }

  fails :
      (t : DecompCache)
      → Warm t
      → (touched : ℕ) → Ends (io_failure, touched, report_mapping_io_failure cfg (some view) t)
  fails t w touched = record {
    finite = λ e. absurd (cc (e));
    warm = rw (report-prefaulted cfg view t) w;
    complete = λ e. absurd (cc (e));
  }

  -- A chunk more is resident.
  advance-Warm :
      (cursor chunk touched : ℕ) (s : DecompCache)
      → cursor ≤ (s.views view).prefaulted_through
      → Warm s
      → ((x : ℕ) → cursor ≤ x → x < cursor + chunk → Resident readable page_size x)
      → Warm (advance_view view (cursor + chunk) touched s)
  unfolding advance_view update_view
  advance-Warm cursor chunk touched s reached w good x h =
      let itself : (view == view) ≡ true = ground arith in
      let below = rw itself at h in
      elim (Bool-cases (ltb x cursor)) [
        | inl old ↦ (let o : x < cursor = ground (arith, old) in w x (omega (arith, o, reached)))
        | inr new ↦ good x (ground (arith, new)) below
      ]

  warm_rounds-Ends :
      (fuel i cursor touched : ℕ) (s : DecompCache)
      → committed < cursor + fuel
      → cursor ≤ (s.views view).prefaulted_through
      → cursor ≤ committed
      → Warm s
      → Ends (
          warm_rounds cfg rounds readable page_size previously_warmed view committed fuel i cursor
            touched s)
  unfolding warm_rounds
  warm_rounds-Ends zero i cursor touched s enough reached inside w =
      absurd (omega (arith, enough, inside))
  warm_rounds-Ends (suc fuel) i cursor touched s enough reached inside w =
      elim (Bool-cases (leb committed cursor)) [
        | inl done ↦ rw done record {
          finite = λ e. absurd (cc (e));
          warm = w;
          complete = λ e.
              (let all : committed ≤ cursor = ground (arith, done) in omega (arith, all, reached));
        }
        | inr more ↦ elim (Bool-cases (rounds i).stop_requested) [
          | inl stop ↦ rw (more, stop) (gives_up s w touched)
          | inr runs ↦
              elim (Bool-cases (
                (rounds i).load_active || (rounds i).flush_requested || (rounds i).epoch_changed)) [
                  | inl busy ↦
                      rw (more, runs, busy)
                        (gives_up (request_warmup cfg s) (rw (request_warmup-views cfg s) w)
                          touched)
                  | inr idle ↦
                      let chunk = min warm_chunk_bytes (committed - cursor) in
                      let left : cursor < committed = ground (arith, more) in
                      let (answer, is, good) =
                        touch_mapped_pages-Resident readable cursor (cursor + chunk) page_size
                          (omega (arith, left)) some_size (omega (arith, left, fits)) in
                      rw (more, runs, idle, is)
                        (elim (Bool-cases answer) [
                          | inl read ↦
                              let next =
                                advance_view view (cursor + chunk)
                                  (previously_warmed + (touched + chunk)) s in
                              let at =
                                advance_view-prefaulted view (cursor + chunk)
                                  (previously_warmed + (touched + chunk)) s in
                              rw read (
                                warm_rounds-Ends fuel (i + 1) (cursor + chunk) (touched + chunk)
                                  next (omega (arith, left, enough)) (omega (arith, at))
                                  (omega (arith, left))
                                  (advance-Warm cursor chunk (previously_warmed + (touched + chunk))
                                    s reached w (good read)))
                          | inr fault ↦ rw fault (fails s w touched)
                        ])
                ]
        ]
      ]

-- A committed size of less than 2 ^ 64 and pages of at least one byte given, the loop of the warm pass
-- over a mapping ends, whatever its rounds find; if every page up to the prefaulted mark could be read
-- before it, then so it is afterwards; and when it ends undisturbed, the mark covers all that is committed.
pub warm_view_ends :
    (cfg : Settings) (rounds : ℕ → Round) (readable : ℕ → Bool)
    (page_size previously_warmed view touched : ℕ) (s : DecompCache)
    → 0 < page_size
    → (s.views view).committed_size ≤ u64_max
    → PrefaultedResident readable page_size view s
    → let (outcome, bytes, t) =
        warm_view cfg rounds readable page_size previously_warmed view touched s in
      (outcome ≢ unfinished)
      × PrefaultedResident readable page_size view t
      × (outcome ≡ warmed
          → min (s.views view).committed_size (s.views view).size
            ≤ (t.views view).prefaulted_through)
unfolding warm_view
warm_view_ends cfg rounds readable page_size previously_warmed view touched s some_size fits warm =
    let committed = min (s.views view).committed_size (s.views view).size in
    let cursor = min (s.views view).prefaulted_through committed in
    let ends =
      warm_rounds-Ends cfg rounds readable page_size previously_warmed view committed some_size
        (omega (arith, fits)) (committed - cursor + 1) 0 cursor touched s (omega arith)
        (omega arith) (omega arith) warm in
    (ends.finite, ends.warm, ends.complete)
