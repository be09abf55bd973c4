-- ===== src/Policy/Tests.antt =====
-- The policies at concrete inputs.
use faster_file_copy.Prelude.{
  ℕ, ◌+◌, ◌*◌, ◌/◌, ◌%◌, ◌^◌, ◌≤◌, min, ◌≡◌, ◌↔◌, ◌⊎◌, refl, true, some, List, [], ◌∷◌, ltb, ◌==◌,
  if◌then◌else◌, arith,
}
use faster_file_copy.Policy.Limit.{
  decide, usable, unavailable, automatic, configured, clamped, bytes_per_mib, eviction_target,
  required_headroom, decide_exact, eviction_makes_room,
}
use faster_file_copy.Policy.Progress.{
  validate_native_progress, Trusted, validate_native_progress_exact,
}
use faster_file_copy.Policy.Layout.{decode_little_endian_size, decode-encode}
use faster_file_copy.Policy.Section.{Section, consider, select, no_range, exact_name, name_matches}
use faster_file_copy.Policy.Section.Best.{NoneFits, FirstLargest, select_best}

clamps : (decide 2048 (2 ^ 32)).mode ≡ clamped
unfolding decide
clamps = refl

abbrev physical : ℕ
physical = 2 ^ 32

decide_exact_example :
    ((usable (decide 2048 physical) ≡ true) ↔ (4 ≤ physical))
    × ((decide 2048 physical).effective_bytes
        ≡ (if 2048 == 0 then physical / 4 else min (2048 * bytes_per_mib) (physical / 4)))
    × ((decide 2048 physical).mode ≡ (
        if ltb physical 4
        then unavailable
        else if 2048 == 0
        then automatic
        else if ltb (physical / 4) (2048 * bytes_per_mib)
        then clamped
        else configured))
decide_exact_example = decide_exact 2048 physical (omega arith)

eviction_makes_room_example : 60 + 25 + 15 ≤ 100
eviction_makes_room_example =
    eviction_makes_room 100 25 15 60 (omega arith) (omega arith)
      (unfold eviction_target required_headroom in omega arith)

validate_native_progress_exact_example :
    let p = validate_native_progress true 10 100 40 40 true true in
    ((p.valid ≡ true) ↔ Trusted true 10 100 40 40 true true)
    × (p.cursor_after ≡ (if p.valid then 10 + 40 else 10))
validate_native_progress_exact_example =
    validate_native_progress_exact true 10 100 40 40 true true (omega arith)

decode-encode_example :
    decode_little_endian_size
      (70000 % 256)
      (70000 / 2 ^ 8 % 256)
      (70000 / 2 ^ 16 % 256)
      (70000 / 2 ^ 24)
    ≡ 70000
decode-encode_example = decode-encode 70000 (omega arith)

-- ".text", and its eight bytes in a header.
abbrev text_name : List ℕ
text_name = 0x2e ∷ 0x74 ∷ 0x65 ∷ 0x78 ∷ 0x74 ∷ []

abbrev text_section : ℕ → Section
text_section size = record {
  name = some (0x2e ∷ 0x74 ∷ 0x65 ∷ 0x78 ∷ 0x74 ∷ 0 ∷ 0 ∷ 0 ∷ []);
  virtual_address = 0x1000;
  virtual_size = size;
  characteristics = 0x6000_0020;
}

picks_largest :
    select 0x1_4000_0000 text_name 0x2000_0000 no_range
      (text_section 16 ∷ text_section 64 ∷ text_section 64 ∷ text_section 32 ∷ [])
    ≡ record { begin = 0x1_4000_1000; end = 0x1_4000_1040; virtual_size = 64 }
unfolding select consider exact_name name_matches
picks_largest = refl

select_best_example :
    let sections : List Section = text_section 16 ∷ text_section 64 ∷ [] in
    let r = select 0x1_4000_0000 text_name 0x2000_0000 no_range sections in
    NoneFits 0x1_4000_0000 text_name 0x2000_0000 sections r
    ⊎ FirstLargest 0x1_4000_0000 text_name 0x2000_0000 sections r
select_best_example =
    select_best 0x1_4000_0000 text_name 0x2000_0000 (text_section 16 ∷ text_section 64 ∷ [])
      (omega arith)
