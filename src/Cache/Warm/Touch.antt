-- ===== src/Cache/Warm/Touch.antt =====
-- TouchMappedPages in Skyrim/src/DecompCache.cpp: which offsets of a mapping are read.
use faster_file_copy.Prelude.{
  ℕ, zero, suc, ◌+◌, ◌-◌, ◌*◌, ◌/◌, ◌%◌, ◌≤◌, ◌<◌, ◌≡◌, ◌⊎◌, inl, inr, refl, sym, ap, ◌∙◌, Bool,
  true, false, ◌||◌, Option, some, List, [], ◌∷◌, ◌++◌, ltb, leb, ◌==◌, All, arith, Bool-cases,
  u64_max,
}
use native.Mathlib.Nat.{suc-mul, mul-mod_left, div-add-mod', mod-lt, div-eq_of_lt-le, add-mod_right}
use faster_file_copy.Prelude.Words.{add64}
use faster_file_copy.Cache.Warm.{
  touch_loop, advance, touched_offsets, all_readable, touch_mapped_pages,
}

-- An offset on the page of `x` is in the list.
abbrev pub Covered : ℕ → List ℕ → ℕ → Type 0
Covered page_size [] x = ⊥
Covered page_size (o ∷ l) x = (o / page_size ≡ x / page_size) ⊎ Covered page_size l x

-- From an offset to the end of its page.
same_page :
    (page_size offset x : ℕ)
    → 0 < page_size
    → offset ≤ x
    → x + offset % page_size < offset + page_size
    → offset / page_size ≡ x / page_size
same_page page_size offset x some_size low high =
    let whole = div-add-mod' offset page_size in
    let q = offset / page_size in
    let below : q * page_size ≤ x = omega (arith, whole, low) in
    let above : x < (q + 1) * page_size =
      (let next : (q + 1) * page_size ≡ q * page_size + page_size =
          (let e : q + 1 ≡ suc q = omega arith in ap (λ n. n * page_size) e)
          ∙ suc-mul q page_size in
        omega (arith, whole, high, next)) in
    sym (div-eq_of_lt-le page_size below above)

Covered-snoc :
    (page_size : ℕ) (l : List ℕ) (o x : ℕ)
    → Covered page_size l x
    → Covered page_size (l ++ o ∷ []) x
Covered-snoc page_size [] o x c = absurd c
Covered-snoc page_size (p ∷ l) o x (inl here) = inl here
Covered-snoc page_size (p ∷ l) o x (inr there) = inr (Covered-snoc page_size l o x there)

-- The reads from one offset to another: all inside, and one on every page.
pub record Touches (page_size end offset : ℕ) (r : Option (List ℕ)) : Type 0 where
  pub offsets : List ℕ
  pub ended : r ≡ some offsets
  pub within : All (λ o. (offset ≤ o) × (o < end)) offsets
  pub covers : (x : ℕ) → offset ≤ x → x < end → Covered page_size offsets x

weaken :
    (a b end : ℕ) (l : List ℕ)
    → a ≤ b
    → All (λ o. (b ≤ o) × (o < end)) l
    → All (λ o. (a ≤ o) × (o < end)) l
weaken a b end [] h w = tt
weaken a b end (o ∷ l) h w =
    (((let x = w.0.0 in omega (arith, h, x)), w.0.1), weaken a b end l h w.1)

touch_loop-Touches :
    (page_size end fuel offset : ℕ)
    → 0 < page_size
    → end ≤ u64_max
    → offset % page_size ≡ 0
    → offset < end
    → end < offset + fuel
    → Touches page_size end offset (touch_loop page_size end fuel offset)
unfolding touch_loop
touch_loop-Touches page_size end zero offset some_size fits aligned inside enough =
    absurd (omega (arith, inside, enough))
touch_loop-Touches page_size end (suc fuel) offset some_size fits aligned inside enough =
    let going : leb end offset ≡ false = ground (arith, inside) in
    elim (Bool-cases (leb (end - offset) page_size)) [
      | inl last ↦
          let near : end ≤ offset + page_size = ground (arith, last) in
          rw (going, last)
            record {
              offsets = offset ∷ [];
              ended = refl;
              within = (((omega arith), inside), tt);
              covers = λ x low high.
                  inl (
                    same_page page_size offset x some_size low
                      (omega (arith, aligned, near, high)));
            }
      | inr more ↦
          let far : offset + page_size < end = ground (arith, more, inside) in
          let sum : add64 offset page_size ≡ offset + page_size = ground (arith, far, fits) in
          let rest =
            touch_loop-Touches page_size end fuel (offset + page_size) some_size fits
              (add-mod_right offset page_size ∙ aligned) far (omega (arith, enough, some_size)) in
          rw (going, more, sum, rest.ended)
            record {
              offsets = offset ∷ rest.offsets;
              ended = refl;
              within = (
                ((omega arith), inside),
                weaken offset (offset + page_size) end rest.offsets (omega arith) rest.within,
              );
              covers = λ x low high. elim (Bool-cases (ltb x (offset + page_size))) [
                | inl here ↦
                    let near : x < offset + page_size = ground (arith, here) in
                    inl (same_page page_size offset x some_size low (omega (arith, aligned, near)))
                | inr there ↦ inr (rest.covers x (ground (arith, there)) high)
              ];
            }
    ]

advance_lem :
    (page_size begin : ℕ) → 0 < page_size → advance page_size begin + begin % page_size ≡ page_size
unfolding advance
advance_lem page_size begin some_size =
    let small : begin % page_size < page_size = mod-lt begin some_size in
    elim (Bool-cases (begin % page_size == 0)) [
      | inl aligned ↦ rw aligned (ground (arith, aligned))
      | inr inside ↦ rw inside (omega (arith, small))
    ]

-- The next page begins there.
advance-aligned :
    (page_size begin : ℕ) → 0 < page_size → (begin + advance page_size begin) % page_size ≡ 0
advance-aligned page_size begin some_size =
    let step = advance_lem page_size begin some_size in
    let whole = div-add-mod' begin page_size in
    let q = begin / page_size in
    let next : (q + 1) * page_size ≡ q * page_size + page_size =
      (let e : q + 1 ≡ suc q = omega arith in ap (λ n. n * page_size) e) ∙ suc-mul q page_size in
    let sum : begin + advance page_size begin ≡ (q + 1) * page_size =
      omega (arith, step, whole, next) in
    ap (λ n. n % page_size) sum ∙ mul-mod_left (q + 1) page_size

within-snoc :
    (begin end : ℕ) (l : List ℕ) (last : ℕ)
    → All (λ o. (begin ≤ o) × (o < end)) l
    → begin ≤ last
    → last < end
    → All (λ o. (begin ≤ o) × (o < end)) (l ++ last ∷ [])
within-snoc begin end [] last h low high = ((low, high), tt)
within-snoc begin end (o ∷ l) last h low high = (h.0, within-snoc begin end l last h.1 low high)

-- TouchMappedPages ends, for a range that is not empty and pages of at least one byte; all bytes that it
-- reads lie in the range, and for every byte of the range it reads one on the same page.
pub touched_offsets-Touches :
    (page_size begin end : ℕ)
    → begin < end
    → 0 < page_size
    → end ≤ u64_max
    → Touches page_size end begin (touched_offsets page_size begin end)
unfolding touched_offsets
touched_offsets-Touches page_size begin end some_byte some_size fits =
    let starts : (leb end begin || page_size == 0) ≡ false = ground (arith, some_byte, some_size) in
    let step = advance_lem page_size begin some_size in
    let small = mod-lt begin some_size in
    elim (Bool-cases (ltb (advance page_size begin) (end - begin))) [
      | inr one_page ↦
          let near : end ≤ begin + advance page_size begin = ground (arith, one_page, some_byte) in
          rw (starts, one_page)
            record {
              offsets = begin ∷ (end - 1) ∷ [];
              ended = refl;
              within = (
                (omega arith, some_byte),
                ((omega (arith, some_byte), omega (arith, some_byte)), tt),
              );
              covers = λ x low high.
                  inl (same_page page_size begin x some_size low (omega (arith, high, near, step)));
            }
      | inl more ↦
          let inside : begin + advance page_size begin < end = ground (arith, more) in
          let sum : add64 begin (advance page_size begin) ≡ begin + advance page_size begin =
            ground (arith, inside, fits) in
          let rest =
            touch_loop-Touches page_size end (end - begin) (begin + advance page_size begin)
              some_size fits (advance-aligned page_size begin some_size) inside
              (omega (arith, step, small, some_byte)) in
          rw (starts, more, sum, rest.ended)
            record {
              offsets = begin ∷ (rest.offsets ++ (end - 1) ∷ []);
              ended = refl;
              within = (
                (omega arith, some_byte),
                within-snoc begin end rest.offsets (end - 1)
                    (weaken begin (begin + advance page_size begin) end rest.offsets (omega arith)
                      rest.within)
                    (omega (arith, some_byte)) (omega (arith, some_byte)),
              );
              covers = λ x low high. elim (Bool-cases (ltb x (begin + advance page_size begin))) [
                | inl here ↦
                    let near : x < begin + advance page_size begin = ground (arith, here) in
                    inl (same_page page_size begin x some_size low (omega (arith, near, step)))
                | inr there ↦ inr (
                    Covered-snoc page_size rest.offsets (end - 1) x
                      (rest.covers x (ground (arith, there)) high))
              ];
            }
    ]

-- A page of which a byte can be read.
abbrev pub Resident : (ℕ → Bool) → ℕ → ℕ → Type 0
Resident readable page_size x = (o : ℕ) × (readable o ≡ true) × (o / page_size ≡ x / page_size)

Covered-Resident :
    (readable : ℕ → Bool) (page_size : ℕ) (l : List ℕ) (x : ℕ)
    → all_readable readable l ≡ true
    → Covered page_size l x
    → Resident readable page_size x
Covered-Resident readable page_size [] x h c = absurd c
Covered-Resident readable page_size (o ∷ l) x h (inl here) = (o, ground arith, here)
Covered-Resident readable page_size (o ∷ l) x h (inr there) =
    Covered-Resident readable page_size l x (ground arith) there

-- It has an answer, and a positive one only if every page of the range could be read.
pub touch_mapped_pages-Resident :
    (readable : ℕ → Bool) (begin end page_size : ℕ)
    → begin < end
    → 0 < page_size
    → end ≤ u64_max
    → (answer : Bool) × (touch_mapped_pages readable begin end page_size ≡ some answer)
      × (answer ≡ true → (x : ℕ) → begin ≤ x → x < end → Resident readable page_size x)
unfolding touch_mapped_pages
touch_mapped_pages-Resident readable begin end page_size some_byte some_size fits =
    let t = touched_offsets-Touches page_size begin end some_byte some_size fits in
    rw (t.ended) (
      all_readable readable t.offsets,
      refl,
      λ good x low high. Covered-Resident readable page_size t.offsets x good (t.covers x low high),
    )
