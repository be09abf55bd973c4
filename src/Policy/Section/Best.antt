-- ===== src/Policy/Section/Best.antt =====
-- The loop over the section headers keeps the first of the largest candidates.
use faster_file_copy.Prelude.{
  ℕ, ◌≤◌, ◌<◌, ◌≡◌, ◌⊎◌, inl, inr, refl, ◌∙◌, sym, ap, true, false, ltb, u64_max, arith, List, [],
  ◌∷◌, ◌++◌, All, Bool-cases, subst,
}
use mathlib.Core.List.{append_assoc, append-nil}
use faster_file_copy.Policy.Section.{
  AddressRange, no_range, is_set, Section, consider, select, Candidate, range_of, consider_exact,
}

All-snoc {ℓ κ} :
    {A : Type ℓ} (P : A → Type κ) (xs : List A) {x : A} → All P xs → P x → All P (xs ++ x ∷ [])
All-snoc P [] h p = (p, tt)
All-snoc P (y ∷ xs) h p = (h.0, All-snoc P xs h.1 p)

All-mono {ℓ κ} :
    {A : Type ℓ} (P Q : A → Type κ) → ((a : A) → P a → Q a) → (xs : List A) → All P xs → All Q xs
All-mono P Q f [] h = tt
All-mono P Q f (x ∷ xs) h = (f x h.0, All-mono P Q f xs h.1)

All-join {ℓ κ} :
    {A : Type ℓ} (P : A → Type κ) (xs ys : List A) → All P xs → All P ys → All P (xs ++ ys)
All-join P [] ys h k = k
All-join P (x ∷ xs) ys h k = (h.0, All-join P xs ys h.1 k)

module _ (image_base : ℕ) (expected : List ℕ) (required : ℕ) where
  abbrev Fits : Section → Type 0
  Fits = Candidate image_base expected required

  abbrev Smaller : Section → Section → Type 0
  Smaller s t = (¬ Fits t) ⊎ (t.virtual_size < s.virtual_size)

  abbrev NoLarger : Section → Section → Type 0
  NoLarger s t = (¬ Fits t) ⊎ (t.virtual_size ≤ s.virtual_size)

  -- The section at which a list is cut in two is its first largest candidate.
  pub record FirstLargest (sections : List Section) (r : AddressRange) : Type 0 where
    pub before : List Section
    pub best : Section
    pub after : List Section
    pub split : sections ≡ before ++ best ∷ after
    pub fits : Candidate image_base expected required best
    pub range : r ≡ range_of image_base expected required best
    pub earlier_smaller :
        All
          (λ t. (¬ Candidate image_base expected required t) ⊎ (t.virtual_size < best.virtual_size))
          before
    pub later_no_larger :
        All
          (λ t. (¬ Candidate image_base expected required t) ⊎ (t.virtual_size ≤ best.virtual_size))
          after

  pub record NoneFits (sections : List Section) (r : AddressRange) : Type 0 where
    pub unset : r ≡ no_range
    pub all_unfit : All (λ t. ¬ Candidate image_base expected required t) sections

  abbrev Outcome : List Section → AddressRange → Type 0
  Outcome sections r = NoneFits sections r ⊎ FirstLargest sections r

  data Considered (r : AddressRange) (s : Section) (r' : AddressRange) : Type 0 where
    unfit : ¬ Fits s → r' ≡ r → Considered r s r'
    larger :
        Fits s
        → (is_set r ≡ false) ⊎ (r.virtual_size < s.virtual_size)
        → r' ≡ range_of image_base expected required s
        → Considered r s r'
    kept : Fits s → is_set r ≡ true → s.virtual_size ≤ r.virtual_size → r' ≡ r → Considered r s r'

  consider_cases :
      (r : AddressRange) (s : Section)
      → image_base ≤ u64_max
      → Considered r s (consider image_base expected required r s).0
  consider_cases r s h = elim (Bool-cases (consider image_base expected required r s).1) [
    | inr no' ↦
        unfit (λ c. cc (no', (consider_exact image_base expected required r s h).1 c))
          (unfold consider in ground arith)
    | inl ok ↦
        let c = (consider_exact image_base expected required r s h).0 ok in
        elim (Bool-cases (is_set r)) [
          | inr unset ↦ larger c (inl unset) (unfold consider in ground arith)
          | inl set' ↦ elim (Bool-cases (ltb r.virtual_size s.virtual_size)) [
            | inl lt ↦ larger c (inr (ground arith)) (unfold consider in ground arith)
            | inr ge ↦ kept c set' (ground arith) (unfold consider in ground arith)
          ]
        ]
  ]

  range-is_set : (s : Section) → Fits s → is_set (range_of image_base expected required s) ≡ true
  unfolding is_set
  range-is_set s c = let n = c.nonempty in ground arith

  shrink :
      (t s : Section) (n : ℕ) → n < s.virtual_size → (¬ Fits t) ⊎ (t.virtual_size < n) → Smaller s t
  shrink t s n h (inl u) = inl u
  shrink t s n h (inr lt) = inr (omega arith)

  shrink_le :
      (t s : Section) (n : ℕ) → n < s.virtual_size → (¬ Fits t) ⊎ (t.virtual_size ≤ n) → Smaller s t
  shrink_le t s n h (inl u) = inl u
  shrink_le t s n h (inr le) = inr (omega arith)

  -- One more section.
  Outcome-snoc :
      (done : List Section) (r r' : AddressRange) (s : Section)
      → Considered r s r'
      → Outcome done r
      → Outcome (done ++ s ∷ []) r'
  Outcome-snoc done r r' s (unfit u e) (inl z) =
      inl (record { unset = e ∙ z.unset; all_unfit = All-snoc _ done z.all_unfit u })
  Outcome-snoc done r r' s (unfit u e) (inr b) = inr (record {
    before = b.before;
    best = b.best;
    after = b.after ++ s ∷ [];
    split = ap (λ t. t ++ s ∷ []) b.split ∙ append_assoc b.before (b.best ∷ b.after) (s ∷ []);
    fits = b.fits;
    range = e ∙ b.range;
    earlier_smaller = b.earlier_smaller;
    later_no_larger = All-snoc _ b.after b.later_no_larger (inl u);
  })
  Outcome-snoc done r r' s (larger c g e) (inl z) = inr (record {
    before = done;
    best = s;
    after = [];
    split = refl;
    fits = c;
    range = e;
    earlier_smaller = All-mono _ _ (λ t u. inl u) done z.all_unfit;
    later_no_larger = tt;
  })
  Outcome-snoc done r r' s (larger c g e) (inr b) =
      let bigger : b.best.virtual_size < s.virtual_size = elim g [
        | inl unset ↦ absurd (cc (unset, ap is_set b.range, range-is_set b.best b.fits))
        | inr lt ↦ omega (arith, ap (λ (t : AddressRange). t.virtual_size) b.range)
      ] in
      inr (record {
        before = done;
        best = s;
        after = [];
        split = refl;
        fits = c;
        range = e;
        earlier_smaller = subst (All (Smaller s)) (sym b.split) (
            All-join (Smaller s) b.before (b.best ∷ b.after)
              (All-mono _ _ (λ t h. shrink t s b.best.virtual_size bigger h) b.before
                b.earlier_smaller)
              (
                inr bigger,
                All-mono _ _ (λ t h. shrink_le t s b.best.virtual_size bigger h) b.after
                    b.later_no_larger,
              ));
        later_no_larger = tt;
      })
  Outcome-snoc done r r' s (kept c set' g e) (inl z) =
      absurd (unfold is_set in cc (ap is_set z.unset, set'))
  Outcome-snoc done r r' s (kept c set' g e) (inr b) = inr (record {
    before = b.before;
    best = b.best;
    after = b.after ++ s ∷ [];
    split = ap (λ t. t ++ s ∷ []) b.split ∙ append_assoc b.before (b.best ∷ b.after) (s ∷ []);
    fits = b.fits;
    range = e ∙ b.range;
    earlier_smaller = b.earlier_smaller;
    later_no_larger =
        All-snoc _ b.after b.later_no_larger
          (inr (omega (arith, ap (λ (t : AddressRange). t.virtual_size) b.range)));
  })

  select-Outcome :
      (done sections : List Section) (r : AddressRange)
      → image_base ≤ u64_max
      → Outcome done r
      → Outcome (done ++ sections) (select image_base expected required r sections)
  unfolding select
  select-Outcome done [] r h o = rw (append-nil done) o
  select-Outcome done (s ∷ sections) r h o =
      subst
        (λ l. Outcome l (
          select image_base expected required (consider image_base expected required r s).0
            sections))
        (append_assoc done (s ∷ []) sections)
        (select-Outcome (done ++ s ∷ []) sections (consider image_base expected required r s).0 h
          (Outcome-snoc done r _ s (consider_cases r s h) o))

  -- Over a list of section headers the loop ends with no range if there is no candidate, and
  -- otherwise with the range of the first of the largest candidates; no address wraps.
  pub select_best :
      (sections : List Section)
      → image_base ≤ u64_max
      → NoneFits sections (select image_base expected required no_range sections)
        ⊎ FirstLargest sections (select image_base expected required no_range sections)
  select_best sections h =
      select-Outcome [] sections no_range h (inl (record { unset = refl; all_unfit = tt }))
