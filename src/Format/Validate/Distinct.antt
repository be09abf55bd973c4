-- ===== src/Format/Validate/Distinct.antt =====
-- Sorting and then comparing neighbours finds a duplicate exactly when there is one.
use faster_file_copy.Prelude.{
  ℕ, ◌≤◌, ◌<◌, ◌≡◌, ◌≢◌, refl, ◌↔◌, false, List, [], ◌∷◌, All, leb, ◌==◌, arith, Bool-cases, inl,
  inr,
}
use faster_file_copy.Format.Validate.{insert_sorted, sort, has_adjacent}
use faster_file_copy.Format.Validate.Spec.{Distinct}

abbrev Absent : ℕ → List ℕ → Type 0
Absent x l = All (λ y. x ≢ y) l

abbrev Lower : ℕ → List ℕ → Type 0
Lower x l = All (λ y. x ≤ y) l

abbrev IsSorted : List ℕ → Type 0
IsSorted [] = Unit
IsSorted (x ∷ l) = Lower x l × IsSorted l

Lower-trans : (x y : ℕ) (l : List ℕ) → x ≤ y → Lower y l → Lower x l
Lower-trans x y [] h k = tt
Lower-trans x y (z ∷ l) h k = (omega arith, Lower-trans x y l h k.1)

Lower-insert : (z x : ℕ) (l : List ℕ) → z ≤ x → Lower z l → Lower z (insert_sorted x l)
unfolding insert_sorted
Lower-insert z x [] h k = (h, tt)
Lower-insert z x (y ∷ l) h k = ground (arith, Lower-insert z x l)

insert-IsSorted : (x : ℕ) (l : List ℕ) → IsSorted l → IsSorted (insert_sorted x l)
unfolding insert_sorted
insert-IsSorted x [] s = (tt, tt)
insert-IsSorted x (y ∷ l) s =
    ground (arith, insert-IsSorted x l, Lower-insert y x l, Lower-trans x y l)

sort-IsSorted : (l : List ℕ) → IsSorted (sort l)
unfolding sort
sort-IsSorted [] = tt
sort-IsSorted (x ∷ l) = insert-IsSorted x (sort l) (sort-IsSorted l)

Absent-insert : (z x : ℕ) (l : List ℕ) → Absent z (insert_sorted x l) ↔ ((z ≢ x) × Absent z l)
unfolding insert_sorted
Absent-insert z x [] = ((λ h. h), (λ h. h))
Absent-insert z x (y ∷ l) = elim (Bool-cases (leb x y)) [
  | inl e ↦ rw e ((λ h. h), (λ h. h))
  | inr e ↦ rw e (
    (λ h. let r = (Absent-insert z x l).0 h.1 in (r.0, (h.0, r.1))),
    (λ h. (h.1.0, (Absent-insert z x l).1 (h.0, h.1.1))),
  )
]

Absent-sort : (z : ℕ) (l : List ℕ) → Absent z (sort l) ↔ Absent z l
unfolding sort
Absent-sort z [] = ((λ h. h), (λ h. h))
Absent-sort z (x ∷ l) = (
  (λ h. let r = (Absent-insert z x (sort l)).0 h in (r.0, (Absent-sort z l).0 r.1)),
  (λ h. (Absent-insert z x (sort l)).1 (h.0, (Absent-sort z l).1 h.1)),
)

Absent-above : (x y : ℕ) (l : List ℕ) → x < y → Lower y l → Absent x l
Absent-above x y [] h k = tt
Absent-above x y (z ∷ l) h k = ((λ e. omega arith), Absent-above x y l h k.1)

-- In a sorted list the first element is a duplicate only of its neighbour.
adjacent_head :
    (x : ℕ) (l : List ℕ)
    → Lower x l
    → IsSorted l
    → (has_adjacent (x ∷ l) ≡ false) ↔ (Absent x l × (has_adjacent l ≡ false))
unfolding has_adjacent
adjacent_head x [] h s = ((λ e. (tt, refl)), (λ e. refl))
adjacent_head x (y ∷ l) h s = elim (Bool-cases (x == y)) [
  | inl e ↦ rw e ((λ b. absurd (cc)), (λ b. absurd (b.0.0 (ground arith))))
  | inr e ↦ rw e (
    (λ b. (((λ t. absurd (ground arith)), Absent-above x y l (ground arith) s.0), b)),
    (λ b. b.1),
  )
]

Distinct-sorted : (l : List ℕ) → IsSorted l → (has_adjacent l ≡ false) ↔ Distinct l
unfolding has_adjacent
Distinct-sorted [] s = ((λ e. tt), (λ e. refl))
Distinct-sorted (x ∷ l) s = (
  (λ e. let r = (adjacent_head x l s.0 s.1).0 e in (r.0, (Distinct-sorted l s.1).0 r.1)),
  (λ d. (adjacent_head x l s.0 s.1).1 (d.0, (Distinct-sorted l s.1).1 d.1)),
)

Absent-sym : (x y : ℕ) → x ≢ y → y ≢ x
Absent-sym x y h e = h (omega arith)

Distinct-insert : (x : ℕ) (l : List ℕ) → Distinct (insert_sorted x l) ↔ (Absent x l × Distinct l)
unfolding insert_sorted
Distinct-insert x [] = ((λ h. h), (λ h. h))
Distinct-insert x (y ∷ l) = elim (Bool-cases (leb x y)) [
  | inl e ↦ rw e ((λ h. h), (λ h. h))
  | inr e ↦ rw e (
    (λ h.
        let a = (Absent-insert y x l).0 h.0 in
        let d = (Distinct-insert x l).0 h.1 in ((Absent-sym y x a.0, d.0), (a.1, d.1))),
    (λ h. (
      (Absent-insert y x l).1 (Absent-sym x y h.0.0, h.1.0),
      (Distinct-insert x l).1 (h.0.1, h.1.1),
    )),
  )
]

Distinct-sort : (l : List ℕ) → Distinct (sort l) ↔ Distinct l
unfolding sort
Distinct-sort [] = ((λ h. h), (λ h. h))
Distinct-sort (x ∷ l) = (
  (λ h.
      let d = (Distinct-insert x (sort l)).0 h in
      ((Absent-sort x l).0 d.0, (Distinct-sort l).0 d.1)),
  (λ h. (Distinct-insert x (sort l)).1 ((Absent-sort x l).1 h.0, (Distinct-sort l).1 h.1)),
)

pub has_adjacent-sort : (l : List ℕ) → (has_adjacent (sort l) ≡ false) ↔ Distinct l
has_adjacent-sort l = (
  (λ e. (Distinct-sort l).0 ((Distinct-sorted (sort l) (sort-IsSorted l)).0 e)),
  (λ d. (Distinct-sorted (sort l) (sort-IsSorted l)).1 ((Distinct-sort l).1 d)),
)
