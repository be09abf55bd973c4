-- ===== src/Cache/Evict/Order.antt =====
-- The order in which EnforceSizeLimit tries the candidates.
use faster_file_copy.Prelude.{
  ℕ, ◌≤◌, ◌<◌, ◌≡◌, not, ◌==◌, inl, inr, refl, Bool, true, false, List, [], ◌∷◌, All, arith,
  Bool-cases, ltb, if◌then◌else◌,
}
use mathlib.Core.List.{Perm}
use mathlib.Core.List.Perm
use faster_file_copy.Cache.Evict.{Candidate, goes_before, insert_candidate, sort_candidates}

-- A candidate that may be tried before another: one that the session has not used, whatever was used
-- and whatever unused one was not written before it, or one whose last use is not the later one.
pub data Earlier (c d : Candidate) : Type 0 where
  unused_first : c.last_access ≡ 0 → 0 < d.last_access → Earlier c d
  both_unused :
      c.last_access ≡ 0 → d.last_access ≡ 0 → c.file_last_write ≤ d.file_last_write → Earlier c d
  both_used : 0 < c.last_access → c.last_access ≤ d.last_access → Earlier c d

abbrev pub Ordered : List Candidate → Type 0
Ordered [] = Unit
Ordered (c ∷ l) = All (Earlier c) l × Ordered l

-- A candidate counts as used if it has a time of its last use.
abbrev pub Marked : Candidate → Type 0
Marked c = c.used_this_session ≡ not (c.last_access == 0)

-- No later candidate goes before an earlier one.
abbrev Unbeaten : List Candidate → Type 0
Unbeaten [] = Unit
Unbeaten (c ∷ l) = All (λ d. goes_before d c ≡ false) l × Unbeaten l

-- The order on the members that it reads.
abbrev before : Bool → ℕ → ℕ → Bool → ℕ → ℕ → Bool
before true x i true y j = ltb x y
before true x i false y j = false
before false x i true y j = true
before false x i false y j = ltb i j

before_asym :
    (u : Bool) (x i : ℕ) (v : Bool) (y j : ℕ)
    → before u x i v y j ≡ true
    → before v y j u x i ≡ false
before_asym true x i true y j h = ground arith
before_asym true x i false y j h = absurd (ground arith)
before_asym false x i true y j h = refl
before_asym false x i false y j h = ground arith

before_trans :
    (u : Bool) (x i : ℕ) (v : Bool) (y j : ℕ) (w : Bool) (z k : ℕ)
    → before u x i v y j ≡ false
    → before v y j w z k ≡ false
    → before u x i w z k ≡ false
before_trans true x i true y j true z k h g = ground arith
before_trans true x i v y j false z k h g = refl
before_trans true x i false y j true z k h g = absurd (ground arith)
before_trans false x i true y j w z k h g = absurd (ground arith)
before_trans false x i false y j true z k h g = absurd (ground arith)
before_trans false x i false y j false z k h g = ground arith

goes_before-before :
    (a b : Candidate)
    → goes_before a b
      ≡ before a.used_this_session a.last_access a.file_last_write b.used_this_session b.last_access
          b.file_last_write
unfolding goes_before
goes_before-before a b = by_use a.used_this_session b.used_this_session
  where
    by_use :
        (u v : Bool)
        → (if u
            then (if v then ltb a.last_access b.last_access else false)
            else (if v then true else ltb a.file_last_write b.file_last_write))
          ≡ before u a.last_access a.file_last_write v b.last_access b.file_last_write
    by_use true true = refl
    by_use true false = refl
    by_use false true = refl
    by_use false false = refl

asym : (a b : Candidate) → goes_before a b ≡ true → goes_before b a ≡ false
asym a b h = rw (goes_before-before b a) (
    before_asym a.used_this_session a.last_access a.file_last_write b.used_this_session
      b.last_access b.file_last_write (rw (goes_before-before a b) at h))

trans :
    (a b c : Candidate)
    → goes_before a b ≡ false
    → goes_before b c ≡ false
    → goes_before a c ≡ false
trans a b c h g = rw (goes_before-before a c) (
    before_trans a.used_this_session a.last_access a.file_last_write b.used_this_session
      b.last_access b.file_last_write c.used_this_session c.last_access c.file_last_write
      (rw (goes_before-before a b) at h) (rw (goes_before-before b c) at g))

All-later :
    (c d : Candidate) (l : List Candidate)
    → goes_before d c ≡ false
    → All (λ e. goes_before e d ≡ false) l
    → All (λ e. goes_before e c ≡ false) l
All-later c d [] h l = tt
All-later c d (e ∷ m) h l = (trans e d c l.0 h, All-later c d m h l.1)

pub All-insert :
    (P : Candidate → Type 0) (c : Candidate) (l : List Candidate)
    → P c
    → All P l
    → All P (insert_candidate c l)
unfolding insert_candidate
All-insert P c [] p ps = (p, tt)
All-insert P c (d ∷ l) p ps = elim (Bool-cases (goes_before d c)) [
  | inl later ↦ rw later (ps.0, All-insert P c l p ps.1)
  | inr here ↦ rw here (p, ps)
]

insert-Unbeaten :
    (c : Candidate) (l : List Candidate) → Unbeaten l → Unbeaten (insert_candidate c l)
unfolding insert_candidate
insert-Unbeaten c [] o = (tt, tt)
insert-Unbeaten c (d ∷ l) o = elim (Bool-cases (goes_before d c)) [
  | inl later ↦
      rw later (
        All-insert (λ e. goes_before e d ≡ false) c l (asym d c later) o.0,
        insert-Unbeaten c l o.1,
      )
  | inr here ↦ rw here ((here, All-later c d l here o.0), o)
]

sort-Unbeaten : (l : List Candidate) → Unbeaten (sort_candidates l)
unfolding sort_candidates
sort-Unbeaten [] = tt
sort-Unbeaten (c ∷ l) = insert-Unbeaten c (sort_candidates l) (sort-Unbeaten l)

Earlier-before :
    (u v : Bool) (c d : Candidate)
    → u ≡ not (c.last_access == 0)
    → v ≡ not (d.last_access == 0)
    → before v d.last_access d.file_last_write u c.last_access c.file_last_write ≡ false
    → Earlier c d
Earlier-before true true c d mc md h = both_used (ground (arith, mc)) (ground (arith, h))
Earlier-before true false c d mc md h = absurd (cc)
Earlier-before false true c d mc md h = unused_first (ground (arith, mc)) (ground (arith, md))
Earlier-before false false c d mc md h =
    both_unused (ground (arith, mc)) (ground (arith, md)) (ground (arith, h))

All-Earlier :
    (c : Candidate) (l : List Candidate)
    → Marked c
    → All Marked l
    → All (λ d. goes_before d c ≡ false) l
    → All (Earlier c) l
All-Earlier c [] m ms h = tt
All-Earlier c (d ∷ l) m ms h = (
  Earlier-before c.used_this_session d.used_this_session c d m ms.0
      (rw (goes_before-before d c) at h.0),
  All-Earlier c l m ms.1 h.1,
)

Unbeaten-Ordered : (l : List Candidate) → All Marked l → Unbeaten l → Ordered l
Unbeaten-Ordered [] ms h = tt
Unbeaten-Ordered (c ∷ l) ms h = (All-Earlier c l ms.0 ms.1 h.0, Unbeaten-Ordered l ms.1 h.1)

pub All-sort : (P : Candidate → Type 0) (l : List Candidate) → All P l → All P (sort_candidates l)
unfolding sort_candidates
All-sort P [] ps = tt
All-sort P (c ∷ l) ps = All-insert P c (sort_candidates l) ps.0 (All-sort P l ps.1)

pub sort-Ordered : (l : List Candidate) → All Marked l → Ordered (sort_candidates l)
sort-Ordered l ms = Unbeaten-Ordered (sort_candidates l) (All-sort Marked l ms) (sort-Unbeaten l)

insert-perm : (c : Candidate) (l : List Candidate) → Perm (insert_candidate c l) (c ∷ l)
unfolding insert_candidate
insert-perm c [] = Perm.refl (c ∷ [])
insert-perm c (d ∷ l) = elim (Bool-cases (goes_before d c)) [
  | inl later ↦ rw later (Perm.trans (Perm.cons d (insert-perm c l)) (Perm.swap c d l))
  | inr here ↦ rw here (Perm.refl (c ∷ d ∷ l))
]

pub sort-perm : (l : List Candidate) → Perm (sort_candidates l) l
unfolding sort_candidates
sort-perm [] = Perm.refl []
sort-perm (c ∷ l) = Perm.trans (insert-perm c (sort_candidates l)) (Perm.cons c (sort-perm l))
