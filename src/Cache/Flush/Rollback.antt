-- ===== src/Cache/Flush/Rollback.antt =====
-- FlushToDisk in Skyrim/src/DecompCache.cpp: a flush of which every append fails, as on a full disk.
use faster_file_copy.Prelude.{
  ℕ, ◌≡◌, inl, inr, refl, sym, ap, ◌∙◌, true, Option, none, some, List, [], ◌∷◌, ◌++◌, ◌==◌,
  if◌then◌else◌, All, arith, Bool-cases, Option-cases,
}
use faster_file_copy.Cache.State.{PendingEntry, ArchiveCache, DecompCache, find, replace}
use faster_file_copy.Cache.Flush.{
  OlWork, take_pending, take_work, snapshot, plan_work, requeue, give_back, finish_found, finish,
}
use faster_file_copy.Cache.Flush.Books.{find-replace}
use faster_file_copy.Cache.Flush.Snapshot.{plan_work-Empty}

-- The loop over the work when AppendFile has no result for any of it.
abbrev pub fail_all : List OlWork → DecompCache → DecompCache
fail_all [] s = s
fail_all (w ∷ ws) s = fail_all ws (finish true w none s)

-- What the work holds of an archive.
abbrev held_of : List OlWork → ℕ → List PendingEntry
held_of [] archive = []
held_of (w ∷ ws) archive = (if w.archive == archive then w.pending else []) ++ held_of ws archive

abbrev add_queue : Option ArchiveCache → List PendingEntry → Option ArchiveCache
add_queue none l = none
add_queue (some c) l = some (record c { pending = c.pending ++ l })

append-nil : (l : List PendingEntry) → l ++ [] ≡ l
append-nil [] = refl
append-nil (e ∷ l) = ap (λ m. e ∷ m) (append-nil l)

append_assoc : (l m n : List PendingEntry) → (l ++ m) ++ n ≡ l ++ (m ++ n)
append_assoc [] m n = refl
append_assoc (e ∷ l) m n = ap (λ r. e ∷ r) (append_assoc l m n)

add_queue-append :
    (o : Option ArchiveCache) (l m : List PendingEntry)
    → add_queue (add_queue o l) m ≡ add_queue o (l ++ m)
add_queue-append none l m = refl
add_queue-append (some c) l m = rw (append_assoc c.pending l m) refl

add_queue-nil : (o : Option ArchiveCache) → add_queue o [] ≡ o
add_queue-nil none = refl
add_queue-nil (some c) = rw (append-nil c.pending) refl

finish-queue :
    (w : OlWork) (s : DecompCache) (a : ℕ)
    → find (finish true w none s).caches a
      ≡ add_queue (find s.caches a) (if w.archive == a then w.pending else [])
unfolding finish finish_found give_back requeue
finish-queue w s a = elim (Option-cases (find s.caches w.archive)) [
  | inl gone ↦
      rw (finish, gone)
        (elim (Bool-cases (w.archive == a)) [
          | inl same ↦
              let e : w.archive ≡ a = ground arith in let absent = rw e at gone in rw absent refl
          | inr other ↦ rw other (sym (add_queue-nil (find s.caches a)))
        ])
  | inr (c, cached) ↦
      rw
        (
          finish,
          cached,
          find-replace s.caches w.archive c (record c { pending = c.pending ++ w.pending }) a
              cached,
        )
        (elim (Bool-cases (w.archive == a)) [
          | inl same ↦
              let e : w.archive ≡ a = ground arith in
              let present = rw e at cached in rw (same, present) refl
          | inr other ↦ rw other (sym (add_queue-nil (find s.caches a)))
        ])
]

fail_all-queue :
    (ws : List OlWork) (s : DecompCache) (a : ℕ)
    → find (fail_all ws s).caches a ≡ add_queue (find s.caches a) (held_of ws a)
fail_all-queue [] s a = sym (add_queue-nil (find s.caches a))
fail_all-queue (w ∷ ws) s a =
    fail_all-queue ws (finish true w none s) a
    ∙ ap (λ o. add_queue o (held_of ws a)) (finish-queue w s a)
    ∙ add_queue-append (find s.caches a) _ (held_of ws a)

empty_parts : (l m : List PendingEntry) → l ++ m ≡ [] → (l ≡ []) × (m ≡ [])
empty_parts [] m h = (refl, h)
empty_parts (e ∷ l) m h = absurd (cc)

-- A queue that was emptied gets back what it held.
refill :
    (o : Option ArchiveCache) (l : List PendingEntry) (c : ArchiveCache)
    → add_queue o l ≡ some (record c { pending = [] })
    → add_queue o (c.pending ++ l) ≡ some c
refill none l c h = absurd (cc)
refill (some x) l c h =
    let same : record x { pending = x.pending ++ l } ≡ record c { pending = [] } = cc in
    let parts = empty_parts x.pending l (ap (λ (y : ArchiveCache). y.pending) same) in
    rw (parts.0, parts.1, append-nil c.pending)
      (ap (λ (y : ArchiveCache). some (record y { pending = c.pending })) same)

take_work-queue :
    (work : List OlWork) (s : DecompCache) (a : ℕ)
    → All (λ (w : OlWork). w.pending ≡ []) work
    → add_queue (find (take_work work s).1.caches a) (held_of (take_work work s).0 a)
      ≡ find s.caches a
unfolding take_work take_pending
take_work-queue [] s a empty = add_queue-nil (find s.caches a)
take_work-queue (w ∷ work) s a empty = elim (Option-cases (find s.caches w.archive)) [
  | inl gone ↦
      rw (gone, empty.0)
        (elim (Bool-cases (w.archive == a)) [
          | inl same ↦ rw same (take_work-queue work s a empty.1)
          | inr other ↦ rw other (take_work-queue work s a empty.1)
        ])
  | inr (c, cached) ↦
      rw (cached, empty.0)
        (let next = record s { caches = replace s.caches w.archive (record c { pending = [] }) } in
          let rest = take_work-queue work next a empty.1 in
          let at = find-replace s.caches w.archive c (record c { pending = [] }) a cached in
          elim (Bool-cases (w.archive == a)) [
            | inl same ↦
                let e : w.archive ≡ a = ground arith in
                let here = rw same at at in
                let present = rw e at cached in rw same (refill _ _ c (rest ∙ here) ∙ sym present)
            | inr other ↦ rw other (rest ∙ rw other at at)
          ])
]

-- The rest of the state is as it was.
abbrev OnlyCaches : DecompCache → DecompCache → Type 0
OnlyCaches s t = t ≡ record s { caches = t.caches }

OnlyCaches-trans : (s t u : DecompCache) → OnlyCaches s t → OnlyCaches t u → OnlyCaches s u
OnlyCaches-trans s t u h k = k ∙ ap (λ (v : DecompCache). record v { caches = u.caches }) h

take_work-OnlyCaches : (work : List OlWork) (s : DecompCache) → OnlyCaches s (take_work work s).1
unfolding take_work take_pending
take_work-OnlyCaches [] s = refl
take_work-OnlyCaches (w ∷ work) s = elim (Option-cases (find s.caches w.archive)) [
  | inl gone ↦ rw gone (take_work-OnlyCaches work s)
  | inr (c, cached) ↦
      let next = record s { caches = replace s.caches w.archive (record c { pending = [] }) } in
      rw cached
        (OnlyCaches-trans s next (take_work work next).1 refl (take_work-OnlyCaches work next))
]

finish-OnlyCaches : (w : OlWork) (s : DecompCache) → OnlyCaches s (finish true w none s)
unfolding finish finish_found give_back requeue
finish-OnlyCaches w s = elim (Option-cases (find s.caches w.archive)) [
  | inl gone ↦ rw (finish, gone) refl
  | inr (c, cached) ↦ rw (finish, cached) refl
]

fail_all-OnlyCaches : (ws : List OlWork) (s : DecompCache) → OnlyCaches s (fail_all ws s)
fail_all-OnlyCaches [] s = refl
fail_all-OnlyCaches (w ∷ ws) s =
    let next = finish true w none s in
    OnlyCaches-trans s next (fail_all ws next) (finish-OnlyCaches w s) (fail_all-OnlyCaches ws next)

-- Taking every archive's queue into a list of work, and then giving back each item of the list as the
-- work of an append that has no result, while memory lasts, leaves every archive's cache as it was, its
-- queue in its order included, and the rest of the state unchanged. What FlushToDisk does before it takes
-- the queues and after the last item is not part of this.
pub failed_flush_restores :
    (path_for : ℕ → ℕ) (s : DecompCache)
    → let (work, left) = snapshot path_for s in
      let t = fail_all work left in
      ((archive : ℕ) → find t.caches archive ≡ find s.caches archive)
      × (t ≡ record s { caches = t.caches })
unfolding snapshot
failed_flush_restores path_for s =
    let work = plan_work path_for s.caches in
    let r = take_work work s in
    (
      λ a. fail_all-queue r.0 r.1 a ∙ take_work-queue work s a (plan_work-Empty path_for s.caches),
      OnlyCaches-trans s r.1 (fail_all r.0 r.1) (take_work-OnlyCaches work s)
          (fail_all-OnlyCaches r.0 r.1),
    )
