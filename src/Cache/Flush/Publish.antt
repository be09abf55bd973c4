-- ===== src/Cache/Flush/Publish.antt =====
-- FlushToDisk in Skyrim/src/DecompCache.cpp: which results of an append count.
use faster_file_copy.Prelude.{
  ℕ, ◌<◌, ◌≡◌, ◌⊎◌, inl, inr, refl, sym, ap, ◌∙◌, Bool, true, false, Option, none, some, List, [],
  ◌∷◌, ◌++◌, ◌==◌, arith, Bool-cases,
}
use faster_file_copy.Cache.State.{PendingEntry, ArchiveCache, DecompCache, find, replace, contains}
use faster_file_copy.Cache.Flush.{
  OlWork, OlResult, same_option, erase, erase_all, overhead, transfer_overhead, release, is_stale,
  install, requeue, give_back, finish_found, finish,
}
use faster_file_copy.Cache.Flush.Books.{occurrences, find-replace, contains-erase}

-- The file that an append was built on is still the current one, or it wrote a file of its own.
abbrev pub Current : OlWork → ArchiveCache → Type 0
Current item c =
    (item.reset_file ≡ true) ⊎ ((c.view ≡ item.source_view) × (c.disk_invalidated ≡ false))

-- What became of the cache `c` of the work's archive.
pub data Finished (item : OlWork) (result : Option OlResult) (c d : ArchiveCache) : Type 0 where
  -- No queued payload of the work is marked as buffered any more.
  published :
      (r : OlResult)
      → result ≡ some r
      → Current item c
      → d.view ≡ some r.view
      → d.index ≡ r.index
      → d.disk_invalidated ≡ false
      → d.pending ≡ c.pending
      → ((k : ℕ) → 0 < occurrences k item.pending → contains d.buffered_offsets k ≡ false)
      → Finished item result c d
  returned :
      d.view ≡ c.view
      → d.index ≡ c.index
      → d.disk_invalidated ≡ c.disk_invalidated
      → (result ≡ none) ⊎ (is_stale item c ≡ true)
      → Finished item result c d

same_option-eq : (a b : Option ℕ) → same_option a b ≡ true → a ≡ b
same_option-eq none none h = refl
same_option-eq none (some y) h = absurd (cc)
same_option-eq (some x) none h = absurd (cc)
same_option-eq (some x) (some y) h = (let e : x ≡ y = ground arith in ap some e)

contains-erase_all_gone :
    (es : List PendingEntry) (l : List ℕ) (k : ℕ)
    → contains l k ≡ false
    → contains (erase_all l es) k ≡ false
unfolding erase_all
contains-erase_all_gone [] l k h = h
contains-erase_all_gone (e ∷ es) l k h =
    contains-erase_all_gone es (erase l e.start_offset) k
      (contains-erase l e.start_offset k ∙ rw h (ground arith))

erase_all-erases :
    (es : List PendingEntry) (l : List ℕ) (k : ℕ)
    → 0 < occurrences k es
    → contains (erase_all l es) k ≡ false
unfolding erase_all
erase_all-erases [] l k h = absurd (omega (arith, h))
erase_all-erases (e ∷ es) l k h = elim (Bool-cases (e.start_offset == k)) [
  | inl same ↦
      contains-erase_all_gone es (erase l e.start_offset) k
        (contains-erase l e.start_offset k ∙ rw same refl)
  | inr other ↦
      erase_all-erases es (erase l e.start_offset) k (let j = rw other at h in omega (arith, j))
]

not_stale-Current : (item : OlWork) (c : ArchiveCache) → is_stale item c ≡ false → Current item c
unfolding is_stale
not_stale-Current item c h = elim (Bool-cases item.reset_file) [
  | inl own ↦ inl own
  | inr appended ↦ elim (Bool-cases (same_option c.view item.source_view)) [
    | inl same ↦ inr (same_option-eq c.view item.source_view same, ground arith)
    | inr other ↦ absurd (ground arith)
  ]
]

-- The cache of the work's archive after a step that replaces it.
replaced :
    (s : DecompCache) (archive : ℕ) (c d x : ArchiveCache)
    → find s.caches archive ≡ some c
    → find (replace s.caches archive d) archive ≡ some x
    → d ≡ x
replaced s archive c d x cached h =
    let at = find-replace s.caches archive c d archive cached in
    let itself : (archive == archive) ≡ true = ground arith in
    let j = rw itself at at in (let e = sym j ∙ h in cc e)

module _ (item : OlWork) (s : DecompCache) (c x : ArchiveCache)
    (cached : find s.caches item.archive ≡ some c) where
  install-Finished :
      (r : OlResult)
      → is_stale item c ≡ false
      → find (install item c r s).caches item.archive ≡ some x
      → Finished item (some r) c x
  unfolding install
  install-Finished r current h =
      let d = record c {
        view = some r.view;
        index = r.index;
        active_path = some item.base_path;
        on_disk_bytes = r.file_size;
        disk_invalidated = false;
        needs_replacement = false;
        buffered_offsets = erase_all c.buffered_offsets item.pending;
      } in
      rw (← replaced s item.archive c d x cached h) (
        published r refl (not_stale-Current item c current) refl refl refl refl
          (λ k queued. erase_all-erases item.pending c.buffered_offsets k queued))

  abbrev Same : ArchiveCache → Type 0
  Same d = (d.view ≡ c.view) × (d.index ≡ c.index) × (d.disk_invalidated ≡ c.disk_invalidated)

  release-Same :
      (o : Option (List PendingEntry))
      → find (release item c o s).caches item.archive ≡ some x
      → Same x
  unfolding release
  release-Same none h =
      let d = record c { buffered_offsets = erase_all c.buffered_offsets item.pending } in
      rw (← replaced s item.archive c d x cached h) (refl, refl, refl)
  release-Same (some pending) h =
      let d = record c {
        pending = pending;
        buffered_offsets = erase_all c.buffered_offsets item.pending;
      } in
      rw (← replaced s item.archive c d x cached h) (refl, refl, refl)

  give_back-Same :
      (memory : Bool) → find (give_back memory item c s).caches item.archive ≡ some x → Same x
  unfolding give_back requeue
  give_back-Same true h =
      rw (← replaced s item.archive c (record c { pending = c.pending ++ item.pending }) x cached h)
        (refl, refl, refl)
  give_back-Same false h = release-Same (transfer_overhead c c.pending (overhead item.pending)) h

  finish_found-Finished :
      (memory : Bool) (result : Option OlResult)
      → find (finish_found memory item c result s).caches item.archive ≡ some x
      → Finished item result c x
  unfolding finish_found
  finish_found-Finished memory none h =
      let same = give_back-Same memory h in returned same.0 same.1 same.2 (inl refl)
  finish_found-Finished memory (some r) h = elim (Bool-cases (is_stale item c)) [
    | inl stale ↦
        let same = give_back-Same memory (rw stale at h) in
        returned same.0 same.1 same.2 (inr stale)
    | inr current ↦ install-Finished r current (rw current at h)
  ]

-- When the append of an archive's work ends, its result is published only if the append wrote a file of
-- its own, or the mapping that it extended is still the cache's view and has not been invalidated; then
-- the cache has the new view and index, and no payload of the work counts as buffered. Otherwise view,
-- index and invalidation stay as they were.
pub finish-Finished :
    (memory : Bool) (item : OlWork) (result : Option OlResult) (s : DecompCache)
    (c x : ArchiveCache)
    → find s.caches item.archive ≡ some c
    → find (finish memory item result s).caches item.archive ≡ some x
    → Finished item result c x
unfolding finish
finish-Finished memory item result s c x cached h =
    finish_found-Finished item s c x cached memory result (rw (finish, cached) at h)
