-- ===== src/Cache/Lookup/Marks.antt =====
-- Lookups keep the marks of verified entries sound.
use faster_file_copy.Prelude.{
  ℕ, ◌≡◌, inl, inr, refl, Bool, true, false, ◌||◌, Option, none, some, List, ltb, Bool-cases,
}
use faster_file_copy.Cache.State.{CachedEntry, ArchiveCache, DecompCache, Settings, find}
use faster_file_copy.Cache.Lookup.{
  VerificationResult, invalidate, make_result, cold, lookup_address, lookup_entry, lookup_view,
  lookup_archive, lookup,
}
use faster_file_copy.Cache.Lookup.Intact.{
  find-All, replace-All, Marked, CacheMarked, Sound, verify_entry-Marked,
}

pub invalidate-kept :
    (cfg : Settings) (already : Bool) (s : DecompCache)
    → ((invalidate cfg already s).caches ≡ s.caches) × ((invalidate cfg already s).views ≡ s.views)
unfolding invalidate
invalidate-kept cfg true s = (refl, refl)
invalidate-kept cfg false s = elim (Bool-cases cfg.prefault_decomp_cache) [
  | inl on ↦ rw on (refl, refl)
  | inr off ↦ rw off (refl, refl)
]

module _ (cfg : Settings) (read : ℕ → ℕ → Option (List ℕ)) (now archive start : ℕ) where
  make_result-Sound :
      (s : DecompCache) (c : ArchiveCache) (v address : ℕ) (e : CachedEntry)
      (p : VerificationResult × CachedEntry)
      → Sound read s
      → CacheMarked read c
      → Marked read p.1
      → Sound read (make_result cfg read now archive start s c v address e p).1
  unfolding make_result
  make_result-Sound s c v address e (r, verified) sound marked m =
      let index = replace-All (Marked read) c.index start verified marked m in
      elim (Bool-cases r.valid) [
        | inl good ↦ rw good (replace-All (CacheMarked read) s.caches archive _ sound index)
        | inr bad ↦
            rw (bad, (invalidate-kept cfg c.disk_invalidated _).0)
              (replace-All (CacheMarked read) s.caches archive _ sound index)
      ]

  lookup_address-Sound :
      (s : DecompCache) (c : ArchiveCache) (v : ℕ) (e : CachedEntry) (d : Option ℕ)
      → Sound read s
      → CacheMarked read c
      → Marked read e
      → Sound read (lookup_address cfg read now archive start s c v e d).1
  unfolding lookup_address
  lookup_address-Sound s c v e none sound marked m = sound
  lookup_address-Sound s c v e (some address) sound marked m =
      let made = make_result-Sound s c v address e _ sound marked (verify_entry-Marked read e m) in
      elim (Bool-cases (ltb address (s.views v).base)) [
        | inl below ↦ rw below sound
        | inr above ↦ elim (Bool-cases (cold cfg read now archive start s v address e)) [
          | inl c ↦ rw (above, c) sound
          | inr w ↦ rw (above, w) made
        ]
      ]

  lookup_entry-Sound :
      (s : DecompCache) (c : ArchiveCache) (v : ℕ) (o : Option CachedEntry)
      → Sound read s
      → CacheMarked read c
      → find c.index start ≡ o
      → Sound read (lookup_entry cfg read now archive start s c v o).1
  unfolding lookup_entry
  lookup_entry-Sound s c v none sound marked i = sound
  lookup_entry-Sound s c v (some e) sound marked i =
      lookup_address-Sound s c v e e.data_address sound marked
        (find-All (Marked read) c.index start e marked i)

  lookup_view-Sound :
      (s : DecompCache) (c : ArchiveCache) (o : Option ℕ)
      → Sound read s
      → CacheMarked read c
      → Sound read (lookup_view cfg read now archive start s c o).1
  unfolding lookup_view
  lookup_view-Sound s c none sound marked = sound
  lookup_view-Sound s c (some v) sound marked =
      elim (Bool-cases ((s.views v).unusable || c.disk_invalidated)) [
        | inl bad ↦ rw bad sound
        | inr good ↦ rw good (lookup_entry-Sound s c v _ sound marked refl)
      ]

  lookup_archive-Sound :
      (s : DecompCache) (o : Option ArchiveCache)
      → Sound read s
      → find s.caches archive ≡ o
      → Sound read (lookup_archive cfg read now archive start s o).1
  unfolding lookup_archive
  lookup_archive-Sound s none sound f = sound
  lookup_archive-Sound s (some c) sound f =
      lookup_view-Sound s c c.view sound (find-All (CacheMarked read) s.caches archive c sound f)

  -- If every entry marked as verified is intact, that is readable with the recorded checksum, then so
  -- it is after a lookup.
  pub lookup-Sound :
      (s : DecompCache) → Sound read s → Sound read (lookup cfg read now archive start s).1
  unfolding lookup
  lookup-Sound s sound = lookup_archive-Sound _ _ sound refl
