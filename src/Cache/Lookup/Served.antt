-- ===== src/Cache/Lookup/Served.antt =====
-- What a lookup serves.
use faster_file_copy.Prelude.{
  ℕ, ◌≡◌, refl, sym, ap, ◌∙◌, true, false, Option, none, some, List, arith,
}
use faster_file_copy.Cache.State.{
  CachedEntry, LookupResult, ArchiveCache, DecompCache, Settings, find,
}
use faster_file_copy.Cache.Lookup.{
  VerificationResult, verify_entry, make_result, cold, lookup_address, lookup_entry, lookup_view,
  lookup_archive, lookup,
}
use faster_file_copy.Cache.Lookup.Intact.{
  find-All, Intact, Marked, CacheMarked, Sound, verify_entry-Intact,
}

module _ (cfg : Settings) (read : ℕ → ℕ → Option (List ℕ)) (now archive start : ℕ) where
  -- What a lookup with an answer has found in the state that it started from.
  pub record Served (s : DecompCache) (r : LookupResult) : Type 0 where
    pub cache : ArchiveCache
    pub entry : CachedEntry
    pub cached : find s.caches archive ≡ some cache
    pub owned : cache.view ≡ some r.owner
    pub usable : (s.views r.owner).unusable ≡ false
    pub current : cache.disk_invalidated ≡ false
    pub indexed : find cache.index start ≡ some entry
    pub address : entry.data_address ≡ some r.data_address
    pub whole : r.size ≡ entry.size
    pub warm : cold cfg read now archive start s r.owner r.data_address entry ≡ false
    pub verified : (verify_entry read entry).0.valid ≡ true

  make_result-Served :
      (s : DecompCache) (c : ArchiveCache) (v address : ℕ) (e : CachedEntry)
      (p : VerificationResult × CachedEntry) (r : LookupResult)
      → (make_result cfg read now archive start s c v address e p).0 ≡ some r
      → (p.0.valid ≡ true) × (record { data_address = address; size = e.size; owner = v } ≡ r)
  unfolding make_result
  make_result-Served s c v address e (p, verified) r h = (ground arith, ground arith)

  lookup_address-Served :
      (s : DecompCache) (c : ArchiveCache) (v : ℕ) (e : CachedEntry) (d : Option ℕ)
      (r : LookupResult)
      → (lookup_address cfg read now archive start s c v e d).0 ≡ some r
      → (d ≡ some r.data_address)
        × (v ≡ r.owner)
        × (r.size ≡ e.size)
        × (cold cfg read now archive start s v r.data_address e ≡ false)
        × ((verify_entry read e).0.valid ≡ true)
  unfolding lookup_address
  lookup_address-Served s c v e none r h = absurd (cc)
  lookup_address-Served s c v e (some address) r h =
      let made : (make_result cfg read now archive start s c v address e (verify_entry read e)).0
          ≡ some r =
        ground arith in
      let is = make_result-Served s c v address e _ r made in
      rw (← is.1) (refl, refl, refl, ground arith, is.0)

  lookup_entry-Served :
      (s : DecompCache) (c : ArchiveCache) (v : ℕ) (o : Option CachedEntry) (r : LookupResult)
      → find s.caches archive ≡ some c
      → c.view ≡ some v
      → (s.views v).unusable ≡ false
      → c.disk_invalidated ≡ false
      → find c.index start ≡ o
      → (lookup_entry cfg read now archive start s c v o).0 ≡ some r
      → Served s r
  unfolding lookup_entry
  lookup_entry-Served s c v none r f w u d e h = absurd (cc)
  lookup_entry-Served s c v (some e) r f w u d i h =
      let is = lookup_address-Served s c v e e.data_address r h in
      record {
        cache = c;
        entry = e;
        cached = f;
        owned = w ∙ ap some is.1;
        usable = ap (λ x. (s.views x).unusable) (sym is.1) ∙ u;
        current = d;
        indexed = i;
        address = is.0;
        whole = is.2;
        warm = ap (λ x. cold cfg read now archive start s x r.data_address e) (sym is.1) ∙ is.3;
        verified = is.4;
      }

  lookup_view-Served :
      (s : DecompCache) (c : ArchiveCache) (o : Option ℕ) (r : LookupResult)
      → find s.caches archive ≡ some c
      → c.view ≡ o
      → (lookup_view cfg read now archive start s c o).0 ≡ some r
      → Served s r
  unfolding lookup_view
  lookup_view-Served s c none r f w h = absurd (cc)
  lookup_view-Served s c (some v) r f w h =
      lookup_entry-Served s c v _ r f w (ground arith) (ground arith) refl (ground arith)

  lookup_archive-Served :
      (s : DecompCache) (o : Option ArchiveCache) (r : LookupResult)
      → find s.caches archive ≡ o
      → (lookup_archive cfg read now archive start s o).0 ≡ some r
      → Served s r
  unfolding lookup_archive
  lookup_archive-Served s none r f h = absurd (cc)
  lookup_archive-Served s (some c) r f h = lookup_view-Served s c c.view r f refl h

  -- A lookup serves only what the archive's current cache indexes at the offset, from its usable
  -- view, in the warm part where warming is on, and after a positive verification.
  pub lookup-Served :
      (s : DecompCache) (r : LookupResult)
      → (lookup cfg read now archive start s).0 ≡ some r
      → Served s r
  unfolding lookup
  lookup-Served s r h =
      let is = lookup_archive-Served _ _ r refl h in
      record {
        cache = is.cache;
        entry = is.entry;
        cached = is.cached;
        owned = is.owned;
        usable = is.usable;
        current = is.current;
        indexed = is.indexed;
        address = is.address;
        whole = is.whole;
        warm = is.warm;
        verified = is.verified;
      }

  -- If the entries marked as verified are intact, a lookup that answers serves a payload that can
  -- be read and has the checksum that the cache file records for it, from the usable and current
  -- cache of the archive.
  pub lookup-Intact :
      (s : DecompCache) (r : LookupResult)
      → Sound read s
      → (lookup cfg read now archive start s).0 ≡ some r
      → (c : ArchiveCache) × (e : CachedEntry) × (find s.caches archive ≡ some c)
        × (c.view ≡ some r.owner)
        × (c.disk_invalidated ≡ false)
        × ((s.views r.owner).unusable ≡ false)
        × (find c.index start ≡ some e)
        × Intact read r.data_address r.size e.checksum_value
  lookup-Intact s r sound h =
      let is = lookup-Served s r h in
      let cache_marked = find-All (CacheMarked read) s.caches archive is.cache sound is.cached in
      let marked = find-All (Marked read) is.cache.index start is.entry cache_marked is.indexed in
      (
        is.cache,
        is.entry,
        is.cached,
        is.owned,
        is.current,
        is.usable,
        is.indexed,
        rw (is.whole)
            (verify_entry-Intact read is.entry r.data_address marked is.address is.verified),
      )
