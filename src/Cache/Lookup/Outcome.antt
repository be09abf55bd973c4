-- ===== src/Cache/Lookup/Outcome.antt =====
-- DecompCache::Lookup in Skyrim/src/DecompCache.cpp: which outcome each of its branches has.
use faster_file_copy.Prelude.{
  ℕ, ◌≡◌, ◌⊎◌, inl, inr, refl, ap, ◌∙◌, Bool, true, false, ◌||◌, Option, none, some, List, ltb,
  ◌==◌, arith, Bool-cases, Option-cases, sym,
}
use faster_file_copy.Cache.State.{
  MappedView, CachedEntry, ArchiveCache, DecompCache, Settings, find, replace, update_view,
}
use faster_file_copy.Cache.Lookup.{
  VerificationResult, verify_entry, invalidate, make_result, cold, lookup_address, lookup_entry,
  lookup_view, lookup_archive, lookup,
}
use faster_file_copy.Cache.Lookup.Marks.{invalidate-kept}
use faster_file_copy.Cache.Lookup.Served.{lookup-Served}
use faster_file_copy.Cache.Lookup.Corrupt.{Corrupt, verify_entry-Corrupt}
use faster_file_copy.Cache.Lookup.Classified.{
  no_cache, no_view, retired_before, no_entry, no_address, outside, not_warm, Flagged, Retirement,
  Classified, hit, missed, retired,
}
use faster_file_copy.Cache.Flush.Books.{find-replace}

replace-Flagged :
    (archive : ℕ) (flag : Bool) (m : List (ℕ × ArchiveCache)) (c d : ArchiveCache)
    → find m archive ≡ some c
    → d.disk_invalidated ≡ flag
    → Flagged archive flag m (replace m archive d)
replace-Flagged archive flag m c d cached f =
    let itself : (archive == archive) ≡ true = ground arith in
    record {
      others = λ a apart.
          (let other : (archive == a) ≡ false = ground (arith, apart) in
            find-replace m archive c d a cached ∙ rw other refl);
      cache = d;
      here = find-replace m archive c d archive cached ∙ rw itself refl;
      flagged = f;
    }

update_view-other :
    (views : ℕ → MappedView) (v : ℕ) (m : MappedView) (w : ℕ)
    → (v == w) ≡ false
    → update_view views v m w ≡ views w
unfolding update_view
update_view-other views v m w e = rw e refl

either : (a b : Bool) → (a || b) ≡ true → (a ≡ true) ⊎ (b ≡ true)
either true b h = inl refl
either false b h = inr h

invalidate_requests :
    (cfg : Settings) (already : Bool) (s : DecompCache)
    → already ≡ false
    → (invalidate cfg already s).flush_requested ≡ true
unfolding invalidate
invalidate_requests cfg true s fresh = absurd (cc)
invalidate_requests cfg false s fresh = elim (Bool-cases cfg.prefault_decomp_cache) [
  | inl on ↦ rw on refl
  | inr off ↦ rw off refl
]

-- No lookup answers from a cache that is to be replaced.
lookup-Flagged :
    (cfg : Settings) (read : ℕ → ℕ → Option (List ℕ)) (now archive start : ℕ) (s : DecompCache)
    (before : List (ℕ × ArchiveCache))
    → Flagged archive true before s.caches
    → (lookup cfg read now archive start s).0 ≡ none
lookup-Flagged cfg read now archive start s before f =
    elim (Option-cases (lookup cfg read now archive start s).0) [
      | inl silent ↦ silent
      | inr (r, answered) ↦
          let served = lookup-Served cfg read now archive start s r answered in
          let same : some f.cache ≡ some served.cache = sym f.here ∙ served.cached in
          let is : f.cache ≡ served.cache = cc same in
          absurd (cc (f.flagged, served.current, ap (λ (c : ArchiveCache). c.disk_invalidated) is))
    ]

module _ (cfg : Settings) (read : ℕ → ℕ → Option (List ℕ)) (now archive start : ℕ) where
  invalidated-Retirement :
      (s t : DecompCache) (c d : ArchiveCache) (v address : ℕ) (e : CachedEntry)
      → find s.caches archive ≡ some c
      → c.view ≡ some v
      → c.disk_invalidated ≡ false
      → find c.index start ≡ some e
      → e.data_address ≡ some address
      → Corrupt read address e
      → d.disk_invalidated ≡ true
      → t.caches ≡ replace s.caches archive d
      → t.views ≡ update_view s.views v (record (s.views v) { unusable = true })
      → Retirement cfg read archive start s.caches s.views (invalidate cfg c.disk_invalidated t)
  unfolding update_view
  invalidated-Retirement s t c d v address e cached owned fresh i a bad is caches views =
      let kept = invalidate-kept cfg c.disk_invalidated t in
      let all_views = kept.1 ∙ views in
      let itself : (v == v) ≡ true = ground arith in
      let marked : Flagged archive true s.caches (invalidate cfg c.disk_invalidated t).caches =
        rw (kept.0, caches) (replace-Flagged archive true s.caches c d cached is) in
      record {
        cache = c;
        view = v;
        entry = e;
        address = address;
        cached = cached;
        owned = owned;
        indexed = i;
        addressed = a;
        corrupt = bad;
        unusable = ap (λ (w : ℕ → MappedView). (w v).unusable) all_views ∙ rw itself refl;
        other_views = λ w apart.
            (let other : (v == w) ≡ false = ground (arith, apart) in
              ap (λ (x : ℕ → MappedView). x w) all_views ∙ update_view-other s.views v _ w other);
        marked = marked;
        requested = invalidate_requests cfg c.disk_invalidated t fresh;
        no_more =
            λ reads later offset. lookup-Flagged cfg reads later archive offset _ s.caches marked;
      }

  make_result-Classified :
      (s : DecompCache) (c : ArchiveCache) (v address : ℕ) (e : CachedEntry)
      (p : VerificationResult × CachedEntry)
      → find s.caches archive ≡ some c
      → c.view ≡ some v
      → c.disk_invalidated ≡ false
      → find c.index start ≡ some e
      → e.data_address ≡ some address
      → (p.0.valid ≡ false → Corrupt read address e)
      → Classified cfg read archive start s.caches s.views
          (make_result cfg read now archive start s c v address e p)
  unfolding make_result
  make_result-Classified s c v address e (p, verified) cached owned fresh i a bad =
      let touched = record c { last_access_ms = now; index = replace c.index start verified } in
      let retired_cache = record touched { disk_invalidated = true } in
      elim (Bool-cases p.valid) [
        | inl good ↦
            let flagged = replace-Flagged archive false s.caches c touched cached fresh in
            rw good (hit _ refl refl flagged)
        | inr failed ↦ rw failed (
            retired refl (
              invalidated-Retirement s _ c retired_cache v address e cached owned fresh i a
                (bad failed) refl refl refl))
      ]

  lookup_address-Classified :
      (s : DecompCache) (c : ArchiveCache) (v : ℕ) (e : CachedEntry) (o : Option ℕ)
      → e.data_address ≡ o
      → find s.caches archive ≡ some c
      → c.view ≡ some v
      → c.disk_invalidated ≡ false
      → find c.index start ≡ some e
      → Classified cfg read archive start s.caches s.views
          (lookup_address cfg read now archive start s c v e o)
  unfolding lookup_address
  lookup_address-Classified s c v e none a cached owned fresh i =
      missed refl refl refl (no_address c e cached i a)
  lookup_address-Classified s c v e (some address) a cached owned fresh i =
      elim (Bool-cases (ltb address (s.views v).base)) [
        | inl below ↦
            rw below (missed refl refl refl (outside c v e address cached owned i a (ground arith)))
        | inr above ↦ elim (Bool-cases (cold cfg read now archive start s v address e)) [
          | inl is_cold ↦
              rw (above, is_cold)
                (missed refl refl refl
                  (not_warm c v e address cached owned i a (ground arith) (ground arith)))
          | inr warm ↦
              rw (above, warm)
                (make_result-Classified s c v address e (verify_entry read e) cached owned fresh i a
                  (verify_entry-Corrupt read address e a))
        ]
      ]

  lookup_entry-Classified :
      (s : DecompCache) (c : ArchiveCache) (v : ℕ) (o : Option CachedEntry)
      → find c.index start ≡ o
      → find s.caches archive ≡ some c
      → c.view ≡ some v
      → c.disk_invalidated ≡ false
      → Classified cfg read archive start s.caches s.views
          (lookup_entry cfg read now archive start s c v o)
  unfolding lookup_entry
  lookup_entry-Classified s c v none i cached owned fresh =
      missed refl refl refl (no_entry c cached i)
  lookup_entry-Classified s c v (some e) i cached owned fresh =
      lookup_address-Classified s c v e e.data_address refl cached owned fresh i

  lookup_view-Classified :
      (s : DecompCache) (c : ArchiveCache) (o : Option ℕ)
      → c.view ≡ o
      → find s.caches archive ≡ some c
      → Classified cfg read archive start s.caches s.views
          (lookup_view cfg read now archive start s c o)
  unfolding lookup_view
  lookup_view-Classified s c none owned cached = missed refl refl refl (no_view c cached owned)
  lookup_view-Classified s c (some v) owned cached =
      elim (Bool-cases ((s.views v).unusable || c.disk_invalidated)) [
        | inl stale ↦
            rw stale (missed refl refl refl (retired_before c v cached owned (either _ _ stale)))
        | inr servable ↦
            rw servable
              (lookup_entry-Classified s c v (find c.index start) refl cached owned (ground arith))
      ]

  lookup_archive-Classified :
      (s : DecompCache) (o : Option ArchiveCache)
      → find s.caches archive ≡ o
      → Classified cfg read archive start s.caches s.views
          (lookup_archive cfg read now archive start s o)
  unfolding lookup_archive
  lookup_archive-Classified s none cached = missed refl refl refl (no_cache cached)
  lookup_archive-Classified s (some c) cached = lookup_view-Classified s c c.view refl cached

  -- Whatever the state, a lookup has one of three outcomes. It answers, and then no view changes, the
  -- archive's cache is not marked for replacement and the other archives' caches are unchanged. Or it has no
  -- answer for one of the seven reasons of Miss, and then no view and no cache changes. Or it has no answer
  -- because the entry is corrupt: it is empty, has no verification byte, is known to be invalid, cannot be
  -- read, or has another checksum; then its view becomes unusable and no other view changes, this archive's
  -- cache is marked for replacement and the other archives' caches are unchanged, a flush is requested, and
  -- in the state that results no lookup of this archive answers, at whatever time and for whatever offset.
  pub lookup-Classified :
      (s : DecompCache)
      → Classified cfg read archive start s.caches s.views (lookup cfg read now archive start s)
  unfolding lookup
  lookup-Classified s = lookup_archive-Classified _ (find s.caches archive) refl
