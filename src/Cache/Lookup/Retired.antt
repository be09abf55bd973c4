-- ===== src/Cache/Lookup/Retired.antt =====
-- A reported fault retires a mapping; and when a lookup reaches the verification of an entry.
use faster_file_copy.Prelude.{
  ℕ, ◌≡◌, ◌≢◌, refl, sym, ap, ◌∙◌, Bool, true, false, not, Option, some, List, ltb, ◌==◌, arith,
}
use faster_file_copy.Cache.State.{
  CachedEntry, LookupResult, ArchiveCache, DecompCache, Settings, find, update_view,
}
use faster_file_copy.Cache.Lookup.{
  invalidate, cold, lookup, invalidate_owner, report_mapping_io_failure,
}
use faster_file_copy.Cache.Lookup.Served.{lookup-Served}
use faster_file_copy.Cache.Lookup.Marks.{invalidate-kept}

invalidate_unusable :
    (cfg : Settings) (already : Bool) (s : DecompCache) (v : ℕ)
    → (s.views v).unusable ≡ true
    → ((invalidate cfg already s).views v).unusable ≡ true
invalidate_unusable cfg already s v h =
    ap (λ w. (w v).unusable) (invalidate-kept cfg already s).1 ∙ h

module _ (cfg : Settings) (read : ℕ → ℕ → Option (List ℕ)) (now archive start : ℕ) where
  report-unusable :
      (s : DecompCache) (owner : ℕ)
      → ((report_mapping_io_failure cfg (some owner) s).views owner).unusable ≡ true
  unfolding report_mapping_io_failure update_view
  report-unusable s owner =
      let same : (owner == owner) ≡ true = ground arith in
      let r = invalidate_owner owner s.caches in
      let marked = update_view s.views owner (record (s.views owner) { unusable = true }) in
      let unusable : (marked owner).unusable ≡ true = rw same refl in
      invalidate_unusable cfg (not r.0) (record s { caches = r.1; views = marked }) owner unusable

  -- After a mapped read of a view has failed and was reported, no lookup serves from that view.
  pub report_retires :
      (s : DecompCache) (owner : ℕ) (r : LookupResult)
      → (lookup cfg read now archive start (report_mapping_io_failure cfg (some owner) s)).0
        ≡ some r
      → r.owner ≢ owner
  report_retires s owner r h same =
      let reported = report_mapping_io_failure cfg (some owner) s in
      let served = lookup-Served cfg read now archive start _ r h in
      let usable = ap (λ v. (reported.views v).unusable) (sym same) ∙ served.usable in
      absurd (cc (report-unusable s owner, usable))

-- The conditions under which a lookup reaches the verification of an entry.
pub record Reached (cfg : Settings) (read : ℕ → ℕ → Option (List ℕ)) (now archive start : ℕ)
    (s : DecompCache) : Type 0 where
  pub cache : ArchiveCache
  pub view : ℕ
  pub entry : CachedEntry
  pub address : ℕ
  pub cached : find s.caches archive ≡ some cache
  pub owned : cache.view ≡ some view
  pub usable : (s.views view).unusable ≡ false
  pub current : cache.disk_invalidated ≡ false
  pub indexed : find cache.index start ≡ some entry
  pub addressed : entry.data_address ≡ some address
  pub inside : ltb address (s.views view).base ≡ false
  pub warm : cold cfg read now archive start s view address entry ≡ false
