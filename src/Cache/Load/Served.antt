-- ===== src/Cache/Load/Served.antt =====
-- Skyrim/src/DecompCache.cpp: from LoadCacheFile to Lookup.
use faster_file_copy.Prelude.{ℕ, ◌≡◌, refl, ◌∙◌, true, false, some, List, [], ◌==◌, All, arith}
use faster_file_copy.Format.Layout.{ArchiveIdentity}
use faster_file_copy.Cache.State.{ArchiveCache, DecompCache, Settings, find, update_view}
use faster_file_copy.Cache.Lookup.{lookup}
use faster_file_copy.Cache.Flush.Books.{find-replace}
use faster_file_copy.Cache.Commit.{PreparedPending}
use faster_file_copy.Cache.Commit.Content.{Storable}
use faster_file_copy.Cache.Mapped.Reader.{read_mapping, Delivers, Shows, all-Delivered}
use faster_file_copy.Cache.Load.{Loaded, adopt}
use faster_file_copy.Cache.Load.Contents.{LoadedWith}

adopt-Shows :
    (archive path : ℕ) (r : Loaded) (c : ArchiveCache) (s : DecompCache)
    → find s.caches archive ≡ some c
    → r.mapped.unusable ≡ false
    → Shows (adopt archive path r c s) archive r.view r.mapped.base r.index
unfolding adopt update_view
adopt-Shows archive path r c s cached usable =
    let itself : (archive == archive) ≡ true = ground arith in
    let same : (r.view == r.view) ≡ true = ground arith in
    let d : ArchiveCache = record c {
      index = r.index;
      view = some r.view;
      active_path = some path;
      on_disk_bytes = r.file_size;
      disk_invalidated = false;
      needs_replacement = r.needs_replacement;
    } in
    record {
      cache = d;
      cached = find-replace s.caches archive c d archive cached ∙ rw itself refl;
      owned = refl;
      current = refl;
      same_index = refl;
      usable = rw same usable;
      at_base = rw same refl;
    }

-- Once a load that serves a list of payloads that a file can hold has been taken over by the archive's cache, then, with
-- prefaulting off, a lookup of any payload of the list answers with an address in the mapping at which a
-- reader finds exactly the payload's bytes.
pub loaded_served :
    (cfg : Settings) (now archive path : ℕ) (id : ArchiveIdentity) (l : List PreparedPending)
    (contents : List ℕ) (r : Loaded) (c : ArchiveCache) (s : DecompCache)
    → find s.caches archive ≡ some c
    → cfg.prefault_decomp_cache ≡ false
    → Storable id l
    → LoadedWith id l contents r
    → All
        (λ (p : PreparedPending).
          Delivers
            (read_mapping r.mapped.base contents)
            r.view
            (lookup cfg
              (read_mapping r.mapped.base contents)
              now
              archive
              p.start_offset
              (adopt archive path r c s)).0
            p.payload)
        l
loaded_served cfg now archive path id l contents r c s cached off ok loaded =
    all-Delivered cfg now archive r.view r.mapped.base contents [] r.index
      (adopt archive path r c s) (adopt-Shows archive path r c s cached loaded.usable) off l
      ok.sound loaded.serves
