-- ===== src/Cache/Mapped/Served.antt =====
-- Skyrim/src/DecompCache.cpp: from the file over MapCommittedFile and FlushToDisk to Lookup.
use faster_file_copy.Prelude.{
  ℕ, ◌+◌, ◌≡◌, refl, ap, ◌∙◌, Bool, true, false, some, List, ◌==◌, length, All, arith,
}
use faster_file_copy.Format.Layout.{ArchiveIdentity}
use faster_file_copy.Cache.State.{ArchiveCache, DecompCache, Settings, find, update_view}
use faster_file_copy.Cache.Lookup.{lookup}
use faster_file_copy.Cache.Flush.{
  OlWork, OlResult, erase_all, is_stale, install, finish, finish_found,
}
use faster_file_copy.Cache.Flush.Books.{find-replace}
use faster_file_copy.Cache.Commit.{PreparedPending}
use faster_file_copy.Cache.Commit.Effect.{payloads}
use faster_file_copy.Cache.Commit.Content.{begin, Storable, Represents}
use faster_file_copy.Cache.Mapped.{map_committed_file}
use faster_file_copy.Cache.Mapped.Serves.{mapped_at, map_committed_file-Mapping}
use faster_file_copy.Cache.Mapped.Reader.{read_mapping, Delivers, Shows, all-Delivered}

finish-current :
    (memory : Bool) (item : OlWork) (r : OlResult) (s : DecompCache) (c : ArchiveCache)
    → find s.caches item.archive ≡ some c
    → is_stale item c ≡ false
    → finish memory item (some r) s ≡ install item c r s
unfolding finish finish_found
finish-current memory item r s c cached current = rw (finish, cached, current) refl

install-Shows :
    (item : OlWork) (c : ArchiveCache) (r : OlResult) (s : DecompCache) (view base : ℕ)
    → find s.caches item.archive ≡ some c
    → r.view ≡ view
    → r.mapped.base ≡ base
    → r.mapped.unusable ≡ false
    → Shows (install item c r s) item.archive view base r.index
unfolding install update_view
install-Shows item c r s view base cached its_view at_base usable =
    let itself : (item.archive == item.archive) ≡ true = ground arith in
    let same : (r.view == view) ≡ true = ground (arith, its_view) in
    let d : ArchiveCache = record c {
      view = some r.view;
      index = r.index;
      active_path = some item.base_path;
      on_disk_bytes = r.file_size;
      disk_invalidated = false;
      needs_replacement = false;
      buffered_offsets = erase_all c.buffered_offsets item.pending;
    } in
    record {
      cache = d;
      cached = find-replace s.caches item.archive c d item.archive cached ∙ rw itself refl;
      owned = ap some its_view;
      current = refl;
      same_index = refl;
      usable = rw same usable;
      at_base = rw same at_base;
    }

-- When a flush has written a file that represents a list of payloads that a file can hold, and ends with
-- the last of them, maps it with every call successful, and finishes the archive's work on a current source, then, with
-- prefaulting off, a lookup of any payload of the list answers with an address in the new mapping at
-- which a reader finds exactly the payload's bytes.
pub committed_served :
    (cfg : Settings) (now view base : ℕ) (known : List ℕ) (memory : Bool) (item : OlWork)
    (s : DecompCache) (c : ArchiveCache) (id : ArchiveIdentity) (l : List PreparedPending)
    (bytes : List ℕ)
    → find s.caches item.archive ≡ some c
    → is_stale item c ≡ false
    → cfg.prefault_decomp_cache ≡ false
    → Storable id l
    → Represents id l bytes
    → begin id + length (payloads l) ≡ length bytes
    → All
        (λ (p : PreparedPending).
          Delivers
            (read_mapping base bytes)
            view
            (lookup cfg
              (read_mapping base bytes)
              now
              item.archive
              p.start_offset
              (finish memory item (map_committed_file view (mapped_at base) bytes id known) s)).0
            p.payload)
        l
committed_served cfg now view base known memory item s c id l bytes cached current off ok r exact =
    let (made, is, m) = map_committed_file-Mapping view base known id l bytes ok r exact in
    let shows = install-Shows item c made s view base cached m.its_view m.at_base m.usable in
    rw (is, finish-current memory item made s c cached current)
      (all-Delivered cfg now item.archive view base bytes known made.index (install item c made s)
        shows off l ok.sound m.serves)
