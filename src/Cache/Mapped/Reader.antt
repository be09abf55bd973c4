-- ===== src/Cache/Mapped/Reader.antt =====
-- Skyrim/src/DecompCache.cpp: what a cache whose view is a mapping answers to Lookup.
use faster_file_copy.Prelude.{
  ℕ, ◌+◌, ◌-◌, ◌<◌, ◌≡◌, refl, sym, ap, ◌∙◌, Bool, true, false, ◌&&◌, ◌||◌, Option, none, some,
  List, [], ◌∷◌, ◌==◌, ltb, leb, if◌then◌else◌, length, All, arith,
}
use faster_file_copy.Prelude.Splice.{slice}
use faster_file_copy.Format.Checksum.{checksum}
use faster_file_copy.Cache.State.{
  verify_unknown, verify_valid, CachedEntry, LookupResult, ArchiveCache, DecompCache, Settings,
  find, contains,
}
use faster_file_copy.Cache.Lookup.{
  VerificationResult, payload_valid, verify_state, verify_data, verify_entry, make_result, cold,
  lookup_address, lookup_entry, lookup_view, lookup_archive, lookup,
}
use faster_file_copy.Cache.Lookup.Retired.{Reached}
use faster_file_copy.Cache.Commit.{PreparedPending}
use faster_file_copy.Cache.Commit.Content.{Sound}
use faster_file_copy.Cache.Mapped.Serves.{Serves}

-- What reads of a mapping deliver.
abbrev pub read_mapping : ℕ → List ℕ → ℕ → ℕ → Option (List ℕ)
read_mapping base bytes address size =
    if leb base address && leb (address - base + size) (length bytes)
    then some (slice (address - base) size bytes)
    else none

module _ (cfg : Settings) (read : ℕ → ℕ → Option (List ℕ)) (now archive start : ℕ) where
  abbrev hit : ℕ → ℕ → ℕ → Option LookupResult
  hit v address size = some (record { data_address = address; size = size; owner = v })

  make_result-hit :
      (s : DecompCache) (c : ArchiveCache) (v address : ℕ) (e : CachedEntry)
      (p : VerificationResult × CachedEntry)
      → p.0.valid ≡ true
      → (make_result cfg read now archive start s c v address e p).0 ≡ hit v address e.size
  unfolding make_result
  make_result-hit s c v address e (p, verified) good = rw good refl

  lookup_address-hit :
      (s : DecompCache) (c : ArchiveCache) (v address : ℕ) (e : CachedEntry) (d : Option ℕ)
      → d ≡ some address
      → ltb address (s.views v).base ≡ false
      → cold cfg read now archive start s v address e ≡ false
      → (verify_entry read e).0.valid ≡ true
      → (lookup_address cfg read now archive start s c v e d).0 ≡ hit v address e.size
  unfolding lookup_address
  lookup_address-hit s c v address e d a inside warm good =
      rw (a, inside, warm) (make_result-hit s c v address e (verify_entry read e) good)

  lookup_view-hit :
      (s : DecompCache) (c : ArchiveCache) (v address : ℕ) (e : CachedEntry) (o : Option ℕ)
      → o ≡ some v
      → (s.views v).unusable ≡ false
      → c.disk_invalidated ≡ false
      → find c.index start ≡ some e
      → e.data_address ≡ some address
      → ltb address (s.views v).base ≡ false
      → cold cfg read now archive start s v address e ≡ false
      → (verify_entry read e).0.valid ≡ true
      → (lookup_view cfg read now archive start s c o).0 ≡ hit v address e.size
  unfolding lookup_view lookup_entry
  lookup_view-hit s c v address e o w u fresh i a inside warm good =
      let servable : ((s.views v).unusable || c.disk_invalidated) ≡ false = ground arith in
      rw (w, servable, i) (lookup_address-hit s c v address e e.data_address a inside warm good)

  -- A reached entry whose verification succeeds is served from its address.
  lookup-hit :
      (s : DecompCache) (at : Reached cfg read now archive start s)
      → (verify_entry read at.entry).0.valid ≡ true
      → (lookup cfg read now archive start s).0 ≡ hit at.view at.address at.entry.size
  unfolding lookup lookup_archive
  lookup-hit s at good = rw (at.cached) (
      lookup_view-hit _ at.cache at.view at.address at.entry at.cache.view at.owned at.usable
        at.current at.indexed at.addressed at.inside at.warm good)

module _ (read : ℕ → ℕ → Option (List ℕ)) where
  payload_valid-read :
      (address size expected : ℕ) (bytes : List ℕ)
      → 0 < size
      → read address size ≡ some bytes
      → checksum (some bytes) size ≡ expected
      → payload_valid read (some address) size expected ≡ true
  unfolding payload_valid
  payload_valid-read address size expected bytes some_byte readable matches =
      let full : (size == 0) ≡ false = ground (arith, some_byte) in
      rw (full, readable, matches) (ground arith)

  verify_state-unless_invalid :
      (e : CachedEntry) (known : Bool)
      → payload_valid read e.data_address e.size e.checksum_value ≡ true
      → (verify_state read e (some (if known then verify_valid else verify_unknown))).0.valid ≡ true
  unfolding verify_state
  verify_state-unless_invalid e true h = refl
  verify_state-unless_invalid e false h = h

  verify_data-state :
      (e : CachedEntry) (d : Option ℕ) (address : ℕ)
      → d ≡ some address
      → 0 < e.size
      → (verify_state read e e.verification).0.valid ≡ true
      → (verify_data read e d).0.valid ≡ true
  unfolding verify_data
  verify_data-state e none address h some_byte good = absurd (cc)
  verify_data-state e (some a) address h some_byte good =
      let full : (e.size == 0) ≡ false = ground (arith, some_byte) in rw full good

module _ (base : ℕ) (bytes known : List ℕ) (index : List (ℕ × CachedEntry)) (p : PreparedPending)
    (s : Serves base bytes known index p) where
  -- The payload's bytes can be read at the entry's address.
  payload_read : read_mapping base bytes (base + s.offset) s.entry.size ≡ some p.payload
  payload_read =
      let inside = s.inside in
      let low : leb base (base + s.offset) ≡ true = ground arith in
      let shift : base + s.offset - base ≡ s.offset = omega arith in
      let high : leb (s.offset + s.entry.size) (length bytes) ≡ true = ground (arith, inside) in
      rw (low, shift, high) (ap some (s.same_bytes))

  verified : 0 < length p.payload → (verify_entry (read_mapping base bytes) s.entry).0.valid ≡ true
  unfolding verify_entry
  verified some_byte =
      let whole = s.whole in
      let some_size : 0 < s.entry.size = omega (arith, whole, some_byte) in
      let matches : checksum (some p.payload) s.entry.size ≡ s.entry.checksum_value =
        ap (checksum (some p.payload)) s.whole ∙ sym s.summed in
      let valid =
        payload_valid-read (read_mapping base bytes) (base + s.offset) s.entry.size
          s.entry.checksum_value p.payload some_size payload_read matches in
      verify_data-state (read_mapping base bytes) s.entry s.entry.data_address (base + s.offset)
        s.address some_size
        (rw (s.state) (
          verify_state-unless_invalid (read_mapping base bytes) s.entry
            (contains known p.start_offset) (rw (s.address) valid)))

-- A lookup's answer, and the bytes that a reader finds there.
pub record Delivers (read : ℕ → ℕ → Option (List ℕ)) (view : ℕ) (answer : Option LookupResult)
    (payload : List ℕ) : Type 0 where
  pub address : ℕ
  pub answered :
      answer ≡ some (record { data_address = address; size = length payload; owner = view })
  pub readable : read address (length payload) ≡ some payload

-- The cache of an archive has this mapping, with this index.
pub record Shows (t : DecompCache) (archive view base : ℕ) (index : List (ℕ × CachedEntry))
    : Type 0 where
  pub cache : ArchiveCache
  pub cached : find t.caches archive ≡ some cache
  pub owned : cache.view ≡ some view
  pub current : cache.disk_invalidated ≡ false
  pub same_index : cache.index ≡ index
  pub usable : (t.views view).unusable ≡ false
  pub at_base : (t.views view).base ≡ base

module _ (cfg : Settings) (now archive view base : ℕ) (bytes known : List ℕ)
    (index : List (ℕ × CachedEntry)) (t : DecompCache) (shows : Shows t archive view base index)
    (off : cfg.prefault_decomp_cache ≡ false) where
  -- A lookup of the payload is answered with its bytes.
  abbrev pub Delivered : PreparedPending → Type 0
  Delivered p =
      Delivers (read_mapping base bytes) view
        (lookup cfg (read_mapping base bytes) now archive p.start_offset t).0 p.payload

  shown-Delivers :
      (p : PreparedPending) → 0 < length p.payload → Serves base bytes known index p → Delivered p
  shown-Delivers p some_byte served =
      let base_is = shows.at_base in
      let reached : Reached cfg (read_mapping base bytes) now archive p.start_offset t = record {
        cache = shows.cache;
        view = view;
        entry = served.entry;
        address = base + served.offset;
        cached = shows.cached;
        owned = shows.owned;
        usable = shows.usable;
        current = shows.current;
        indexed = rw (shows.same_index) (served.indexed);
        addressed = served.address;
        inside = rw base_is (ground arith);
        warm = rw off refl;
      } in
      let found =
        lookup-hit cfg (read_mapping base bytes) now archive p.start_offset t reached
          (verified base bytes known index p served some_byte) in
      let whole = served.whole in
      record {
        address = base + served.offset;
        answered = rw whole at found;
        readable = rw whole at (payload_read base bytes known index p served);
      }

  pub all-Delivered :
      (l : List PreparedPending)
      → All Sound l
      → All (Serves base bytes known index) l
      → All Delivered l
  all-Delivered [] sound served = tt
  all-Delivered (p ∷ l) sound served =
      (shown-Delivers p sound.0.nonempty served.0, all-Delivered l sound.1 served.1)
