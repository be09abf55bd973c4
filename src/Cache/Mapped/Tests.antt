-- ===== src/Cache/Mapped/Tests.antt =====
-- The file with one payload, mapped at address 1000 and served, and the witnesses of the theorems on
-- mapped files.
use faster_file_copy.Prelude.{
  ℕ, ◌+◌, ◌≡◌, refl, true, false, none, some, [], ◌∷◌, length, All, arith,
}
use faster_file_copy.Cache.State.{find}
use faster_file_copy.Cache.Sample.{empty_cache, state, settings}
use faster_file_copy.Cache.Lookup.{lookup}
use faster_file_copy.Cache.Flush.{OlWork, OlResult, is_stale, finish}
use faster_file_copy.Cache.Commit.{PreparedPending}
use faster_file_copy.Cache.Commit.Effect.{payloads}
use faster_file_copy.Cache.Commit.Content.{begin}
use faster_file_copy.Cache.Commit.Sample.{
  archive, old, old_file, old-Storable, old-Represents, old_size,
}
use faster_file_copy.Cache.Mapped.{map_committed_file}
use faster_file_copy.Cache.Mapped.Serves.{Mapping, mapped_at, map_committed_file-Mapping}
use faster_file_copy.Cache.Mapped.Inside.{Contained, map_committed_file-Contained}
use faster_file_copy.Cache.Mapped.Reader.{Delivers, read_mapping}
use faster_file_copy.Cache.Mapped.Served.{committed_served}

exact : begin archive + length (payloads old) ≡ length old_file
exact = omega (arith, old_size)

found :
    (r : OlResult) × (map_committed_file 2 (mapped_at 1000) old_file archive [] ≡ some r)
    × Mapping 2 1000 old_file [] old r
found = map_committed_file-Mapping 2 1000 [] archive old old_file old-Storable old-Represents exact

map_committed_file-Contained_example :
    (base : ℕ) × (mapped_at 1000 ≡ mapped_at base) × Contained base old_file archive found.0
map_committed_file-Contained_example =
    map_committed_file-Contained 2 (mapped_at 1000) archive [] old_file found.0
      (omega (arith, old_size)) found.1

-- The work that wrote a file of its own.
abbrev item : OlWork
item = record {
  archive = 7;
  base_path = 9;
  reset_file = true;
  source_view = none;
  pending = record { start_offset = 5; accounted_bytes = 107; payload = 1 ∷ 2 ∷ 3 ∷ [] } ∷ [];
}

cached : find state.caches 7 ≡ some empty_cache
unfolding find
cached = refl

current : is_stale item empty_cache ≡ false
unfolding is_stale
current = refl

committed_served_example :
    All
      (λ (p : PreparedPending).
        Delivers
          (read_mapping 1000 old_file)
          2
          (lookup settings
            (read_mapping 1000 old_file)
            60
            7
            p.start_offset
            (finish true item (map_committed_file 2 (mapped_at 1000) old_file archive []) state)).0
          p.payload)
      old
committed_served_example =
    committed_served settings 60 2 1000 [] true item state empty_cache archive old old_file cached
      current refl old-Storable old-Represents exact
