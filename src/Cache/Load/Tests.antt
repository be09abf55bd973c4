-- ===== src/Cache/Load/Tests.antt =====
-- A file that a crash left, loaded again, and the witnesses of the theorems on loading.
use faster_file_copy.Prelude.{
  ℕ, ◌≡◌, ◌⊎◌, refl, true, false, none, some, List, [], ◌∷◌, ◌++◌, length, All, arith,
}
use faster_file_copy.Prelude.Splice.{splice}
use faster_file_copy.Prelude.Words.{write_le}
use faster_file_copy.Format.Encode.{encode_header, encode_entry}
use faster_file_copy.Cache.Record.{add_checked}
use faster_file_copy.Cache.Commit.{
  Answer, PreparedPending, append_file, append_calls, run, place, write_chunks, encode_entries,
  fresh_header,
}
use faster_file_copy.Cache.Commit.Durable.{end_of}
use faster_file_copy.Cache.Commit.Sample.{
  disk, archive, old, new, second-Sound, old_file, old-Storable, both-Storable, old-Stored,
  old-Represents, old_size,
}
use faster_file_copy.Cache.Load.{LoadAnswers, adopt, open_cache, load_cache_file}
use faster_file_copy.Cache.State.{find}
use faster_file_copy.Cache.Lookup.{lookup}
use faster_file_copy.Cache.Sample.{empty_cache, state, settings}
use faster_file_copy.Cache.Mapped.Reader.{Delivers, read_mapping}
use faster_file_copy.Cache.Load.Served.{loaded_served}
use faster_file_copy.Cache.Load.Recovery.{
  Succeeds, Recovered, load_cache_file-Recovered, crash_then_load,
}

abbrev answers : LoadAnswers
answers = record {
  writable = true;
  readable = true;
  locked = true;
  reopened = false;
  sized = true;
  mapping = some 1000;
  memory = true;
  truncates = true;
  remapping = some 2000;
}

answers-Succeeds : Succeeds answers true 1000 2000
unfolding open_cache
answers-Succeeds = record {
  opened = refl;
  has_size = refl;
  mapped = refl;
  has_memory = refl;
  remapped = refl;
}

load_cache_file-Recovered_example :
    Recovered archive old true (load_cache_file 2 answers archive old_file)
load_cache_file-Recovered_example =
    load_cache_file-Recovered 2 1000 2000 archive old old_file true answers old-Storable
      (omega (arith, old_size)) old-Represents answers-Succeeds

abbrev ok : Answer
ok = record { cancelled = false; failure = none }

-- The system crashes when the new payload is written.
abbrev crash : List Answer
crash = ok ∷ ok ∷ ok ∷ []

abbrev left : List ℕ
left = (append_file disk (fresh_header archive 1) (end_of archive old) new crash old_file).1

left_size : length left ≡ 109
unfolding append_file append_calls run place write_chunks encode_entries encode_header encode_entry
    write_le fresh_header splice add_checked
left_size = refl

crash_then_load_example :
    Recovered archive old true (load_cache_file 2 answers archive left)
    ⊎ Recovered archive (old ++ new) true (load_cache_file 2 answers archive left)
crash_then_load_example =
    crash_then_load disk archive old new crash old_file left 2 1000 2000 answers old-Storable
      both-Storable (second-Sound, tt) (refl, (refl, (refl, tt))) old-Stored refl
      (omega (arith, left_size)) answers-Succeeds refl

loaded : Recovered archive old true (load_cache_file 2 answers archive old_file)
loaded =
    load_cache_file-Recovered 2 1000 2000 archive old old_file true answers old-Storable
      (omega (arith, old_size)) old-Represents answers-Succeeds

abbrev contents : List ℕ
contents = (load_cache_file 2 answers archive old_file).0

cached : find state.caches 7 ≡ some empty_cache
unfolding find
cached = refl

loaded_served_example :
    All
      (λ (p : PreparedPending).
        Delivers
          (read_mapping loaded.0.mapped.base contents)
          loaded.0.view
          (lookup settings
            (read_mapping loaded.0.mapped.base contents)
            60
            7
            p.start_offset
            (adopt 7 9 loaded.0 empty_cache state)).0
          p.payload)
      old
loaded_served_example =
    loaded_served settings 60 7 9 archive old contents loaded.0 empty_cache state cached refl
      old-Storable loaded.2
