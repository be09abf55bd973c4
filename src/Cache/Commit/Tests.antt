-- ===== src/Cache/Commit/Tests.antt =====
-- Runs of the commit protocol, and the witnesses of its theorems.
use faster_file_copy.Prelude.{
  ◌+◌, map, ◌≡◌, ◌⊎◌, refl, ◌∙◌, true, false, none, some, List, [], ◌∷◌, ◌++◌, length, All, arith,
}
use faster_file_copy.Prelude.Splice.{splice}
use faster_file_copy.Prelude.Words.{write_le}
use faster_file_copy.Format.Layout.{full_payload, no_error}
use faster_file_copy.Format.Encode.{encode_header, encode_entry}
use faster_file_copy.Format.Validate.{validate}
use faster_file_copy.Format.Validate.Spec.{committed}
use faster_file_copy.Cache.Record.{add_checked}
use faster_file_copy.Cache.Commit.{
  Answer, finished, failed, run, fresh_header, fresh_calls, append_calls, append_file, prepare,
  write_at, write_chunks, place, encode_entries,
}
use faster_file_copy.Cache.Commit.Effect.{payloads}
use faster_file_copy.Cache.Commit.Content.{Sound, Storable, Represents, begin, layout}
use faster_file_copy.Cache.Commit.ReadBack.{validate-Represents}
use faster_file_copy.Cache.Commit.Plan.{
  AppendPlan, plan_append, select, check_capacity, find_entry, push, plan_fresh, repeats, has,
}
use faster_file_copy.Cache.Commit.Planned.{plan_append-found, plan_append-Storable}
use faster_file_copy.Cache.Commit.Fresh.{write_fresh-Represents}
use faster_file_copy.Cache.Commit.Chunks.{write_at-splice}
use faster_file_copy.Cache.Commit.Prepared.{buffered, prepare-Sound}
use faster_file_copy.Cache.Commit.Durable.{end_of, Stored}
use faster_file_copy.Cache.Commit.Steps.{NoFailure}
use faster_file_copy.Cache.Commit.Rollback.{append_file-crash, append_file-finished}
use faster_file_copy.Cache.Commit.Restore.{append_file-failed}
use faster_file_copy.Cache.Commit.Sample.{
  disk, archive, old, new, old_file, first-Sound, second-Sound, archive-fits, old-Storable,
  both-Storable, old-Stored, old-Represents, old_size,
}

abbrev ok : Answer
ok = record { cancelled = false; failure = none }

abbrev cancelled : Answer
cancelled = record { cancelled = true; failure = none }

abbrev torn : Answer
torn = record { cancelled = false; failure = some 1 }

abbrev ten_ok : List Answer
ten_ok = ok ∷ ok ∷ ok ∷ ok ∷ ok ∷ ok ∷ ok ∷ ok ∷ ok ∷ ok ∷ []

-- A crash behind the new header's write.
abbrev crash : List Answer
crash = ok ∷ ok ∷ ok ∷ cancelled ∷ ok ∷ ok ∷ ok ∷ ok ∷ ok ∷ []

append_file-crash_example :
    Represents archive old
      (append_file disk (fresh_header archive 1) (end_of archive old) new crash old_file).1
    ⊎ Represents archive
        (old ++ new)
        (append_file disk (fresh_header archive 1) (end_of archive old) new crash old_file).1
append_file-crash_example =
    append_file-crash disk archive old new crash old_file
      (append_file disk (fresh_header archive 1) (end_of archive old) new crash old_file).1
      both-Storable (second-Sound, tt)
      (refl, (refl, (refl, (refl, (refl, (refl, (refl, (refl, (refl, tt))))))))) old-Stored refl

ends_well :
    (append_file disk (fresh_header archive 1) (end_of archive old) new ten_ok old_file).0
    ≡ finished
unfolding append_file append_calls run place write_chunks encode_entries encode_header encode_entry
    write_le fresh_header
ends_well = refl

append_file-finished_example :
    Stored disk archive
      (old ++ new)
      (append_file disk (fresh_header archive 1) (end_of archive old) new ten_ok old_file).1
append_file-finished_example =
    append_file-finished disk archive old new ten_ok old_file both-Storable (second-Sound, tt)
      old-Stored ends_well

-- The second payload's write is torn, and the rollback works.
abbrev torn_payload : List Answer
torn_payload = ok ∷ ok ∷ torn ∷ ok ∷ ok ∷ ok ∷ ok ∷ ok ∷ []

rollback_works :
    NoFailure
      (run disk
        (append_calls (fresh_header archive 1) (end_of archive old) new)
        torn_payload
        old_file).2
unfolding append_file append_calls run place write_chunks encode_entries encode_header encode_entry
    write_le fresh_header
rollback_works = (refl, (refl, (refl, (refl, (refl, tt)))))

fails :
    (append_file disk (fresh_header archive 1) (end_of archive old) new torn_payload old_file).0
    ≡ failed
unfolding append_file append_calls run place write_chunks encode_entries encode_header encode_entry
    write_le fresh_header
fails = refl

append_file-failed_example :
    Stored disk archive old
      (append_file disk (fresh_header archive 1) (end_of archive old) new torn_payload old_file).1
append_file-failed_example =
    append_file-failed disk archive old new torn_payload old_file both-Storable old-Stored
      rollback_works fails

validate-Represents_example :
    ((validate (some old_file) (some archive) full_payload true).error ≡ no_error)
    × (committed old_file ≡ layout (begin archive) old)
validate-Represents_example =
    validate-Represents archive old old_file old-Storable (omega (arith, old_size)) old-Represents

fresh_calls_of_old :
    plan_fresh archive old ≡ some (fresh_calls archive old (layout (begin archive) old))
unfolding plan_fresh repeats has place add_checked
fresh_calls_of_old = refl

fresh_ends_well :
    (run disk (fresh_calls archive old (layout (begin archive) old)) ten_ok []).0 ≡ finished
unfolding run fresh_calls write_chunks encode_entries encode_header encode_entry write_le
    fresh_header
fresh_ends_well = refl

write_fresh-Represents_example :
    Storable archive old
    × Represents archive old
        (disk.bytes (run disk (fresh_calls archive old (layout (begin archive) old)) ten_ok []).1)
write_fresh-Represents_example =
    write_fresh-Represents disk archive old (fresh_calls archive old (layout (begin archive) old))
      ten_ok [] archive-fits (first-Sound, tt) fresh_calls_of_old fresh_ends_well

write_ends_well : (run disk (write_at true 4 (1 ∷ 2 ∷ [])) ten_ok (9 ∷ [])).0 ≡ finished
unfolding run write_at write_chunks
write_ends_well = refl

write_at-splice_example :
    (run disk (write_at true 4 (1 ∷ 2 ∷ [])) ten_ok (9 ∷ [])).1 ≡ splice (9 ∷ []) 4 (1 ∷ 2 ∷ [])
write_at-splice_example =
    write_at-splice disk true 4 (1 ∷ 2 ∷ []) ten_ok (9 ∷ []) (omega arith) write_ends_well

old_prepared : prepare ((5, 1 ∷ 2 ∷ 3 ∷ []) ∷ []) ≡ some old
unfolding prepare
old_prepared = refl

prepare-Sound_example : All Sound old × (map buffered old ≡ (5, 1 ∷ 2 ∷ 3 ∷ []) ∷ [])
prepare-Sound_example =
    prepare-Sound ((5, 1 ∷ 2 ∷ 3 ∷ []) ∷ []) old ((omega arith, omega arith), tt) old_prepared

abbrev new_plan : AppendPlan
new_plan = record {
  old_header = fresh_header archive 1;
  old_committed_size = end_of archive old;
  new_entries = new;
}

planned : plan_append archive old_file new ≡ some new_plan
unfolding select check_capacity find_entry push fresh_header
planned =
    plan_append-found archive old old_file new old-Storable old-Represents (omega (arith, old_size))
    ∙ refl

plan_append-Storable_example :
    (new_plan.old_header ≡ fresh_header archive 1)
    × (new_plan.old_committed_size ≡ begin archive + length (payloads old))
    × All Sound new_plan.new_entries
    × Storable archive (old ++ new_plan.new_entries)
plan_append-Storable_example =
    plan_append-Storable archive old old_file new new_plan old-Storable old-Represents
      (omega (arith, old_size)) (second-Sound, tt) (tt, tt) (omega arith) planned
