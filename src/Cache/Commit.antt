-- ===== src/Cache/Commit.antt =====
-- Skyrim/src/DecompCache.cpp: WriteAt, PreparePending, and the files that WriteFreshFile and AppendFile
-- write. A file handle is a file of Cache.Volume; each Win32 call, and each look at the cancel flag
-- before it, takes one answer of the environment. Where the answers run out, the system crashes.
pub mod Ranges
pub mod Keeps
pub mod Effect
pub mod Content
pub mod ReadBack
pub mod Plan
pub mod Planned
pub mod Fresh
pub mod Chunks
pub mod Prepared
pub mod Durable
pub mod Publish
pub mod Steps
pub mod Append
pub mod Rollback
pub mod Restore
pub mod Sample
mod Tests
use faster_file_copy.Prelude.{
  ℕ, zero, suc, ◌+◌, ◌*◌, ◌-◌, ◌≤◌, ◌≡◌, refl, Bool, true, false, not, ◌&&◌, ◌||◌, Option, none,
  some, List, [], ◌∷◌, ◌++◌, ltb, leb, ◌==◌, if◌then◌else◌, length, take, drop, map, u32_max,
  u64_max,
}
use faster_file_copy.Format.Checksum.{checksum}
use faster_file_copy.Format.Layout.{
  magic, version, Header, Entry, header_size, entry_size, ArchiveIdentity, ValidationResult,
  structural_only, no_error,
}
use faster_file_copy.Format.Encode.{encode_header, encode_entry}
use faster_file_copy.Cache.Volume.{Volume}
use faster_file_copy.Cache.Record.{add_checked, is_empty}

-- 8 MiB
abbrev pub write_chunk_size : ℕ
write_chunk_size = 8 * 1024 * 1024

pub record PreparedPending : Type 0 where
  pub start_offset : ℕ
  pub payload : List ℕ
  pub checksum_value : ℕ

pub record Answer : Type 0 where
  -- The cancel flag, where the code looks at it.
  pub cancelled : Bool
  -- Why the call fails: after so many bytes of a write; `none` if it succeeds.
  pub failure : Option ℕ

pub data Call : Type 0 where
  seek : Call
  -- WriteFile of one chunk; the flag says whether cancelling prevents it.
  write_chunk : Bool → ℕ → List ℕ → Call
  -- `!Cancelled(a_work) && Truncate`, or Truncate alone
  truncate : Bool → ℕ → Call
  flush_file : Call
  -- `if (!Cancelled(a_work)) ok = FlushFileBuffers(...)`
  flush_unless_cancelled : Call
  -- `ok = false`, after an overflow of the cursor
  overflow : Call

pub data Status : Type 0 where
  finished failed crashed : Status

-- WriteAt: a seek, then the chunks.
unfoldable pub write_chunks : Bool → ℕ → ℕ → List ℕ → List Call
write_chunks cancellable zero o b = []
write_chunks cancellable (suc fuel) o b =
    let rest = write_chunks cancellable fuel (o + write_chunk_size) (drop write_chunk_size b) in
    if is_empty b then [] else write_chunk cancellable o (take write_chunk_size b) ∷ rest

unfoldable pub write_at : Bool → ℕ → List ℕ → List Call
unfolding write_chunks
write_at cancellable o b = seek ∷ write_chunks cancellable (length b) o b

-- A call that succeeds with one file, or fails with another.
unfoldable pub attempt {ℓ} : {A : Type ℓ} → Option ℕ → A → (ℕ → A) → Bool × A
attempt none done torn = (true, done)
attempt (some got) done torn = (false, torn got)

module _ (V : Volume) where
  -- One call by its answer: whether it succeeds, and the file behind it.
  unfoldable pub perform : Call → Answer → V.File → Bool × V.File
  unfolding attempt
  perform seek a f = attempt a.failure f (λ got. f)
  perform (write_chunk cancellable o b) a f =
      if cancellable && a.cancelled
      then (false, f)
      else attempt a.failure (V.write f o b) (V.torn f o b)
  perform (truncate cancellable size) a f =
      if cancellable && a.cancelled
      then (false, f)
      else attempt a.failure (V.set_size f size) (λ got. f)
  perform flush_file a f = attempt a.failure (V.flush f) (λ got. f)
  perform flush_unless_cancelled a f =
      if a.cancelled then (true, f) else attempt a.failure (V.flush f) (λ got. f)
  perform overflow a f = (false, f)

  -- A chain of calls with `ok &&`, and the answers left.
  unfoldable pub run : List Call → List Answer → V.File → Status × V.File × List Answer
  unfolding perform
  run [] answers f = (finished, f, answers)
  run (c ∷ calls) [] f = (crashed, f, [])
  run (c ∷ calls) (a ∷ answers) f =
      let r = perform c a f in
      let rest = run calls answers r.1 in if r.0 then rest else (failed, r.1, answers)

-- The checksums of the payloads; an empty payload, or one that is too long, refuses all.
unfoldable pub prepare : List (ℕ × List ℕ) → Option (List PreparedPending)
prepare [] = some []
prepare ((start, payload) ∷ pending) =
    let rest = prepare pending in
    if is_empty payload || ltb u32_max (length payload) then none else elim rest [
      | none ↦ none
      | some l ↦ some (
          record {
            start_offset = start;
            payload = payload;
            checksum_value = checksum (some payload) (length payload);
          }
          ∷ l)
    ]

-- The index entries for payloads from a cursor on, unless it overflows.
unfoldable pub place : ℕ → List PreparedPending → Option (List Entry)
unfolding add_checked
place cursor [] = some []
place cursor (p ∷ pending) =
    let rest = place (cursor + length p.payload) pending in
    elim (add_checked cursor (length p.payload)) [
      | none ↦ none
      | some next ↦ elim rest [
        | none ↦ none
        | some l ↦ some (
            record {
              start_offset = p.start_offset;
              decomp_size = length p.payload;
              cache_offset = cursor;
              checksum_value = p.checksum_value;
            }
            ∷ l)
      ]
    ]

unfoldable pub encode_entries : List Entry → List ℕ
encode_entries [] = []
encode_entries (e ∷ es) = encode_entry e ++ encode_entries es

-- The loop that writes the payloads one after another.
unfoldable pub write_payloads : ℕ → List PreparedPending → List Call
unfolding write_at
write_payloads o [] = []
write_payloads o (p ∷ pending) =
    write_at true o p.payload ++ write_payloads (o + length p.payload) pending

abbrev pub index_slot : ℕ → ℕ
index_slot i = header_size + i * entry_size

-- The index and then the header, each followed by a flush.
unfoldable pub publish : Header → List Entry → List Call
unfolding write_at encode_entries encode_header
publish old entries =
    if is_empty entries
    then []
    else write_at true (index_slot old.entry_count) (encode_entries entries)
      ++ (flush_file
          ∷ (write_at true 0
                (encode_header (record old { entry_count = old.entry_count + length entries }))
              ++ (flush_file ∷ [])))

unfoldable pub append_placed : Header → ℕ → List PreparedPending → Option (List Entry) → List Call
unfolding write_payloads publish
append_placed old old_size pending none = overflow ∷ []
append_placed old old_size pending (some entries) =
    write_payloads old_size pending ++ (flush_unless_cancelled ∷ publish old entries)

-- The calls of AppendFile from the truncation on.
unfoldable pub append_calls : Header → ℕ → List PreparedPending → List Call
unfolding append_placed place
append_calls old old_size pending =
    truncate true old_size ∷ append_placed old old_size pending (place old_size pending)

-- What follows a failure: three statements whose results are ignored.
unfoldable pub rollback_calls : Header → ℕ → List (List Call)
unfolding write_at encode_header
rollback_calls old old_size =
    write_at false 0 (encode_header old) ∷ (truncate false old_size ∷ []) ∷ (flush_file ∷ []) ∷ []

module _ (V : Volume) where
  unfoldable pub run_statements : List (List Call) → Status × V.File × List Answer → Status × V.File
  unfolding run
  run_statements [] (crashed, f, answers) = (crashed, f)
  run_statements [] (finished, f, answers) = (failed, f)
  run_statements [] (failed, f, answers) = (failed, f)
  run_statements (calls ∷ statements) (crashed, f, answers) = (crashed, f)
  run_statements (calls ∷ statements) (finished, f, answers) =
      run_statements statements (run V calls answers f)
  run_statements (calls ∷ statements) (failed, f, answers) =
      run_statements statements (run V calls answers f)

  unfoldable pub after_failure : Header → ℕ → Status × V.File × List Answer → Status × V.File
  unfolding run_statements rollback_calls
  after_failure old old_size (finished, f, answers) = (finished, f)
  after_failure old old_size (crashed, f, answers) = (crashed, f)
  after_failure old old_size (failed, f, answers) =
      run_statements (rollback_calls old old_size) (failed, f, answers)

  unfoldable pub append_file :
      Header → ℕ → List PreparedPending → List Answer → V.File → Status × V.File
  unfolding after_failure run append_calls
  append_file old old_size pending answers f =
      after_failure old old_size (run V (append_calls old old_size pending) answers f)

unfoldable pub fresh_header : ArchiveIdentity → ℕ → Header
fresh_header id count = record {
  magic_bytes = magic;
  version_number = version;
  bsa_file_size = id.file_size;
  bsa_last_write = id.last_write;
  bsa_fingerprint = id.fingerprint;
  bsa_entry_count = id.archive_entries;
  index_capacity = id.archive_entries;
  entry_count = count;
}

-- The calls that WriteFreshFile makes on its new, empty file.
unfoldable pub fresh_calls : ArchiveIdentity → List PreparedPending → List Entry → List Call
unfolding write_at encode_header encode_entries write_payloads fresh_header
fresh_calls id pending entries =
    write_at true 0 (encode_header (fresh_header id (length entries)))
    ++ (write_at true header_size (encode_entries entries)
        ++ (write_payloads (index_slot id.archive_entries) pending
            ++ (flush_unless_cancelled ∷ [])))
