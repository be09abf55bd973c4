-- ===== src/Cache/Commit/Plan.antt =====
-- Skyrim/src/DecompCache.cpp, AppendFile and WriteFreshFile: what they decide before they write. A
-- mapping that the system refuses is not modelled: AppendFile then writes a fresh file.
use faster_file_copy.Prelude.{
  ℕ, ◌*◌, ◌-◌, Bool, true, false, ◌&&◌, ◌||◌, Option, none, some, List, [], ◌∷◌, ltb, ◌==◌,
  if◌then◌else◌, length, take, drop,
}
use faster_file_copy.Format.Checksum.{checksum}
use faster_file_copy.Format.Layout.{
  Header, Entry, header_size, entry_size, ArchiveIdentity, ValidationResult, structural_only,
}
use faster_file_copy.Format.Validate.{validate, is_no_error}
use faster_file_copy.Format.Validate.Spec.{entries}
use faster_file_copy.Cache.Record.{add_checked, is_empty}
use faster_file_copy.Cache.Commit.{PreparedPending, Call, place, fresh_calls}

-- The map `existing`: the first entry with a start offset.
unfoldable pub find_entry : List Entry → ℕ → Option Entry
find_entry [] start = none
find_entry (e ∷ es) start = if e.start_offset == start then some e else find_entry es start

unfoldable pub push {ℓ} : {A : Type ℓ} → A → Option (List A) → Option (List A)
push a none = none
push a (some l) = some (a ∷ l)

-- The payload stands in the file already, and its bytes have their checksum.
unfoldable pub same_payload : List ℕ → Entry → PreparedPending → Bool
same_payload bytes e p =
    e.decomp_size == length p.payload
    && e.checksum_value == p.checksum_value
    && checksum (some (take e.decomp_size (drop e.cache_offset bytes))) e.decomp_size
      == e.checksum_value

-- The payloads to append; `none` asks for a fresh file.
unfoldable pub select : List ℕ → List Entry → List PreparedPending → Option (List PreparedPending)
unfolding find_entry push same_payload
select bytes es [] = some []
select bytes es (p ∷ pending) =
    let rest = select bytes es pending in
    elim (find_entry es p.start_offset) [
      | none ↦ push p rest
      | some e ↦ if same_payload bytes e p then rest else none
    ]

pub record AppendPlan : Type 0 where
  pub old_header : Header
  pub old_committed_size : ℕ
  pub new_entries : List PreparedPending

unfoldable pub check_capacity : ValidationResult → Option (List PreparedPending) → Option AppendPlan
check_capacity v none = none
check_capacity v (some new) =
    if ltb (v.header.index_capacity - v.header.entry_count) (length new)
    then none
    else some
        (record { old_header = v.header; old_committed_size = v.valid_size; new_entries = new })

unfoldable pub plan_append : ArchiveIdentity → List ℕ → List PreparedPending → Option AppendPlan
unfolding select check_capacity
plan_append id bytes pending =
    if ltb (length bytes) header_size
    then none
    else (let v = validate (some bytes) (some id) structural_only true in
        if is_no_error v.error
        then check_capacity v (select bytes (entries bytes 0 v.header.entry_count) pending)
        else none)

-- The set `offsets` refuses an offset that it has.
unfoldable pub has : List ℕ → ℕ → Bool
has [] x = false
has (y ∷ l) x = y == x || has l x

unfoldable pub repeats : List ℕ → List PreparedPending → Bool
unfolding has
repeats seen [] = false
repeats seen (p ∷ pending) = has seen p.start_offset || repeats (p.start_offset ∷ seen) pending

-- The calls of WriteFreshFile on its new file, if it gets that far.
unfoldable pub plan_fresh : ArchiveIdentity → List PreparedPending → Option (List Call)
unfolding repeats add_checked place
plan_fresh id pending =
    if is_empty pending || ltb id.archive_entries (length pending)
    then none
    else if repeats [] pending
    then none
    else elim (add_checked header_size (id.archive_entries * entry_size)) [
      | none ↦ none
      | some data_start ↦ elim (place data_start pending) [
        | none ↦ none
        | some entries ↦ some (fresh_calls id pending entries)
      ]
    ]
