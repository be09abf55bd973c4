-- ===== src/Cache/Record/Outcome.antt =====
-- Whether a recorded payload is queued, and what the queue may hold.
use faster_file_copy.Prelude.{
  ℕ, ◌+◌, ◌≤◌, ◌<◌, ◌≡◌, inl, inr, refl, false, not, ◌&&◌, ◌||◌, Option, none, some, List, [], ◌∷◌,
  ◌++◌, ltb, leb, ◌==◌, length, arith, Bool-cases,
}
use faster_file_copy.Prelude.Words.{add64, sub64}
use faster_file_copy.Format.Layout.{max_payload_size}
use faster_file_copy.Cache.State.{ArchiveCache, DecompCache, Settings, find, replace, contains}
use faster_file_copy.Cache.Record.{
  max_pending_memory_bytes, flush_wake_bytes, cold_ms, is_empty, is_committed, add_checked,
  admission_bytes, reject_over_cap, enqueue, over_pending_cap, over_disk_cap, admit, record_cache,
  record_decompressed,
}

-- The fields that say what is queued and how much of the disk it is charged.
pub record SameQueues (s t : DecompCache) : Type 0 where
  pub same_caches : t.caches ≡ s.caches
  pub same_pending : t.pending_bytes ≡ s.pending_bytes
  pub same_disk : t.total_cache_bytes ≡ s.total_cache_bytes
  pub same_reservations : t.committed_reservations ≡ s.committed_reservations

-- One payload has been queued, within both caps.
pub record Queued (cfg : Settings) (now archive start : ℕ) (payload : List ℕ) (s t : DecompCache)
    : Type 0 where
  pub cache : ArchiveCache
  pub bytes : ℕ
  pub cached : find s.caches archive ≡ some cache
  pub not_committed : is_committed cache (find cache.index start) ≡ false
  pub not_buffered : contains cache.buffered_offsets start ≡ false
  pub some_payload : 0 < length payload
  pub charged : length payload ≤ bytes
  pub new_pending : t.pending_bytes ≡ s.pending_bytes + bytes
  pub in_memory : s.pending_bytes + bytes ≤ max_pending_memory_bytes
  pub on_disk : s.total_cache_bytes + s.pending_bytes + bytes ≤ cfg.decomp_cache_max_bytes
  pub same_disk : t.total_cache_bytes ≡ s.total_cache_bytes
  pub same_reservations : t.committed_reservations ≡ s.committed_reservations
  pub new_caches :
      t.caches
      ≡ replace s.caches archive (record cache {
        pending =
            cache.pending
            ++ record { start_offset = start; accounted_bytes = bytes; payload = payload } ∷ [];
        buffered_offsets = start ∷ cache.buffered_offsets;
        last_access_ms = now;
      })

pub data Outcome (cfg : Settings) (now : ℕ) (archive : Option ℕ) (start : ℕ) (payload : List ℕ)
    (s t : DecompCache) : Type 0 where
  unchanged : SameQueues s t → Outcome cfg now archive start payload s t
  queued :
      (a : ℕ)
      → archive ≡ some a
      → Queued cfg now a start payload s t
      → Outcome cfg now archive start payload s t

nonempty : (payload : List ℕ) → is_empty payload ≡ false → 0 < length payload
nonempty [] h = absurd (cc)
nonempty (x ∷ payload) h = omega arith

module _ (cfg : Settings) (now : ℕ) where
  reject_over_cap-SameQueues :
      (bytes : ℕ) (s : DecompCache) → SameQueues s (reject_over_cap cfg now bytes s)
  unfolding reject_over_cap
  reject_over_cap-SameQueues bytes s =
      elim (Bool-cases (ltb 0 cfg.decomp_cache_max_bytes && leb bytes cfg.decomp_cache_max_bytes)) [
        | inl may ↦
            elim (Bool-cases (
              s.last_over_cap_notify_ms == 0
              || leb cold_ms (sub64 now s.last_over_cap_notify_ms))) [
                | inl wake ↦
                    rw (may, wake)
                      record {
                        same_caches = refl;
                        same_pending = refl;
                        same_disk = refl;
                        same_reservations = refl;
                      }
                | inr sleep ↦
                    rw (may, sleep)
                      record {
                        same_caches = refl;
                        same_pending = refl;
                        same_disk = refl;
                        same_reservations = refl;
                      }
              ]
        | inr never ↦ rw never record {
          same_caches = refl;
          same_pending = refl;
          same_disk = refl;
          same_reservations = refl;
        }
      ]

  enqueue-fields :
      (archive start : ℕ) (payload : List ℕ) (bytes : ℕ) (c : ArchiveCache) (s : DecompCache)
      → s.pending_bytes + bytes ≤ max_pending_memory_bytes
      → let t = enqueue cfg now archive start payload bytes c s in
        (t.pending_bytes ≡ s.pending_bytes + bytes)
        × (t.total_cache_bytes ≡ s.total_cache_bytes)
        × (t.committed_reservations ≡ s.committed_reservations)
        × (t.caches
            ≡ replace s.caches archive (record c {
              pending =
                  c.pending
                  ++ record { start_offset = start; accounted_bytes = bytes; payload = payload }
                    ∷ [];
              buffered_offsets = start ∷ c.buffered_offsets;
              last_access_ms = now;
            }))
  unfolding enqueue
  enqueue-fields archive start payload bytes c s fits =
      elim (Bool-cases (leb flush_wake_bytes (add64 s.pending_bytes bytes))) [
        | inl wake ↦ rw wake (ground arith, refl, refl, refl)
        | inr sleep ↦ rw sleep (ground arith, refl, refl, refl)
      ]

  add_checked-some : (lhs rhs sum : ℕ) → add_checked lhs rhs ≡ some sum → sum ≡ lhs + rhs
  unfolding add_checked
  add_checked-some lhs rhs sum h = ground arith

  admission_bytes_covers :
      (size : ℕ) (o : Option ℕ) (bytes : ℕ) → admission_bytes size o ≡ some bytes → size ≤ bytes
  unfolding admission_bytes
  admission_bytes_covers size none bytes h = absurd (cc)
  admission_bytes_covers size (some overhead) bytes h =
      ground (arith, add_checked-some size overhead bytes h)

  admit-Outcome :
      (archive start : ℕ) (payload : List ℕ) (c : ArchiveCache) (o : Option ℕ) (s : DecompCache)
      → find s.caches archive ≡ some c
      → is_committed c (find c.index start) ≡ false
      → contains c.buffered_offsets start ≡ false
      → 0 < length payload
      → ((bytes : ℕ) → o ≡ some bytes → length payload ≤ bytes)
      → Outcome cfg now (some archive) start payload s (admit cfg now archive start payload c o s)
  unfolding admit
  admit-Outcome archive start payload c none s f i b some_payload covers = unchanged (record {
    same_caches = refl;
    same_pending = refl;
    same_disk = refl;
    same_reservations = refl;
  })
  admit-Outcome archive start payload c (some bytes) s f i b some_payload covers =
      elim (Bool-cases (over_pending_cap cfg now bytes s)) [
        | inl full ↦ rw full (
            unchanged (record {
              same_caches = refl;
              same_pending = refl;
              same_disk = refl;
              same_reservations = refl;
            }))
        | inr room ↦ elim (Bool-cases (over_disk_cap cfg now bytes s)) [
          | inl over ↦ rw (room, over) (unchanged (reject_over_cap-SameQueues bytes s))
          | inr under ↦
              let fits : s.pending_bytes + bytes ≤ max_pending_memory_bytes = ground arith in
              let is = enqueue-fields archive start payload bytes c s fits in
              rw (room, under)
                (queued archive refl (record {
                  cache = c;
                  bytes = bytes;
                  cached = f;
                  not_committed = i;
                  not_buffered = b;
                  some_payload = some_payload;
                  charged = covers bytes refl;
                  new_pending = is.0;
                  in_memory = fits;
                  on_disk = ground arith;
                  same_disk = is.1;
                  same_reservations = is.2;
                  new_caches = is.3;
                }))
        ]
      ]

  module _ (entry_count : ℕ → ℕ) where
    record_cache-Outcome :
        (archive start : ℕ) (payload : List ℕ) (o : Option ArchiveCache) (s : DecompCache)
        → find s.caches archive ≡ o
        → 0 < length payload
        → Outcome cfg now
            (some archive)
            start
            payload
            s
            (record_cache cfg now entry_count archive start payload o s)
    unfolding record_cache
    record_cache-Outcome archive start payload none s f some_payload = unchanged (record {
      same_caches = refl;
      same_pending = refl;
      same_disk = refl;
      same_reservations = refl;
    })
    record_cache-Outcome archive start payload (some c) s f some_payload =
        elim (Bool-cases
          (is_committed c (find c.index start) || contains c.buffered_offsets start)) [
            | inl known ↦ rw known (
                unchanged (record {
                  same_caches = refl;
                  same_pending = refl;
                  same_disk = refl;
                  same_reservations = refl;
                }))
            | inr new ↦ rw new (
                admit-Outcome archive start payload c _ s f (ground arith) (ground arith)
                  some_payload (admission_bytes_covers (length payload) _))
          ]

    pub record_decompressed-Outcome :
        (archive : Option ℕ) (start : ℕ) (payload : List ℕ) (s : DecompCache)
        → Outcome cfg now archive start payload s
            (record_decompressed cfg now entry_count archive start payload s)
    unfolding record_decompressed
    record_decompressed-Outcome none start payload s = unchanged (record {
      same_caches = refl;
      same_pending = refl;
      same_disk = refl;
      same_reservations = refl;
    })
    record_decompressed-Outcome (some archive) start payload s =
        elim (Bool-cases
          (not s.building || is_empty payload || ltb max_payload_size (length payload))) [
            | inl refused ↦ rw refused (
                unchanged (record {
                  same_caches = refl;
                  same_pending = refl;
                  same_disk = refl;
                  same_reservations = refl;
                }))
            | inr taken ↦ rw taken (
                record_cache-Outcome archive start payload _ s refl
                  (nonempty payload (ground arith)))
          ]
