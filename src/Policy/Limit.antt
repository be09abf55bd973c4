-- ===== src/Policy/Limit.antt =====
-- Skyrim/src/CacheLimitPolicy.h: the ceiling of the cache and the room that eviction must leave.
use faster_file_copy.Prelude.{
  ℕ, ◌+◌, ◌-◌, ◌*◌, ◌/◌, ◌≤◌, min, ◌≡◌, ◌↔◌, Bool, true, false, not, ◌&&◌, ltb, ◌==◌, if◌then◌else◌,
  u64_max, arith,
}

abbrev pub bytes_per_mib : ℕ
bytes_per_mib = 1024 * 1024

pub data Mode : Type 0 where
  unavailable automatic configured clamped : Mode

pub record Decision : Type 0 where
  pub configured_mib : ℕ
  pub configured_bytes : ℕ
  pub physical_bytes : ℕ
  pub automatic_ceiling_bytes : ℕ
  pub effective_bytes : ℕ
  pub mode : Mode

pub is_unavailable : Mode → Bool
is_unavailable unavailable = true
is_unavailable _ = false

-- explicit operator bool
unfoldable pub usable : Decision → Bool
unfolding is_unavailable
usable d = ltb 0 d.effective_bytes && not (is_unavailable d.mode)

unfoldable pub mib_to_bytes_saturating : ℕ → ℕ
mib_to_bytes_saturating mib =
    if ltb (u64_max / bytes_per_mib) mib then u64_max else mib * bytes_per_mib

unfoldable pub add_saturating : ℕ → ℕ → ℕ
add_saturating lhs rhs = if ltb (u64_max - lhs) rhs then u64_max else lhs + rhs

unfoldable pub required_headroom : ℕ → ℕ → ℕ → ℕ
unfolding add_saturating
required_headroom cap pending new = min cap (add_saturating pending new)

unfoldable pub eviction_target : ℕ → ℕ → ℕ
eviction_target cap headroom = cap - min headroom cap

unfoldable pub decide : ℕ → ℕ → Decision
unfolding mib_to_bytes_saturating
decide mib physical =
    let wanted = mib_to_bytes_saturating mib in
    let ceiling = physical / 4 in
    let r : Decision = record {
      configured_mib = mib;
      configured_bytes = wanted;
      physical_bytes = physical;
      automatic_ceiling_bytes = ceiling;
      effective_bytes = 0;
      mode = unavailable;
    } in
    if ceiling == 0
    then r
    else if mib == 0
    then record r { effective_bytes = ceiling; mode = automatic }
    else record r {
      effective_bytes = min wanted ceiling;
      mode = if ltb ceiling wanted then clamped else configured;
    }

-- For a machine with less than 2 ^ 64 bytes: the decision is usable exactly from four bytes of
-- RAM on; the effective size is a quarter of the RAM, or the configured ceiling if that is smaller
-- and not 0, the ceiling read as mib * 2 ^ 20 with no overflow; and the mode says which it was.
pub decide_exact :
    (mib physical : ℕ)
    → physical ≤ u64_max
    → ((usable (decide mib physical) ≡ true) ↔ (4 ≤ physical))
      × ((decide mib physical).effective_bytes
          ≡ (if mib == 0 then physical / 4 else min (mib * bytes_per_mib) (physical / 4)))
      × ((decide mib physical).mode ≡ (
          if ltb physical 4
          then unavailable
          else if mib == 0
          then automatic
          else if ltb (physical / 4) (mib * bytes_per_mib)
          then clamped
          else configured))
unfolding usable decide
decide_exact mib physical h =
    (((λ e. ground arith), (λ e. ground arith)), ground arith, ground arith)

-- Once eviction has brought the files down to the target for a demand that fits under the cap at
-- all, the pending bytes and the new ones fit beside them.
pub eviction_makes_room :
    (cap pending new disk : ℕ)
    → cap ≤ u64_max
    → pending + new ≤ cap
    → disk ≤ eviction_target cap (required_headroom cap pending new)
    → disk + pending + new ≤ cap
unfolding eviction_target required_headroom
eviction_makes_room cap pending new disk hc fits h = ground arith
