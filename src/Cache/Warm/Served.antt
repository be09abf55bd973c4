-- ===== src/Cache/Warm/Served.antt =====
-- Skyrim/src/DecompCache.cpp: Lookup behind the warm pass.
use faster_file_copy.Prelude.{ℕ, ◌+◌, ◌-◌, ◌≤◌, ◌<◌, ◌≡◌, Bool, true, Option, some, List, arith}
use faster_file_copy.Policy.Warm.{is_range_warm, is_range_warm_exact}
use faster_file_copy.Cache.State.{LookupResult, DecompCache, Settings}
use faster_file_copy.Cache.Lookup.{lookup}
use faster_file_copy.Cache.Lookup.Served.{lookup-Served}
use faster_file_copy.Cache.Warm.Touch.{Resident}
use faster_file_copy.Cache.Warm.Pass.{PrefaultedResident}

-- With prefaulting on, and every page up to the prefaulted mark of the mapping in memory, a lookup that
-- answers names a range of the mapping of which every page is in memory.
pub served_resident :
    (cfg : Settings) (read : ℕ → ℕ → Option (List ℕ)) (now archive start : ℕ) (s : DecompCache)
    (r : LookupResult) (readable : ℕ → Bool) (page_size : ℕ)
    → cfg.prefault_decomp_cache ≡ true
    → PrefaultedResident readable page_size r.owner s
    → (lookup cfg read now archive start s).0 ≡ some r
    → (x : ℕ) → r.data_address - (s.views r.owner).base ≤ x
    → x < r.data_address - (s.views r.owner).base + r.size
    → Resident readable page_size x
served_resident cfg read now archive start s r readable page_size on resident h x low high =
    let is = lookup-Served cfg read now archive start s r h in
    let view = s.views r.owner in
    let offset = r.data_address - view.base in
    let warm : is_range_warm offset is.entry.size view.committed_size view.prefaulted_through
        ≡ true =
      (let w = rw on at is.warm in ground (arith, w)) in
    let inside =
      (is_range_warm_exact offset is.entry.size view.committed_size view.prefaulted_through).0
        warm in
    let whole = is.whole in let end = inside.2 in resident x (omega (arith, high, whole, end))
