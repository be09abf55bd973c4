-- ===== src/Cache/Commit/Prepared.antt =====
-- Skyrim/src/DecompCache.cpp, PreparePending: the checksums of the payloads.
use faster_file_copy.Prelude.{
  ℕ, ◌^◌, ◌≤◌, ◌<◌, ◌≡◌, inl, inr, refl, ap, false, ◌||◌, some, List, [], ◌∷◌, length, map, All,
  arith, Bool-cases, Option-cases, ltb, u32_max, u32_mod,
}
use faster_file_copy.Prelude.Words.{mul32}
use faster_file_copy.Format.Checksum.{checksum, checksum_bytes, finish, avalanche}
use faster_file_copy.Format.Checksum.Lanes.{shift-lt}
use faster_file_copy.Format.Layout.{max_payload_size}
use faster_file_copy.Cache.Record.{is_empty}
use faster_file_copy.Cache.Commit.{PreparedPending, prepare}
use faster_file_copy.Cache.Commit.Content.{Sound}

mul32-lt : (a b : ℕ) → mul32 a b < u32_mod
mul32-lt a b = omega arith

avalanche-lt : (h : ℕ) → avalanche h < u32_mod
unfolding avalanche
avalanche-lt h = shift-lt _ _ (mul32-lt _ _)

pub checksum-lt : (p : List ℕ) (n : ℕ) → checksum (some p) n < u32_mod
unfolding checksum checksum_bytes finish
checksum-lt p n = avalanche-lt _

-- A buffered payload that the format admits.
abbrev pub Admissible : ℕ × List ℕ → Type 0
Admissible q = (q.0 < 256 ^ 4) × (length q.1 ≤ max_payload_size)

abbrev pub buffered : PreparedPending → ℕ × List ℕ
buffered p = (p.start_offset, p.payload)

abbrev prepared : ℕ → List ℕ → PreparedPending
prepared start payload = record {
  start_offset = start;
  payload = payload;
  checksum_value = checksum (some payload) (length payload);
}

-- Take buffered payloads with 32-bit start offsets and at most 256 MiB each. If PreparePending returns
-- them, it keeps the payloads and their order, and each has bytes, lies within the bounds of the
-- format, and has the checksum of its bytes, which a 32-bit word holds.
pub prepare-Sound :
    (pending : List (ℕ × List ℕ)) (l : List PreparedPending)
    → All Admissible pending
    → prepare pending ≡ some l
    → All Sound l × (map buffered l ≡ pending)
unfolding prepare
prepare-Sound [] l a h = let e : l ≡ [] = cc in rw e (tt, refl)
prepare-Sound ((start, payload) ∷ pending) l a h =
    elim (Bool-cases (is_empty payload || ltb u32_max (length payload))) [
      | inl refused ↦ absurd (ground (arith, rw (refused, prepare) at h))
      | inr taken ↦ elim (Option-cases (prepare pending)) [
        | inl none_left ↦ absurd (ground (arith, rw (taken, none_left, prepare) at h))
        | inr (rest, made) ↦
            let r = prepare-Sound pending rest a.1 made in
            let e : l ≡ prepared start payload ∷ rest =
              (let e = rw (taken, made, prepare) at h in cc e) in
            let first : Sound (prepared start payload) = record {
              nonempty = nonempty_taken payload taken;
              small = a.0.1;
              start_fits = a.0.0;
              summed = refl;
              checksum_fits = (let c = checksum-lt payload (length payload) in omega (arith, c));
            } in
            rw e ((first, r.0), ap (◌∷◌ (start, payload)) r.1)
      ]
    ]
  where
    nonempty_taken : (b : List ℕ) → (is_empty b || ltb u32_max (length b)) ≡ false → 0 < length b
    nonempty_taken [] t = absurd (ground arith)
    nonempty_taken (x ∷ b) t = omega arith
