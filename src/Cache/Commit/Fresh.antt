-- ===== src/Cache/Commit/Fresh.antt =====
-- Skyrim/src/DecompCache.cpp, WriteFreshFile: the file that it writes.
use faster_file_copy.Prelude.{
  ℕ, ◌+◌, ◌*◌, ◌-◌, ◌^◌, ◌≤◌, ◌<◌, ◌≡◌, ◌≢◌, inl, inr, refl, ap, ◌∙◌, true, false, some, List, [],
  ◌∷◌, ◌++◌, length, length-append, All, arith, Bool-cases, Option-cases, ltb, ◌==◌, u64_max,
}
use faster_file_copy.Prelude.Splice.{splice, length-splice, splice-splice}
use faster_file_copy.Format.Layout.{
  Entry, header_size, entry_size, max_index_capacity, ArchiveIdentity,
}
use faster_file_copy.Format.Encode.{encode_header}
use faster_file_copy.Format.Validate.Spec.{Distinct}
use faster_file_copy.Cache.Record.{add_checked}
use faster_file_copy.Cache.Volume.{Volume}
use faster_file_copy.Cache.Commit.{
  PreparedPending, Call, flush_unless_cancelled, Answer, finished, place, write_at, write_payloads,
  fresh_header, fresh_calls, run,
}
use faster_file_copy.Cache.Commit.Ranges.{Has, splice-Has, splice-Has_here}
use faster_file_copy.Cache.Commit.Effect.{
  payloads, effect, run-effect, effect-append, effect-write_at, effect-write_payloads,
}
use faster_file_copy.Cache.Commit.Content.{
  Sound, Storable, Represents, begin, layout, length-layout, entry_for, starts,
}
use faster_file_copy.Cache.Commit.Durable.{header_of, index_of, length-header_of, length-index_of}
use faster_file_copy.Cache.Commit.Append.{Sound-nonempty}
use faster_file_copy.Cache.Commit.Plan.{has, repeats, plan_fresh}
use faster_file_copy.Cache.Commit.Planned.{absent-each}

has-false : (seen : List ℕ) (x : ℕ) → has seen x ≡ false → All (λ z. z ≢ x) seen
unfolding has
has-false [] x h = tt
has-false (y ∷ seen) x h = elim (Bool-cases (y == x)) [
  | inl same ↦ absurd (ground (arith, rw same at h))
  | inr other ↦ ((λ eq. ground (arith, other, eq)), has-false seen x (rw other at h))
]

repeats-false :
    (seen : List ℕ) (l : List PreparedPending)
    → repeats seen l ≡ false
    → All (λ x. All (λ z. z ≢ x) seen) (starts l) × Distinct (starts l)
unfolding repeats
repeats-false seen [] h = (tt, tt)
repeats-false seen (p ∷ l) h = elim (Bool-cases (has seen p.start_offset)) [
  | inl twice ↦ absurd (ground (arith, rw twice at h))
  | inr once ↦
      let rest = repeats-false (p.start_offset ∷ seen) l (rw once at h) in
      let each = absent-each p.start_offset seen (starts l) rest.0 in
      ((has-false seen p.start_offset once, each.1), (each.0, rest.1))
]

place-some :
    (c : ℕ) (l : List PreparedPending) (es : List Entry)
    → c ≤ u64_max
    → place c l ≡ some es
    → (c + length (payloads l) ≤ u64_max) × (es ≡ layout c l)
unfolding place
place-some c [] es small h = (omega (arith, small), cc)
place-some c (p ∷ l) es small h = elim (Bool-cases (ltb (u64_max - c) (length p.payload))) [
  | inl over ↦ absurd (ground (arith, rw (over, place) at h))
  | inr fits ↦ elim (Option-cases (place (c + length p.payload) l)) [
    | inl none_left ↦ absurd (ground (arith, rw (fits, none_left, place) at h))
    | inr (rest, placed) ↦
        let r = place-some (c + length p.payload) l rest (ground (arith, fits, small)) placed in
        let e : es ≡ entry_for c p ∷ rest = (let e = rw (fits, placed, place) at h in cc e) in
        (omega (arith, r.0, length-append p.payload (payloads l)), e ∙ ap (◌∷◌ (entry_for c p)) r.1)
  ]
]

-- The archive's numbers fit the header, and its entries the index.
pub record IdentityFits (id : ArchiveIdentity) : Type 0 where
  pub size_fits : id.file_size < 256 ^ 8
  pub write_fits : id.last_write < 256 ^ 8
  pub fingerprint_fits : id.fingerprint < 256 ^ 8
  pub capacity_small : id.archive_entries ≤ max_index_capacity

effect-payloads :
    (o : ℕ) (l : List PreparedPending) (d : List ℕ)
    → 0 < length l
    → All Sound l
    → effect (write_payloads o l) d ≡ splice d o (payloads l)
unfolding write_payloads
effect-payloads o [] d some_payload s = absurd (omega (arith, some_payload))
effect-payloads o (p ∷ l) d some_payload s =
    effect-append (write_at true o p.payload) (write_payloads (o + length p.payload) l) d
    ∙ ap (effect (write_payloads (o + length p.payload) l))
        (effect-write_at true o p.payload d s.0.nonempty)
    ∙ effect-write_payloads (o + length p.payload) l (splice d o p.payload)
        (omega (arith, length-splice d o p.payload)) (Sound-nonempty l s.1)
    ∙ splice-splice d o p.payload (payloads l)

three_writes :
    (h idx : List ℕ) (o : ℕ) (l : List PreparedPending) (d : List ℕ)
    → 0 < length h
    → 0 < length idx
    → 0 < length l
    → All Sound l
    → effect
        (write_at true 0 h
          ++ (write_at true header_size idx
              ++ (write_payloads o l ++ (flush_unless_cancelled ∷ []))))
        d
      ≡ splice (splice (splice d 0 h) header_size idx) o (payloads l)
three_writes h idx o l d some_h some_idx some_payload s =
    effect-append (write_at true 0 h)
      (write_at true header_size idx ++ (write_payloads o l ++ (flush_unless_cancelled ∷ []))) d
    ∙ effect-append (write_at true header_size idx)
        (write_payloads o l ++ (flush_unless_cancelled ∷ [])) (effect (write_at true 0 h) d)
    ∙ effect-append (write_payloads o l) (flush_unless_cancelled ∷ [])
        (effect (write_at true header_size idx) (effect (write_at true 0 h) d))
    ∙ ap (λ x. effect (write_payloads o l) (effect (write_at true header_size idx) x))
        (effect-write_at true 0 h d some_h)
    ∙ ap (effect (write_payloads o l))
        (effect-write_at true header_size idx (splice d 0 h) some_idx)
    ∙ effect-payloads o l (splice (splice d 0 h) header_size idx) some_payload s

pub three_ranges :
    (h idx body : List ℕ) (o : ℕ) (d : List ℕ)
    → length h ≡ 44
    → header_size + length idx ≤ o
    → Has (splice (splice (splice d 0 h) header_size idx) o body) 0 h
      × Has (splice (splice (splice d 0 h) header_size idx) o body) header_size idx
      × Has (splice (splice (splice d 0 h) header_size idx) o body) o body
three_ranges h idx body o d e fits =
    let one = splice d 0 h in
    let two = splice one header_size idx in
    (
      splice-Has two o body 0 h (inl (omega (arith, e, fits)))
          (splice-Has one header_size idx 0 h (inl (omega (arith, e))) (splice-Has_here d 0 h)),
      splice-Has two o body header_size idx (inl fits) (splice-Has_here one header_size idx),
      splice-Has_here two o body,
    )

abbrev fresh_with : ArchiveIdentity → List PreparedPending → ℕ → List Call
fresh_with id l n =
    write_at true 0 (encode_header (fresh_header id n))
    ++ (write_at true header_size (index_of id l)
        ++ (write_payloads (begin id) l ++ (flush_unless_cancelled ∷ [])))

fresh_calls-layout :
    (id : ArchiveIdentity) (l : List PreparedPending)
    → fresh_calls id l (layout (begin id) l) ≡ fresh_with id l (length (layout (begin id) l))
unfolding fresh_calls
fresh_calls-layout id l = refl

fresh_calls-Represents :
    (V : Volume) (id : ArchiveIdentity) (l : List PreparedPending) (answers : List Answer)
    (f : V.File)
    → Storable id l
    → (run V (fresh_calls id l (layout (begin id) l)) answers f).0 ≡ finished
    → Represents id l (V.bytes (run V (fresh_calls id l (layout (begin id) l)) answers f).1)
fresh_calls-Represents V id l answers f s h =
    let index : length (index_of id l) ≡ length l * entry_size = length-index_of id l in
    let calls : fresh_calls id l (layout (begin id) l) ≡ fresh_with id l (length l) =
      fresh_calls-layout id l ∙ ap (fresh_with id l) (length-layout (begin id) l) in
    let written =
      run-effect V (fresh_calls id l (layout (begin id) l)) answers f h
      ∙ ap (λ c. effect c (V.bytes f)) calls
      ∙ three_writes (header_of id l) (index_of id l) (begin id) l (V.bytes f)
          (omega (arith, length-header_of id l)) (omega (arith, index, s.some_entry)) s.some_entry
          s.sound in
    let ranges =
      three_ranges (header_of id l) (index_of id l) (payloads l) (begin id) (V.bytes f)
        (length-header_of id l) (omega (arith, index, s.within_capacity)) in
    record {
      has_header = rw written ranges.0;
      has_index = rw written ranges.1;
      has_data = rw written ranges.2;
    }

-- What is refused before the file is created.
plan_fresh-Storable :
    (id : ArchiveIdentity) (l : List PreparedPending) (calls : List Call)
    → IdentityFits id
    → All Sound l
    → plan_fresh id l ≡ some calls
    → Storable id l × (calls ≡ fresh_calls id l (layout (begin id) l))
unfolding plan_fresh add_checked
plan_fresh-Storable id [] calls fits sound h = absurd (ground arith)
plan_fresh-Storable id (p ∷ l) calls fits sound h =
    elim (Bool-cases (ltb id.archive_entries (length (p ∷ l)))) [
      | inl many ↦ absurd (ground (arith, rw (many, plan_fresh) at h))
      | inr within ↦ elim (Bool-cases (repeats [] (p ∷ l))) [
        | inl twice ↦ absurd (ground (arith, rw (within, twice, plan_fresh) at h))
        | inr once ↦
            let small : ltb (u64_max - header_size) (id.archive_entries * entry_size) ≡ false =
              (let c = fits.capacity_small in ground (arith, c)) in
            elim (Option-cases (place (begin id) (p ∷ l))) [
              | inl over ↦ absurd (ground (arith, rw (within, once, small, over, plan_fresh) at h))
              | inr (es, placed) ↦
                  let r =
                    place-some (begin id) (p ∷ l) es (omega (arith, fits.capacity_small)) placed in
                  let e = rw (within, once, small, placed, plan_fresh) at h in
                  let made : calls ≡ fresh_calls id (p ∷ l) es = cc e in
                  (
                    record {
                      some_entry = omega arith;
                      within_capacity = (let w = within in ground (arith, w));
                      capacity_small = fits.capacity_small;
                      size_fits = fits.size_fits;
                      write_fits = fits.write_fits;
                      fingerprint_fits = fits.fingerprint_fits;
                      sound = sound;
                      distinct = (repeats-false [] (p ∷ l) once).1;
                      room = r.0;
                    },
                    made ∙ ap (fresh_calls id (p ∷ l)) r.1,
                  )
            ]
      ]
    ]

-- Take an archive whose numbers fit the header, prepared payloads within the bounds of the format, and
-- any contents of the new file. When WriteFreshFile does not refuse the payloads, and all of its calls
-- succeed, the payloads are a list that a file can hold, with no start offset twice and no more of
-- them than the archive has entries, and a reader sees a file that represents them.
pub write_fresh-Represents :
    (V : Volume) (id : ArchiveIdentity) (l : List PreparedPending) (calls : List Call)
    (answers : List Answer) (f : V.File)
    → IdentityFits id
    → All Sound l
    → plan_fresh id l ≡ some calls
    → (run V calls answers f).0 ≡ finished
    → Storable id l × Represents id l (V.bytes (run V calls answers f).1)
write_fresh-Represents V id l calls answers f fits sound planned h =
    let p = plan_fresh-Storable id l calls fits sound planned in
    (p.0, rw p.1 (fresh_calls-Represents V id l answers f p.0 (rw p.1 at h)))
