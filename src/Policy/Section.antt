-- ===== src/Policy/Section.antt =====
-- Skyrim/src/PESectionSelect.h: the largest section with an exact name and the required flags.
-- std::uintptr_t has 64 bits. A section's name is eight bytes, or `none` for a null pointer.
pub mod Best
use faster_file_copy.Prelude.{
  ℕ, zero, suc, ◌+◌, ◌-◌, ◌≤◌, ◌<◌, ◌≡◌, ◌↔◌, ◌⊎◌, inl, inr, refl, ◌∙◌, sym, ap, Bool, true, false,
  not, ◌&&◌, ◌||◌, Option, none, some, ltb, leb, ◌==◌, if◌then◌else◌, length, get_or, u64_max,
  arith, bit_and, List, [], ◌∷◌, ◌++◌, All, Bool-cases,
}
use faster_file_copy.Prelude.Words.{add64}

abbrev pub short_name_size : ℕ
short_name_size = 8

pub record AddressRange : Type 0 where
  pub begin : ℕ
  pub end : ℕ
  pub virtual_size : ℕ

abbrev pub no_range : AddressRange
no_range = record { begin = 0; end = 0; virtual_size = 0 }

-- explicit operator bool
unfoldable pub is_set : AddressRange → Bool
is_set r = ltb r.begin r.end && ltb 0 r.virtual_size

-- The two loops over the name, with the bytes from the index on.
unfoldable pub name_matches : List ℕ → List ℕ → Bool
name_matches [] [] = true
name_matches [] (e ∷ expected) = false
name_matches (b ∷ name) [] = b == 0 && name_matches name []
name_matches (b ∷ name) (e ∷ expected) = b == e && name_matches name expected

unfoldable pub exact_name : Option (List ℕ) → List ℕ → Bool
unfolding name_matches
exact_name none expected = false
exact_name (some name) expected =
    if length expected == 0 || ltb short_name_size (length expected)
    then false
    else name_matches name expected

-- What the headers say of one section.
pub record Section : Type 0 where
  pub name : Option (List ℕ)
  pub virtual_address : ℕ
  pub virtual_size : ℕ
  pub characteristics : ℕ

module _ (image_base : ℕ) (expected : List ℕ) (required : ℕ) where
  -- The new selection and whether the section is a candidate.
  unfoldable pub consider : AddressRange → Section → AddressRange × Bool
  unfolding is_set
  consider selected s =
      if not (exact_name s.name expected)
        || s.virtual_size == 0
        || not (bit_and s.characteristics required == required)
        || ltb (u64_max - image_base) s.virtual_address
      then (selected, false)
      else (let begin = add64 image_base s.virtual_address in
          if ltb (u64_max - begin) s.virtual_size
          then (selected, false)
          else (let end = add64 begin s.virtual_size in
              if leb end begin
              then (selected, false)
              else if not (is_set selected) || ltb selected.virtual_size s.virtual_size
              then (record { begin = begin; end = end; virtual_size = s.virtual_size }, true)
              else (selected, true)))

  -- A caller's loop over the section headers.
  unfoldable pub select : AddressRange → List Section → AddressRange
  select selected [] = selected
  select selected (s ∷ sections) = select (consider selected s).0 sections

  pub record Candidate (s : Section) : Type 0 where
    pub named : exact_name s.name expected ≡ true
    pub nonempty : 0 < s.virtual_size
    pub flagged : bit_and s.characteristics required ≡ required
    pub addressable : image_base + s.virtual_address + s.virtual_size ≤ u64_max

  abbrev pub range_of : Section → AddressRange
  range_of s = record {
    begin = image_base + s.virtual_address;
    end = image_base + s.virtual_address + s.virtual_size;
    virtual_size = s.virtual_size;
  }

  -- `consider` answers true exactly for a candidate, and no address wraps.
  pub consider_exact :
      (selected : AddressRange) (s : Section)
      → image_base ≤ u64_max
      → ((consider selected s).1 ≡ true) ↔ Candidate s
  unfolding consider
  consider_exact selected s h = (
    (λ e. record {
      named = ground arith;
      nonempty = ground arith;
      flagged = ground arith;
      addressable = ground arith;
    }),
    (λ c. ground arith),
  )
