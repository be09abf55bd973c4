-- ===== src/Cache/Commit/Ranges.antt =====
-- Ranges of a file that a chain of calls keeps, and the ranges that it writes.
use faster_file_copy.Prelude.{
  ℕ, zero, suc, ◌+◌, ◌≤◌, ◌≡◌, ◌⊎◌, inl, inr, refl, sym, ap, ◌∙◌, Bool, List, [], ◌∷◌, ◌++◌, length,
  take, drop, length-take, length-drop, length-append, All, arith, Bool-cases, leb, leb→le, ◌<◌,
}
use faster_file_copy.Prelude.Splice.{
  slice, splice, length-splice, slice-splice_same, slice-splice_before, slice-splice_after,
  slice-take, slice_join, drop_add, take_all, take-append, drop-append,
}
use faster_file_copy.Cache.Volume.{Apart, resize}
use faster_file_copy.Cache.Commit.{
  Call, seek, write_chunk, truncate, flush_file, flush_unless_cancelled, overflow, write_chunk_size,
  write_chunks, write_at,
}

-- The call writes outside the range, and cuts behind it.
abbrev pub Avoids : ℕ → ℕ → Call → Type 0
Avoids i n seek = Unit
Avoids i n (write_chunk cancellable o b) = Apart i n o (length b)
Avoids i n (truncate cancellable size) = i + n ≤ size
Avoids i n flush_file = Unit
Avoids i n flush_unless_cancelled = Unit
Avoids i n overflow = Unit

-- A reader sees these bytes at the offset.
abbrev pub Has : List ℕ → ℕ → List ℕ → Type 0
Has f i c = (slice i (length c) f ≡ c) × (i + length c ≤ length f)

pub splice-Has :
    (f : List ℕ) (o : ℕ) (b : List ℕ) (i : ℕ) (c : List ℕ)
    → Apart i (length c) o (length b)
    → Has f i c
    → Has (splice f o b) i c
splice-Has f o b i c (inl before) h = (
  slice-splice_before f o b i (length c) before h.1 ∙ h.0,
  omega (arith, length-splice f o b, h.1),
)
splice-Has f o b i c (inr behind) h = (
  slice-splice_after f o b i (length c) behind h.1 ∙ h.0,
  omega (arith, length-splice f o b, h.1),
)

pub splice-Has_here : (f : List ℕ) (o : ℕ) (b : List ℕ) → Has (splice f o b) o b
splice-Has_here f o b = (slice-splice_same f o b, omega (arith, length-splice f o b))

pub resize-Has :
    (f : List ℕ) (size i : ℕ) (c : List ℕ)
    → i + length c ≤ size
    → Has f i c
    → Has (resize f size) i c
resize-Has f size i c h has = (
  slice-take (splice f size []) size i (length c) h
      ∙ slice-splice_before f size [] i (length c) h has.1
      ∙ has.0,
  omega (arith, length-take size (splice f size []), length-splice f size [], h),
)

-- Adjacent ranges.
pub Has-join :
    (f : List ℕ) (i : ℕ) (b c : List ℕ) → Has f i b → Has f (i + length b) c → Has f i (b ++ c)
Has-join f i b c h g = (
  ap (λ n. slice i n f) (length-append b c)
      ∙ slice_join f i (length b) (length c)
      ∙ ap (λ x. x ++ slice (i + length b) (length c) f) h.0
      ∙ ap (λ y. b ++ y) g.0,
  omega (arith, length-append b c, g.1),
)

pub Has-left : (f : List ℕ) (i : ℕ) (b c : List ℕ) → Has f i (b ++ c) → Has f i b
Has-left f i b c h = (
  sym (slice-take (drop i f) (length (b ++ c)) 0 (length b) (omega (arith, length-append b c)))
      ∙ ap (take (length b)) h.0
      ∙ take-append b c,
  omega (arith, length-append b c, h.1),
)

pub Has-right : (f : List ℕ) (i : ℕ) (b c : List ℕ) → Has f i (b ++ c) → Has f (i + length b) c
Has-right f i b c h = (
  ap (take (length c)) (sym (drop_add i (length b) f))
      ∙ sym (
          slice-take (drop i f) (length (b ++ c)) (length b) (length c)
            (omega (arith, length-append b c)))
      ∙ ap (λ x. take (length c) (drop (length b) x)) h.0
      ∙ ap (take (length c)) (drop-append b c)
      ∙ take_all c,
  omega (arith, length-append b c, h.1),
)

pub Apart-take :
    (i n o got : ℕ) (b : List ℕ) → Apart i n o (length b) → Apart i n o (length (take got b))
Apart-take i n o got b (inl h) = inl h
Apart-take i n o got b (inr h) = inr (omega (arith, length-take got b))

pub All-append {ℓ κ} :
    {A : Type ℓ} (P : A → Type κ) (l m : List A) → All P l → All P m → All P (l ++ m)
All-append P [] m h g = g
All-append P (a ∷ l) m h g = (h.0, All-append P l m h.1 g)

rest-Apart :
    (k i n o : ℕ) (b : List ℕ)
    → Apart i n o (length b)
    → (length (drop k b) ≤ 0) ⊎ Apart i n (o + k) (length (drop k b))
rest-Apart k i n o b (inl h) = inr (inl (omega arith))
rest-Apart k i n o b (inr h) = elim (Bool-cases (leb (length b) k)) [
  | inl small ↦ inl (omega (arith, leb→le _ _ small, length-drop k b))
  | inr large ↦ inr (inr (let big : k < length b = ground arith in omega (arith, length-drop k b)))
]

pub write_chunks_none :
    (cancellable : Bool) (fuel o : ℕ) (b : List ℕ)
    → length b ≤ 0
    → write_chunks cancellable fuel o b ≡ []
unfolding write_chunks
write_chunks_none cancellable zero o b h = refl
write_chunks_none cancellable (suc fuel) o [] h = refl
write_chunks_none cancellable (suc fuel) o (x ∷ b) h = absurd (omega (arith, h))

write_chunks-Avoids :
    (cancellable : Bool) (fuel o : ℕ) (b : List ℕ) (i n : ℕ)
    → Apart i n o (length b)
    → All (Avoids i n) (write_chunks cancellable fuel o b)
unfolding write_chunks
write_chunks-Avoids cancellable zero o b i n h = tt
write_chunks-Avoids cancellable (suc fuel) o [] i n h = tt
write_chunks-Avoids cancellable (suc fuel) o (x ∷ b) i n h = (
  Apart-take i n o write_chunk_size (x ∷ b) h,
  elim (rest-Apart write_chunk_size i n o (x ∷ b) h) [
    | inl gone ↦
        rw
          (write_chunks_none cancellable fuel (o + write_chunk_size) (drop write_chunk_size (x ∷ b))
            gone)
          tt
    | inr apart ↦ write_chunks-Avoids cancellable fuel _ _ i n apart
  ],
)

pub write_at-Avoids :
    (cancellable : Bool) (o : ℕ) (b : List ℕ) (i n : ℕ)
    → Apart i n o (length b)
    → All (Avoids i n) (write_at cancellable o b)
unfolding write_at
write_at-Avoids cancellable o b i n h = (tt, write_chunks-Avoids cancellable (length b) o b i n h)
