-- ===== src/Cache/Commit/Chunks.antt =====
-- Skyrim/src/DecompCache.cpp, WriteAt: its chunks.
use faster_file_copy.Prelude.{
  ℕ, zero, suc, ◌+◌, ◌-◌, ◌/◌, ◌≤◌, ◌<◌, ◌≡◌, refl, ◌∙◌, Bool, List, [], ◌∷◌, length, drop,
  length-take, length-drop, All, arith,
}
use faster_file_copy.Prelude.Splice.{splice}
use faster_file_copy.Cache.Volume.{Volume}
use faster_file_copy.Cache.Commit.{
  Call, seek, write_chunk, truncate, flush_file, flush_unless_cancelled, overflow, Answer, finished,
  write_chunk_size, write_chunks, write_at, run,
}
use faster_file_copy.Cache.Commit.Effect.{run-effect, effect-write_at}

-- A WriteFile call for at least one byte, and for no more than a chunk.
abbrev pub InChunk : Call → Type 0
InChunk seek = Unit
InChunk (write_chunk cancellable o b) = (0 < length b) × (length b ≤ write_chunk_size)
InChunk (truncate cancellable size) = Unit
InChunk flush_file = Unit
InChunk flush_unless_cancelled = Unit
InChunk overflow = Unit

write_chunks-InChunk :
    (cancellable : Bool) (fuel o : ℕ) (b : List ℕ) → All InChunk (write_chunks cancellable fuel o b)
unfolding write_chunks
write_chunks-InChunk cancellable zero o b = tt
write_chunks-InChunk cancellable (suc fuel) o [] = tt
write_chunks-InChunk cancellable (suc fuel) o (x ∷ b) = (
  (
    omega (arith, length-take write_chunk_size (x ∷ b)),
    omega (arith, length-take write_chunk_size (x ∷ b)),
  ),
  write_chunks-InChunk cancellable fuel (o + write_chunk_size) (drop write_chunk_size (x ∷ b)),
)

-- The number of rounds of the loop in WriteAt is the size over the chunk size, rounded up.
write_chunks-length :
    (cancellable : Bool) (fuel o : ℕ) (b : List ℕ)
    → length b ≤ fuel
    → length (write_chunks cancellable fuel o b)
      ≡ (length b + (write_chunk_size - 1)) / write_chunk_size
unfolding write_chunks
write_chunks-length cancellable zero o [] enough = refl
write_chunks-length cancellable zero o (x ∷ b) enough = absurd (omega (arith, enough))
write_chunks-length cancellable (suc fuel) o [] enough = refl
write_chunks-length cancellable (suc fuel) o (x ∷ b) enough = omega (
  arith,
  enough,
  length-drop write_chunk_size (x ∷ b),
  write_chunks-length cancellable fuel (o + write_chunk_size) (drop write_chunk_size (x ∷ b))
      (omega (arith, enough, length-drop write_chunk_size (x ∷ b))),
)

-- WriteAt looks for its place once and then calls WriteFile as often as the size over 8 MiB, rounded
-- up, each time with at least one byte and at most 8 MiB, which a DWORD holds.
pub write_at_bounds :
    (cancellable : Bool) (o : ℕ) (b : List ℕ)
    → All InChunk (write_at cancellable o b)
      × (length (write_at cancellable o b)
          ≡ 1 + (length b + (write_chunk_size - 1)) / write_chunk_size)
unfolding write_at
write_at_bounds cancellable o b = (
  (tt, write_chunks-InChunk cancellable (length b) o b),
  omega (arith, write_chunks-length cancellable (length b) o b (omega arith)),
)

-- A WriteAt that ends well on some bytes makes the file what one write of all of them makes it,
-- however many chunks it takes.
pub write_at-splice :
    (V : Volume) (cancellable : Bool) (o : ℕ) (b : List ℕ) (answers : List Answer) (f : V.File)
    → 0 < length b
    → (run V (write_at cancellable o b) answers f).0 ≡ finished
    → V.bytes (run V (write_at cancellable o b) answers f).1 ≡ splice (V.bytes f) o b
write_at-splice V cancellable o b answers f some_bytes h =
    run-effect V (write_at cancellable o b) answers f h
    ∙ effect-write_at cancellable o b (V.bytes f) some_bytes
