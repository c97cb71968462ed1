-- ===== src/SmartFifo/Chunk.antt =====
-- `FIFOChunk<T>` of src/smart_fifo.h: an array that is filled once and emptied from the front. A
-- chain of chunks, each with its `_next`, is a list; only the last has none. The elements that can
-- be taken, `nb_available` cells from `_head` on, are the list `available`. The reference count,
-- from which nothing follows since `delete this` is commented out, is left out.
use npb_sync.Prelude.{
  ◌||◌, ℕ, ◌+◌, ◌-◌, Bool, ◌&&◌, not, Option, none, some, List, [], ◌∷◌, ◌++◌, ltb, ◌==◌,
  if◌then◌else◌, length, take, drop,
}

pub record Chunk {ℓ} (A : Type ℓ) : Type ℓ where
  pub size : ℕ
  pub nb_elements : ℕ
  pub available : List A

module _ {ℓ} {A : Type ℓ} where
  unfoldable pub new_chunk : ℕ → Chunk A
  new_chunk size = record { size = size; nb_elements = 0; available = [] }

  -- The copy of a chunk that `push_chunk` links: `_nb_elements` stays 0.
  unfoldable pub copy_chunk : Chunk A → Chunk A
  copy_chunk c = record c { nb_elements = 0 }

  unfoldable pub freeze : Chunk A → Chunk A
  freeze c = record c { size = c.nb_elements }

  unfoldable pub empty_chunk : Chunk A → Bool
  empty_chunk c = length c.available == 0

  -- `unsafe_push` on a chunk without a next one: the chunk, and the next one if it was full. `none`:
  -- with a size of 0 each new chunk is full, and the recursion does not end.
  unfoldable pub unsafe_push : Chunk A → A → Option (Chunk A × Option (Chunk A))
  unsafe_push c element =
      if c.size == c.nb_elements
      then (if c.size == 0
          then none
          else some (c, some (record { size = c.size; nb_elements = 1; available = element ∷ [] })))
      else some (
        record c { nb_elements = c.nb_elements + 1; available = c.available ++ element ∷ [] },
        none,
      )

  -- The range taken, the chunk, what is still asked for, and whether `over` becomes true.
  unfoldable pub pop_chunk : Chunk A → Bool → ℕ → List A × Chunk A × ℕ × Bool
  pop_chunk c has_next nb_elements =
      let nb_available = length c.available in
      let n = if ltb nb_elements nb_available then nb_elements else nb_available in
      if nb_available == 0 then ([], c, nb_elements, not has_next) else (
        take n c.available,
        record c { available = drop n c.available },
        nb_elements - n,
        nb_elements == n || (ltb n nb_elements && not has_next),
      )
