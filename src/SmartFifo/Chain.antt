-- ===== src/SmartFifo/Chain.antt =====
-- The shared chain of chunks in `SmartFIFOImpl<T>` of src/smart_fifo.h, from `_head` to `_tail`, as
-- it is while a consumer or a producer holds its mutex. The producers and those that have ended
-- are one 64-bit number in the code: the low and the high 32 bits.
pub mod Order
use npb_sync.Prelude.{
  ℕ, ◌+◌, ◌/◌, ◌%◌, ◌^◌, Bool, true, false, Option, none, some, List, [], ◌∷◌, ◌==◌, if◌then◌else◌,
}
use npb_sync.NaiveQueue.Master.{Attempt, waits, returned}
use npb_sync.SmartFifo.Semaphore.{
  Semaphore, create_semaphore, post, finish, wait, Waited, again, timed_out, got,
}
use npb_sync.SmartFifo.Chunk.{Chunk, new_chunk, copy_chunk, freeze, empty_chunk, pop_chunk}

pub record Fifo {ℓ} (A : Type ℓ) : Type ℓ where
  pub chunks : List (Chunk A)
  pub nb_producers_done : ℕ
  pub sem : Semaphore

module _ {ℓ} {A : Type ℓ} where
  unfoldable pub create_fifo : Fifo A
  create_fifo = record {
    chunks = new_chunk 0 ∷ [];
    nb_producers_done = 0;
    sem = create_semaphore 0;
  }

  unfoldable pub add_producers : Fifo A → ℕ → Fifo A
  add_producers f n = record f { nb_producers_done = (f.nb_producers_done + n) % 2 ^ 64 }

  unfoldable pub terminated_fifo : Fifo A → Bool
  terminated_fifo f = f.nb_producers_done % 2 ^ 31 == f.nb_producers_done / 2 ^ 32

  unfoldable pub terminate_producer : Fifo A → Fifo A
  unfolding terminated_fifo
  terminate_producer f =
      let f' = record f { nb_producers_done = (f.nb_producers_done + 2 ^ 32) % 2 ^ 64 } in
      if terminated_fifo f' then record f' { sem = finish f.sem } else f'

  -- The last chunk is frozen, and the copy of the first chunk of `added` becomes its next.
  unfoldable pub link : List (Chunk A) → List (Chunk A) → List (Chunk A)
  link [] added = added
  link (c ∷ []) added = freeze c ∷ added
  link (c ∷ d ∷ rest) added = c ∷ link (d ∷ rest) added

  -- `chunk` and the chunk that follows it, if one does
  unfoldable pub push_chunk : Fifo A → Chunk A → Option (Chunk A) → ℕ → Fifo A
  unfolding link
  push_chunk f chunk next nb_elements =
      let followers : List (Chunk A) = elim next [ none ↦ [] | some n ↦ n ∷ [] ] in
      record f {
        chunks = link f.chunks (copy_chunk chunk ∷ followers);
        sem = post f.sem nb_elements;
      }

  -- `_head` moves over empty chunks that have a next one.
  unfoldable pub skip_empty : List (Chunk A) → List (Chunk A)
  skip_empty [] = []
  skip_empty (c ∷ []) = c ∷ []
  skip_empty (c ∷ d ∷ rest) =
      let further = skip_empty (d ∷ rest) in if empty_chunk c then further else c ∷ d ∷ rest

  -- the loop that pops ranges while elements are asked for
  unfoldable pub pop_ranges : List (Chunk A) → ℕ → List (List A) × List (Chunk A)
  pop_ranges [] nb_elements = ([], [])
  pop_ranges (c ∷ []) nb_elements =
      let (range, c', left, over) = pop_chunk c false nb_elements in
      if nb_elements == 0 then ([], c ∷ []) else (range ∷ [], c' ∷ [])
  pop_ranges (c ∷ d ∷ rest) nb_elements =
      let (range, c', left, over) = pop_chunk c true nb_elements in
      let (ranges, further) = pop_ranges (d ∷ rest) left in
      if nb_elements == 0
      then ([], c ∷ d ∷ rest)
      else if over
      then (range ∷ [], c' ∷ d ∷ rest)
      else (range ∷ ranges, further)

  -- behind a round of `_sem.wait`: the loop goes on, unless a negative count is returned
  unfoldable pub semaphore_waited : Waited → Attempt (Bool × List (List A))
  semaphore_waited again = waits
  semaphore_waited (got n) = waits
  semaphore_waited timed_out = returned (false, [])

  -- One attempt of `pop`: when the chain is empty and some producer has not ended, it is a round of
  -- the semaphore's `wait`. `locked` says whether the mutex was obtained before the timeout,
  -- `expired` whether there is a timeout that has passed in the semaphore; the flag is what `pop`
  -- returns.
  unfoldable pub pop_fifo : Bool → Bool → Fifo A → ℕ → Attempt (Bool × List (List A)) × Fifo A
  unfolding terminated_fifo semaphore_waited
  pop_fifo locked expired f nb_elements =
      let (count, sem') = wait f.sem nb_elements expired in
      let chunks' = skip_empty f.chunks in
      let f' = record f { chunks = chunks' } in
      let (ranges, left) = pop_ranges chunks' nb_elements in
      let popped : Attempt (Bool × List (List A)) × Fifo A = elim chunks' [
        | [] ↦ (returned (true, []), f')
        | c ∷ _ ↦
            if empty_chunk c
            then (if terminated_fifo f
                then (returned (true, []), f')
                else (semaphore_waited count, record f' { sem = sem' }))
            else (returned (true, ranges), record f { chunks = left })
      ] in
      if locked then popped else (returned (false, []), f)
