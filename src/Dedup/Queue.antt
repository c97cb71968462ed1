-- ===== src/Dedup/Queue.antt =====
-- The C ring buffer and queue of src/dedup/queue.h and src/dedup/queue.cpp, compiled with
-- ENABLE_PTHREADS. A `ringbuffer_t` has the fields of `Ring`; the pointers in it are not NULL, so
-- that NULL is `none`. A failed `assert` stops the program. A call is one attempt under the mutex.
pub mod Calls
use npb_sync.Prelude.{
  ℕ, zero, suc, ◌+◌, Bool, true, false, ◌&&◌, not, Option, none, some, leb, ◌==◌, if◌then◌else◌,
}
use npb_sync.Memory.{Memory, store}
use npb_sync.Ring.{Ring, Status, done, refused, inc_size, dec_size, full_mark}
use npb_sync.NaiveQueue.Master.{Reply, over, moved}

pub record Queue {ℓ} (A : Type ℓ) : Type ℓ where
  pub buf : Ring A
  pub n_producers : ℕ
  pub n_terminated : ℕ

pub data Outcome {ℓ} (B : Type ℓ) : Type ℓ where
  aborts waits : Outcome B
  returned : B → Outcome B

module _ {ℓ} {A : Type ℓ} where
  -- `malloc` is the array for `size + 1` pointers, if there is one; without, the result is not 0.
  unfoldable pub ringbuffer_init : Option (Memory A) → ℕ → Option (Ring A)
  ringbuffer_init none size = none
  ringbuffer_init (some array) size = some (record {
    memory = array;
    allocated = inc_size size;
    n_elements = 0;
    size = inc_size size;
    head = 0;
    tail = 0;
  })

  unfoldable pub ringbuffer_is_empty : Ring A → Bool
  ringbuffer_is_empty buf = buf.tail == buf.head

  unfoldable pub ringbuffer_is_full : Ring A → Bool
  ringbuffer_is_full buf = buf.head == full_mark buf.tail buf.size

  -- The count is decremented on both branches, outside the test.
  unfoldable pub ringbuffer_remove : Ring A → Option A × Ring A
  unfolding ringbuffer_is_empty
  ringbuffer_remove buf =
      if ringbuffer_is_empty buf
      then (none, record buf { n_elements = dec_size buf.n_elements })
      else (
        some (buf.memory buf.tail),
        record buf {
          tail = if leb buf.size (buf.tail + 1) then 0 else buf.tail + 1;
          n_elements = dec_size buf.n_elements;
        },
      )

  unfoldable pub ringbuffer_insert : Ring A → A → Status × Ring A
  unfolding ringbuffer_is_full
  ringbuffer_insert buf ptr = if ringbuffer_is_full buf then (refused, buf) else (
    done,
    record buf {
      memory = store buf.memory buf.head ptr;
      head = if buf.head + 1 == buf.size then 0 else buf.head + 1;
      n_elements = inc_size buf.n_elements;
    },
  )

  unfoldable pub queue_init : Option (Memory A) → ℕ → ℕ → Outcome (Queue A)
  queue_init array size producers = elim (ringbuffer_init array size) [
    | none ↦ aborts
    | some b ↦ returned (record { buf = b; n_producers = producers; n_terminated = 0 })
  ]

  -- `none`: the assertion of the function fails
  unfoldable pub queue_is_terminated : Queue A → Option Bool
  queue_is_terminated que =
      if leb que.n_terminated que.n_producers
      then some (que.n_terminated == que.n_producers)
      else none

  -- The flag says whether the consumers that wait are woken.
  unfoldable pub queue_terminate : Queue A → Outcome (Bool × Queue A)
  unfolding queue_is_terminated
  queue_terminate que =
      let que' = record que { n_terminated = que.n_terminated + 1 } in
      elim (queue_is_terminated que') [ none ↦ aborts | some woken ↦ returned (woken, que') ]

  -- One round of either loop: an element goes from one ring to another. `none`: an assertion fails.
  unfoldable pub move_one : Ring A → Ring A → Option (Ring A × Ring A)
  move_one from to =
      let (temp, from') = ringbuffer_remove from in
      elim temp [
        | none ↦ none
        | some ptr ↦
            (let (rv, to') = ringbuffer_insert to ptr in
              elim rv [ done ↦ some (from', to') | refused ↦ none ])
      ]

  -- the loop of `queue_dequeue` and, with the rings exchanged, of `queue_enqueue`, from the round
  -- `i` on with `k` rounds left
  unfoldable pub move_loop : ℕ → ℕ → Ring A → Ring A → Option (ℕ × Ring A × Ring A)
  unfolding move_one
  move_loop zero i from to = some (i, from, to)
  move_loop (suc k) i from to =
      let rest : Option (ℕ × Ring A × Ring A) = elim (move_one from to) [
        | none ↦ none
        | some (from', to') ↦ move_loop k (i + 1) from' to'
      ] in
      if not (ringbuffer_is_empty from) && not (ringbuffer_is_full to)
      then rest
      else some (i, from, to)

  unfoldable pub queue_dequeue : Queue A → Ring A → ℕ → Outcome (Reply × Queue A × Ring A)
  unfolding queue_is_terminated
  queue_dequeue que buf limit =
      let looped : Outcome (Reply × Queue A × Ring A) = elim (move_loop limit 0 que.buf buf) [
        | none ↦ aborts
        | some (i, from, to) ↦ returned (moved i, record que { buf = from }, to)
      ] in
      if ringbuffer_is_empty que.buf
      then elim (queue_is_terminated que) [
        | none ↦ aborts
        | some true ↦ returned (over, que, buf)
        | some false ↦ waits
      ]
      else looped

  unfoldable pub queue_enqueue : Queue A → Ring A → ℕ → Outcome (Reply × Queue A × Ring A)
  unfolding queue_is_terminated
  queue_enqueue que buf limit =
      let looped : Outcome (Reply × Queue A × Ring A) = elim (move_loop limit 0 buf que.buf) [
        | none ↦ aborts
        | some (i, from, to) ↦ returned (moved i, record que { buf = to }, from)
      ] in
      elim (queue_is_terminated que) [
        | none ↦ aborts
        | some true ↦ aborts
        | some false ↦ if ringbuffer_is_full que.buf then waits else looped
      ]
