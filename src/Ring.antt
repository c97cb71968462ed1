-- ===== src/Ring.antt =====
-- The ring buffer class `Ringbuffer<T>` of src/naive_queue.hpp. The same representation is the
-- local buffer of `NaiveQueueImpl<T>` and, in C, the `ringbuffer_t` of src/dedup/queue.h.
-- `memory` is the array behind `_data`, `allocated` the number of its cells; `_head` and `_tail`
-- are C `int`s that are never negative, and sums of the type `size_t` are taken modulo 2^64.
pub mod Shape
pub mod Fifo
use npb_sync.Prelude.{
  ℕ, ◌+◌, ◌-◌, ◌%◌, ◌^◌, Bool, Option, none, some, ltb, leb, ◌==◌, if◌then◌else◌,
}
use npb_sync.Memory.{Memory, store}

pub record Ring {ℓ} (A : Type ℓ) : Type ℓ where
  pub memory : Memory A
  pub allocated : ℕ
  pub n_elements : ℕ
  pub size : ℕ
  pub head : ℕ
  pub tail : ℕ

abbrev pub size_mod : ℕ
size_mod = 2 ^ 64

-- `++n` and `--n` on a `size_t`
abbrev pub inc_size : ℕ → ℕ
inc_size n = (n + 1) % size_mod

abbrev pub dec_size : ℕ → ℕ
dec_size n = (n + (size_mod - 1)) % size_mod

-- `(tail - 1 + size) % size`: the `int` -1 becomes 2^64 - 1 when it meets a `size_t`
abbrev pub full_mark : ℕ → ℕ → ℕ
full_mark tail size = ((tail + (size_mod - 1)) % size_mod + size) % size_mod % size

-- what `push` returns: 0, or -1 when it refuses
pub data Status : Type 0 where
  done refused : Status

module _ {ℓ} {A : Type ℓ} where
  -- `malloc` is the array that the allocator returns for `size + 1` elements, if it returns one;
  -- without one `init` throws.
  unfoldable pub init : Option (Memory A) → ℕ → Option (Ring A)
  init none size = none
  init (some array) size = some (record {
    memory = array;
    allocated = inc_size size;
    n_elements = 0;
    size = inc_size size;
    head = 0;
    tail = 0;
  })

  unfoldable pub empty : Ring A → Bool
  empty r = r.tail == r.head

  unfoldable pub full : Ring A → Bool
  full r = r.head == full_mark r.tail r.size

  unfoldable pub pop : Ring A → Option A × Ring A
  unfolding empty
  pop r = if empty r then (none, r) else (
    some (r.memory r.tail),
    record r {
      tail = if leb r.size (r.tail + 1) then 0 else r.tail + 1;
      n_elements = dec_size r.n_elements;
    },
  )

  unfoldable pub push : Ring A → A → Status × Ring A
  unfolding full
  push r v = if full r then (refused, r) else (
    done,
    record r {
      memory = store r.memory r.head v;
      head = if r.head + 1 == r.size then 0 else r.head + 1;
      n_elements = inc_size r.n_elements;
    },
  )

  -- `_size - _n_elements`, a `size_t` returned as an `int`
  unfoldable pub available : Ring A → ℕ
  available r = (r.size + (size_mod - r.n_elements)) % size_mod % 2 ^ 32

  -- `free(_data)`, then `init`
  unfoldable pub reinit : Ring A → Option (Memory A) → ℕ → Option (Ring A)
  reinit r array size = init array size
