-- ===== src/NaiveQueue/Local.antt =====
-- The private part of `NaiveQueueImpl<T>` in src/naive_queue.hpp: its own ring buffer, written out
-- a second time in that class, and its change of size.
use npb_sync.Prelude.{
  ℕ, ◌+◌, ◌-◌, ◌≡◌, refl, Bool, true, false, ◌&&◌, not, Option, none, some, arith, ltb, leb, ◌==◌,
  if◌then◌else◌,
}
use npb_sync.Memory.{Memory, store, memmove}
use npb_sync.Ring.{full, empty, Ring, push, pop, inc_size, dec_size, full_mark}

-- the cells that the constructor asks `malloc` for, whatever the size
abbrev pub local_cells : ℕ
local_cells = 1_000_000

module _ {ℓ} {A : Type ℓ} where
  unfoldable pub init_local : Option (Memory A) → ℕ → Option (Ring A)
  init_local none size = none
  init_local (some array) size = some (record {
    memory = array;
    allocated = local_cells;
    n_elements = 0;
    size = inc_size size;
    head = 0;
    tail = 0;
  })

  unfoldable pub empty_local : Ring A → Bool
  empty_local q = q.tail == q.head

  unfoldable pub full_local : Ring A → Bool
  full_local q = q.head == full_mark q.tail q.size

  unfoldable pub push_local : Ring A → A → Bool × Ring A
  unfolding full_local
  push_local q v = if full_local q then (false, q) else (
    true,
    record q {
      memory = store q.memory q.head v;
      head = if q.head + 1 == q.size then 0 else q.head + 1;
      n_elements = inc_size q.n_elements;
    },
  )

  unfoldable pub pop_local : Ring A → Option A × Ring A
  unfolding empty_local
  pop_local q = if empty_local q then (none, q) else (
    some (q.memory q.tail),
    record q {
      tail = if leb q.size (q.tail + 1) then 0 else q.tail + 1;
      n_elements = dec_size q.n_elements;
    },
  )

  -- the elements lie in one run, `_head > _tail`
  unfoldable pub resize_run : Ring A → ℕ → Bool → Ring A
  resize_run q size reduce =
      if reduce && ltb size q.head
      then record q {
        memory = memmove q.memory 0 q.tail q.n_elements;
        head = q.n_elements;
        tail = 0;
      }
      else q

  -- the elements go round the end, `_head < _tail`: their first part is moved to the new end
  unfoldable pub resize_round : Ring A → ℕ → Bool → Ring A
  resize_round q size reduce =
      if not reduce
      then record q {
        memory = memmove q.memory (q.tail + size + 1 - q.size) q.tail (q.size - q.tail);
        tail = q.tail + (size + 1 - q.size);
      }
      else record q {
        memory = memmove q.memory (q.tail - (q.size - (size + 1))) q.tail (q.size - q.tail);
        tail = q.tail - (q.size - (size + 1));
      }

  unfoldable pub resize_move : Ring A → ℕ → Bool → Ring A
  unfolding resize_run resize_round
  resize_move q size reduce =
      if q.head == q.tail
      then record q { head = 0; tail = 0 }
      else if ltb q.tail q.head
      then resize_run q size reduce
      else resize_round q size reduce

  -- The size of a ring for `size` elements is `size + 1`. No `size_t` difference is negative here.
  unfoldable pub resize : Ring A → ℕ → Bool × Ring A
  unfolding resize_move
  resize q size =
      if size == q.size - 1
      then (true, q)
      else if ltb size (q.size - 1) && leb size q.n_elements
      then (false, q)
      else (
        true,
        (let moved = resize_move q size (ltb size (q.size - 1)) in
            record moved { size = size + 1 }),
      )

-- The second writing of the ring operations computes what the first does.
module _ {A : Type 0} where
  pub pop_local-eq-pop : (q : Ring A) → pop_local q ≡ pop q
  unfolding pop_local pop
  pop_local-eq-pop q = refl

  pub push_local-eq-push : (q : Ring A) (v : A) → (push_local q v).1 ≡ (push q v).1
  unfolding push_local push
  push_local-eq-push q v = ground arith

  pub empty_local-eq-empty : (q : Ring A) → empty_local q ≡ empty q
  unfolding empty_local empty
  empty_local-eq-empty q = refl

  pub full_local-eq-full : (q : Ring A) → full_local q ≡ full q
  unfolding full_local full
  full_local-eq-full q = refl
