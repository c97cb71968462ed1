-- ===== src/NaiveQueue/Master.antt =====
-- `NaiveQueueMaster<T>` of src/naive_queue.hpp: the shared ring buffer under its mutex.
-- A call is modelled by what it does between two waits: it finds its condition false and waits,
-- which releases the mutex and changes nothing, or it runs through to its `return`. The loops
-- `while (cond) cv.wait(lck)` are further attempts of the same call. What
-- the calls notify is in NaiveQueue/Pipeline/Signals. `FAST_ONE_CONSUMER` is not
-- set in src/naive_queue_conf.h, so that the loops with `limit` are those that are compiled.
use npb_sync.Prelude.{
  ℕ, zero, suc, ◌+◌, Bool, true, false, ◌||◌, Option, none, some, ◌==◌, if◌then◌else◌,
}
use npb_sync.Memory.{Memory}
use npb_sync.Ring.{Ring, init, empty, full, pop, push}
use npb_sync.NaiveQueue.Local.{empty_local, full_local, push_local, pop_local}

pub record Master {ℓ} (A : Type ℓ) : Type ℓ where
  pub buf : Ring A
  pub n_producers : ℕ
  pub n_consumers : ℕ
  pub n_terminated : ℕ

-- what a call returns: -1 once all is over, or the number of elements moved
pub data Reply : Type 0 where
  over : Reply
  moved : ℕ → Reply

-- one attempt of a call under the mutex
pub data Attempt {ℓ} (B : Type ℓ) : Type ℓ where
  waits : Attempt B
  returned : B → Attempt B

module _ {ℓ} {A : Type ℓ} where
  unfoldable pub create : Option (Memory A) → ℕ → ℕ → Option (Master A)
  create array size producers = elim (init array size) [
    | none ↦ none
    | some b ↦ some (record { buf = b; n_producers = producers; n_consumers = 0; n_terminated = 0 })
  ]

  unfoldable pub terminated : Master A → Bool
  terminated m = m.n_producers == m.n_terminated

  -- The flag says whether all waiting consumers are woken.
  unfoldable pub terminate : Master A → Bool × Master A
  unfolding terminated
  terminate m =
      let m' = record m { n_terminated = m.n_terminated + 1 } in
      if terminated m' then (true, m') else (false, m')

  -- a view for a producer or for a consumer is handed out
  unfoldable pub view : Master A → Bool → Master A
  view m producer = if producer then m else record m { n_consumers = m.n_consumers + 1 }

  unfoldable pub master_size : Master A → ℕ
  master_size m = m.buf.n_elements

  -- `for (; i < limit && !_buf.empty() && !queue->full(); ++i) queue->push_local(*(_buf.pop()));`
  -- from the round `i` on, with `k` rounds left. The pop follows a failed test of emptiness.
  unfoldable pub fill_local : ℕ → ℕ → Ring A → Ring A → ℕ × Ring A × Ring A
  fill_local zero i buf local = (i, buf, local)
  fill_local (suc k) i buf local =
      let (taken, buf') = pop buf in
      let local' : Ring A = elim taken [ none ↦ local | some v ↦ (push_local local v).1 ] in
      let rest = fill_local k (i + 1) buf' local' in
      if empty buf || full_local local then (i, buf, local) else rest

  -- `for (; i < limit && !_buf.full() && !queue->empty(); ++i) _buf.push(*queue->pop_local());`
  unfoldable pub drain_local : ℕ → ℕ → Ring A → Ring A → ℕ × Ring A × Ring A
  drain_local zero i buf local = (i, buf, local)
  drain_local (suc k) i buf local =
      let (taken, local') = pop_local local in
      let buf' : Ring A = elim taken [ none ↦ buf | some v ↦ (push buf v).1 ] in
      let rest = drain_local k (i + 1) buf' local' in
      if full buf || empty_local local then (i, buf, local) else rest

  unfoldable pub dequeue_no_timing : Master A → Ring A → ℕ → Attempt (Reply × Master A × Ring A)
  unfolding terminated
  dequeue_no_timing m local limit =
      let (i, buf', local') = fill_local limit 0 m.buf local in
      if empty m.buf
      then (if terminated m then returned (over, m, local) else waits)
      else returned (moved i, record m { buf = buf' }, local')

  unfoldable pub enqueue_no_timing : Master A → Ring A → ℕ → Attempt (Reply × Master A × Ring A)
  enqueue_no_timing m local limit =
      let (i, buf', local') = drain_local limit 0 m.buf local in
      if full m.buf then waits else returned (moved i, record m { buf = buf' }, local')

  -- `locked` says whether the mutex was obtained before the timeout. The flag of the result says
  -- whether the call timed out.
  unfoldable pub timed_dequeue_no_timing :
      Bool → Master A → Ring A → ℕ → Attempt (Bool × Reply × Master A × Ring A)
  unfolding dequeue_no_timing
  timed_dequeue_no_timing locked m local limit =
      if locked
      then elim (dequeue_no_timing m local limit) [
        | waits ↦ waits
        | returned (reply, m', local') ↦ returned (false, reply, m', local')
      ]
      else returned (true, moved 0, m, local)
