-- ===== src/Dedup/Queue/Calls.antt =====
-- The calls of the C queue against those of `NaiveQueueMaster<T>`.
use npb_sync.Prelude.{ℕ, zero, suc, ◌+◌, ◌<◌, ◌≤◌, ◌≡◌, refl, some, arith}
use npb_sync.Ring.{Ring, empty, full, pop, push}
use npb_sync.NaiveQueue.Local.{empty_local, full_local, push_local, pop_local}
use npb_sync.NaiveQueue.Master.{
  Master, Reply, Attempt, fill_local, drain_local, dequeue_no_timing, enqueue_no_timing, terminated,
}
use npb_sync.Dedup.Queue.{
  Queue, Outcome, waits, returned, ringbuffer_is_empty, ringbuffer_is_full, ringbuffer_remove,
  ringbuffer_insert, queue_is_terminated, move_one, move_loop, queue_dequeue, queue_enqueue,
}

module _ {A : Type 0} where
  -- the master that holds what a C queue holds
  unfoldable pub as_master : Queue A → ℕ → Master A
  as_master que consumers = record {
    buf = que.buf;
    n_producers = que.n_producers;
    n_consumers = consumers;
    n_terminated = que.n_terminated;
  }

  -- the queue that holds what a master holds
  unfoldable pub as_queue : Master A → Queue A
  as_queue m = record { buf = m.buf; n_producers = m.n_producers; n_terminated = m.n_terminated }

  unfoldable pub as_outcome :
      Attempt (Reply × Master A × Ring A) → Outcome (Reply × Queue A × Ring A)
  unfolding as_queue
  as_outcome Attempt.waits = waits
  as_outcome (Attempt.returned (reply, m, r)) = returned (reply, as_queue m, r)

  pub move_loop-eq-fill_local :
      (k i : ℕ) (from to : Ring A) → move_loop k i from to ≡ some (fill_local k i from to)
  unfolding move_loop move_one ringbuffer_is_empty ringbuffer_is_full ringbuffer_remove
      ringbuffer_insert fill_local empty full_local pop push_local
  move_loop-eq-fill_local zero i from to = refl
  move_loop-eq-fill_local (suc k) i from to = ground (
    arith,
    move_loop-eq-fill_local k (i + 1) (pop from).1 (push_local to (from.memory from.tail)).1,
  )

  pub move_loop-eq-drain_local :
      (k i : ℕ) (from to : Ring A)
      → move_loop k i from to
        ≡ (let (j, to', from') = drain_local k i to from in some (j, from', to'))
  unfolding move_loop move_one ringbuffer_is_empty ringbuffer_is_full ringbuffer_remove
      ringbuffer_insert drain_local full empty_local pop_local push
  move_loop-eq-drain_local zero i from to = refl
  move_loop-eq-drain_local (suc k) i from to = ground (
    arith,
    move_loop-eq-drain_local k (i + 1) (pop_local from).1 (push to (from.memory from.tail)).1,
  )

  -- A call of `queue_dequeue` stops at no `assert` and does what `NaiveQueueMaster::dequeue` does,
  -- unless more producers have ended than there are.
  pub queue_dequeue-eq-dequeue :
      (que : Queue A) (buf : Ring A) (limit consumers : ℕ)
      → que.n_terminated ≤ que.n_producers
      → queue_dequeue que buf limit
        ≡ as_outcome (dequeue_no_timing (as_master que consumers) buf limit)
  unfolding queue_dequeue dequeue_no_timing as_outcome as_master as_queue queue_is_terminated
      terminated ringbuffer_is_empty empty
  queue_dequeue-eq-dequeue que buf limit consumers h =
      ground (arith, move_loop-eq-fill_local limit 0 que.buf buf)

  -- A call of `queue_enqueue` while some producer has not ended stops at no `assert` and does what
  -- `NaiveQueueMaster::enqueue` does.
  pub queue_enqueue-eq-enqueue :
      (que : Queue A) (buf : Ring A) (limit consumers : ℕ)
      → que.n_terminated < que.n_producers
      → queue_enqueue que buf limit
        ≡ as_outcome (enqueue_no_timing (as_master que consumers) buf limit)
  unfolding queue_enqueue enqueue_no_timing as_outcome as_master as_queue queue_is_terminated
      ringbuffer_is_full full
  queue_enqueue-eq-enqueue que buf limit consumers h =
      ground (arith, move_loop-eq-drain_local limit 0 buf que.buf)
