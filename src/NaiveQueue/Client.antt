-- ===== src/NaiveQueue/Client.antt =====
-- `NaiveQueueImpl<T>` of src/naive_queue.hpp, the view that one thread has of a queue, without the
-- timings: `push`, `pop`, `cross_pop_no_timing`, `force_push` and `terminate`. RECONFIGURE is 1, as
-- in src/naive_queue_conf.h. The fields `_reconfigure`, `_threshold`, `_processed` and `_changed` are
-- read in no code that is compiled, and `_begin` only times; they are left out.
use npb_sync.Prelude.{ℕ, ◌-◌, Bool, true, false, Option, none, some, if◌then◌else◌}
use npb_sync.Memory.{Memory}
use npb_sync.Ring.{Ring}
use npb_sync.NaiveQueue.Local.{init_local, empty_local, full_local, push_local, pop_local, resize}
use npb_sync.NaiveQueue.Master.{
  Master, Reply, over, moved, Attempt, waits, returned, terminate, enqueue_no_timing,
  dequeue_no_timing, timed_dequeue_no_timing,
}

pub record Impl {ℓ} (A : Type ℓ) : Type ℓ where
  pub ring : Ring A
  pub producer : Bool
  pub new_step : ℕ
  pub need_reconfigure : Bool
  pub reconfigured : Bool

module _ {ℓ} {A : Type ℓ} where
  unfoldable pub create_impl : Option (Memory A) → Bool → ℕ → ℕ → Option (Impl A)
  create_impl array producer size new_step = elim (init_local array size) [
    | none ↦ none
    | some r ↦ some (record {
      ring = r;
      producer = producer;
      new_step = new_step;
      need_reconfigure = false;
      reconfigured = false;
    })
  ]

  unfoldable pub get_step : Impl A → ℕ
  get_step q = q.ring.size - 1

  unfoldable pub was_reconfigured : Impl A → Bool
  was_reconfigured q = q.reconfigured

  unfoldable pub prepare_reconfigure : Impl A → ℕ → Impl A
  prepare_reconfigure q size = record q { new_step = size; need_reconfigure = true }

  -- the block under `#if RECONFIGURE == 1`
  unfoldable pub reconfigure : Impl A → Impl A
  reconfigure q =
      let (done, r) = resize q.ring q.new_step in
      if q.need_reconfigure
      then (if done
          then record q { ring = r; reconfigured = true; need_reconfigure = false }
          else record q { ring = r })
      else q

  -- `push` first adds to the local ring; the flag that this returns is not looked at.
  unfoldable pub push_begin : Impl A → A → Impl A
  push_begin q v = record q { ring = (push_local q.ring v).1 }

  -- `push` after its `enqueue`
  unfoldable pub push_handed :
      Impl A → Attempt (Reply × Master A × Ring A) → Attempt (Master A × Impl A)
  unfolding reconfigure
  push_handed q waits = waits
  push_handed q (returned (reply, m', r)) = returned (m', reconfigure (record q { ring = r }))

  -- The rest of `push`: a full ring is handed over, which may wait.
  unfoldable pub push_end : Master A → Impl A → Attempt (Master A × Impl A)
  unfolding reconfigure push_handed
  push_end m q =
      if full_local q.ring
      then push_handed q (enqueue_no_timing m q.ring (q.ring.size - 1))
      else returned (m, reconfigure q)

  -- `pop` after it knows that the local ring is not empty, or that it has been filled
  unfoldable pub pop_end : Impl A → Option A × Impl A
  unfolding reconfigure
  pop_end q =
      let q' = reconfigure q in
      let (taken, r) = pop_local q'.ring in (taken, record q' { ring = r })

  -- `pop` after its `dequeue`
  unfoldable pub pop_filled :
      Impl A → Attempt (Reply × Master A × Ring A) → Attempt (Option A × Master A × Impl A)
  unfolding pop_end
  pop_filled q waits = waits
  pop_filled q (returned (over, m', r)) = returned (none, m', record q { ring = r })
  pop_filled q (returned (moved i, m', r)) =
      let (taken, q') = pop_end (record q { ring = r }) in returned (taken, m', q')

  unfoldable pub pop : Master A → Impl A → Attempt (Option A × Master A × Impl A)
  unfolding pop_end pop_filled
  pop m q =
      if empty_local q.ring
      then pop_filled q (dequeue_no_timing m q.ring (q.ring.size - 1))
      else (let (taken, q') = pop_end q in returned (taken, m, q'))

  -- `force_push` after its `enqueue`
  unfoldable pub force_pushed :
      Impl A → Attempt (Reply × Master A × Ring A) → Attempt (Master A × Impl A)
  force_pushed q waits = waits
  force_pushed q (returned (reply, m', r)) = returned (m', record q { ring = r })

  unfoldable pub force_push : Master A → Impl A → Attempt (Master A × Impl A)
  unfolding force_pushed
  force_push m q =
      if empty_local q.ring
      then returned (m, q)
      else force_pushed q (enqueue_no_timing m q.ring q.ring.n_elements)

  -- One test of `while (!empty())` in `terminate`, with the call in its body; the flag says that
  -- the loop has ended, and that the end of this producer is recorded.
  unfoldable pub terminate_round : Master A → Impl A → Attempt (Bool × Master A × Impl A)
  unfolding force_pushed
  terminate_round m q =
      if empty_local q.ring
      then returned (true, (terminate m).1, q)
      else elim (force_pushed q (enqueue_no_timing m q.ring (q.ring.size - 1))) [
        | waits ↦ waits
        | returned (m', q') ↦ returned (false, m', q')
      ]

-- what `cross_pop_no_timing` does with the queue that it reads, and whether it timed out: then it
-- calls `force_push` on the other queue.
module _ {ℓ} {A : Type ℓ} where
  unfoldable pub cross_pop_no_timing :
      Bool → Master A → Impl A → Attempt (Bool × Option A × Master A × Impl A)
  cross_pop_no_timing locked m q =
      if empty_local q.ring
      then elim (timed_dequeue_no_timing locked m q.ring (q.ring.size - 1)) [
        | waits ↦ waits
        | returned (true, reply, m', r) ↦ returned (true, none, m', record q { ring = r })
        | returned (false, over, m', r) ↦ returned (false, none, m', record q { ring = r })
        | returned (false, moved i, m', r) ↦ elim (pop m' (record q { ring = r })) [
          | waits ↦ waits
          | returned (taken, m'', q'') ↦ returned (false, taken, m'', q'')
        ]
      ]
      else elim (pop m q) [
        | waits ↦ waits
        | returned (taken, m', q') ↦ returned (false, taken, m', q')
      ]
