-- ===== src/NaiveQueue/Timed.antt =====
-- The calls of `NaiveQueueMaster<T>` and `NaiveQueueImpl<T>` in src/naive_queue.hpp that measure
-- themselves: `dequeue`, `timed_dequeue`, `enqueue`, `timed_pop` and `cross_pop`. The readings of
-- the steady clock are arguments, in nanoseconds; they never decrease, so that the difference
-- that `diff` converts to an unsigned number is not negative.
use npb_sync.Prelude.{ℕ, ◌+◌, ◌-◌, ◌≤◌, ◌≡◌, Bool, true, false, Option, none, arith, if◌then◌else◌}
use npb_sync.Ring.{Ring, empty, full}
use npb_sync.NaiveQueue.Local.{empty_local, pop_local}
use npb_sync.NaiveQueue.Master.{
  Master, Reply, over, moved, Attempt, waits, returned, terminated, fill_local, drain_local,
  dequeue_no_timing, enqueue_no_timing, timed_dequeue_no_timing,
}
use npb_sync.NaiveQueue.Client.{Impl, reconfigure, pop, pop_end, pop_filled, cross_pop_no_timing}

-- `begin_lock`, `begin_sc`, `begin_unlock` and `end_unlock` of one call
pub record Readings : Type 0 where
  pub begin_lock : ℕ
  pub begin_sc : ℕ
  pub begin_unlock : ℕ
  pub end_unlock : ℕ

-- the durations that are returned: waiting for the lock, in the critical section, unlocking
pub record Costs : Type 0 where
  pub lock : ℕ
  pub critical : ℕ
  pub unlock : ℕ

abbrev pub diff : ℕ → ℕ → ℕ
diff begin end = end - begin

unfoldable pub costs : Readings → Costs
costs t = record {
  lock = diff t.begin_lock t.begin_sc;
  critical = diff t.begin_sc t.begin_unlock;
  unlock = diff t.begin_unlock t.end_unlock;
}

-- If the clock does not go back, the three durations that `costs` returns add up to the time
-- between the first and the last reading.
pub costs_lem :
    (t : Readings)
    → t.begin_lock ≤ t.begin_sc
    → t.begin_sc ≤ t.begin_unlock
    → t.begin_unlock ≤ t.end_unlock
    → (costs t).lock + (costs t).critical + (costs t).unlock ≡ t.end_unlock - t.begin_lock
unfolding costs
costs_lem t h h' h'' = ground arith

abbrev pub no_costs : Costs
no_costs = record { lock = 0; critical = 0; unlock = 0 }

module _ {ℓ} {A : Type ℓ} where
  unfoldable pub dequeue :
      Readings → Master A → Ring A → ℕ → Attempt ((Reply × Costs) × Master A × Ring A)
  unfolding terminated
  dequeue t m local limit =
      let (i, buf', local') = fill_local limit 0 m.buf local in
      if empty m.buf
      then (if terminated m then returned ((over, no_costs), m, local) else waits)
      else returned ((moved i, costs t), record m { buf = buf' }, local')

  unfoldable pub enqueue :
      Readings → Master A → Ring A → ℕ → Attempt ((Reply × Costs) × Master A × Ring A)
  enqueue t m local limit =
      let (i, buf', local') = drain_local limit 0 m.buf local in
      if full m.buf then waits else returned ((moved i, costs t), record m { buf = buf' }, local')

  -- `locked`: `try_lock_for` obtained the mutex before the timeout
  unfoldable pub timed_dequeue :
      Bool → Readings → Master A → Ring A → ℕ → Attempt (Bool × (Reply × Costs) × Master A × Ring A)
  unfolding terminated
  timed_dequeue locked t m local limit =
      let (i, buf', local') = fill_local limit 0 m.buf local in
      if locked
      then (if empty m.buf
          then (if terminated m then returned (false, (over, no_costs), m, local) else waits)
          else returned (false, (moved i, costs t), record m { buf = buf' }, local'))
      else returned (true, (moved 0, no_costs), m, local)

  -- `timed_pop` after its `dequeue`
  unfoldable pub timed_pop_filled :
      Impl A
      → Attempt ((Reply × Costs) × Master A × Ring A)
      → Attempt ((Option A × Costs) × Master A × Impl A)
  timed_pop_filled q waits = waits
  timed_pop_filled q (returned ((over, c), m', r)) = returned ((none, c), m', record q { ring = r })
  timed_pop_filled q (returned ((moved i, c), m', r)) =
      let q' = reconfigure (record q { ring = r }) in
      let (taken, r') = pop_local q'.ring in returned ((taken, c), m', record q' { ring = r' })

  unfoldable pub timed_pop :
      Readings → Master A → Impl A → Attempt ((Option A × Costs) × Master A × Impl A)
  unfolding timed_pop_filled
  timed_pop t m q =
      if empty_local q.ring
      then timed_pop_filled q (dequeue t m q.ring (q.ring.size - 1))
      else (let q' = reconfigure q in
          let (taken, r) = pop_local q'.ring in
          returned ((taken, no_costs), m, record q' { ring = r }))

  -- `cross_pop` after its `timed_dequeue`; the flag of the result is false after a timeout
  unfoldable pub cross_pop_filled :
      Readings
      → Impl A
      → Attempt (Bool × (Reply × Costs) × Master A × Ring A)
      → Attempt (((Option A × Costs) × Bool) × Master A × Impl A)
  cross_pop_filled t q waits = waits
  cross_pop_filled t q (returned (true, reply, m', r)) =
      returned (((none, no_costs), false), m', record q { ring = r })
  cross_pop_filled t q (returned (false, (over, c), m', r)) =
      returned (((none, c), true), m', record q { ring = r })
  cross_pop_filled t q (returned (false, (moved i, c), m', r)) =
      elim (timed_pop t m' (record q { ring = r })) [
        | waits ↦ waits
        | returned (taken, m'', q'') ↦ returned ((taken, true), m'', q'')
      ]

  unfoldable pub cross_pop :
      Bool
      → Readings
      → Master A
      → Impl A
      → Attempt (((Option A × Costs) × Bool) × Master A × Impl A)
  unfolding cross_pop_filled
  cross_pop locked t m q =
      if empty_local q.ring
      then cross_pop_filled t q (timed_dequeue locked t m q.ring (q.ring.size - 1))
      else elim (timed_pop t m q) [
        | waits ↦ waits
        | returned (taken, m', q') ↦ returned ((taken, true), m', q')
      ]

module _ {A : Type 0} where
  -- an attempt without the durations that it returns
  unfoldable pub untimed :
      {B C : Type 0} → Attempt ((B × Costs) × Master A × C) → Attempt (B × Master A × C)
  untimed waits = waits
  untimed (returned ((reply, c), m, x)) = returned (reply, m, x)

  unfoldable pub untimed_cross :
      Attempt (((Option A × Costs) × Bool) × Master A × Impl A)
      → Attempt (Bool × Option A × Master A × Impl A)
  untimed_cross waits = waits
  untimed_cross (returned (((taken, c), in_time), m, q)) =
      returned (if in_time then false else true, taken, m, q)

  -- Without their durations, `dequeue`, `enqueue`, `timed_pop` and `cross_pop` do and return what
  -- their doubles without timing do and return, whatever the clock shows.
  pub untimed_lem :
      (t : Readings) (locked : Bool) (m : Master A) (q : Impl A) (limit : ℕ)
      → (untimed (dequeue t m q.ring limit) ≡ dequeue_no_timing m q.ring limit)
        × (untimed (enqueue t m q.ring limit) ≡ enqueue_no_timing m q.ring limit)
        × (untimed (timed_pop t m q) ≡ pop m q)
        × (untimed_cross (cross_pop locked t m q) ≡ cross_pop_no_timing locked m q)
  unfolding untimed untimed_cross dequeue dequeue_no_timing enqueue enqueue_no_timing timed_pop
      timed_pop_filled pop pop_filled pop_end cross_pop cross_pop_filled timed_dequeue
      timed_dequeue_no_timing cross_pop_no_timing
  untimed_lem t locked m q limit = (ground arith, ground arith, ground arith, ground arith)
