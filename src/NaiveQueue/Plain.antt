-- ===== src/NaiveQueue/Plain.antt =====
-- The class `NaiveQueue<T>` of src/naive_queue.hpp: a shared ring buffer for threads that keep a
-- `Ringbuffer<T>` each, without views. A call is one attempt under the mutex, as in `Master`.
use npb_sync.Prelude.{
  ◌||◌, ℕ, zero, suc, ◌+◌, ◌≡◌, refl, Bool, true, false, Option, none, some, arith, ◌==◌,
  if◌then◌else◌,
}
use npb_sync.Memory.{Memory}
use npb_sync.Ring.{Ring, init, empty, full, pop, push}
use npb_sync.NaiveQueue.Local.{empty_local, full_local, push_local, pop_local}
use npb_sync.NaiveQueue.Master.{
  Master, Reply, over, moved, Attempt, waits, returned, fill_local, drain_local, dequeue_no_timing,
  enqueue_no_timing, terminated, terminate,
}

pub record NaiveQueue {ℓ} (A : Type ℓ) : Type ℓ where
  pub buf : Ring A
  pub n_producers : ℕ
  pub n_terminated : ℕ

module _ {ℓ} {A : Type ℓ} where
  -- the constructor, or `delayed_init`
  unfoldable pub delayed_init : Option (Memory A) → ℕ → ℕ → Option (NaiveQueue A)
  delayed_init array size producers = elim (init array size) [
    | none ↦ none
    | some b ↦ some (record { buf = b; n_producers = producers; n_terminated = 0 })
  ]

  unfoldable pub terminated_plain : NaiveQueue A → Bool
  terminated_plain q = q.n_producers == q.n_terminated

  -- The flag says whether all waiting consumers are woken.
  unfoldable pub terminate_plain : NaiveQueue A → Bool × NaiveQueue A
  unfolding terminated_plain
  terminate_plain q =
      let q' = record q { n_terminated = q.n_terminated + 1 } in
      if terminated_plain q' then (true, q') else (false, q')

  -- the loops of `dequeue` and `enqueue`, from the round `i` on with `k` rounds left
  unfoldable pub transfer : ℕ → ℕ → Ring A → Ring A → ℕ × Ring A × Ring A
  transfer zero i source target = (i, source, target)
  transfer (suc k) i source target =
      let (temp, source') = pop source in
      let target' : Ring A = elim temp [ none ↦ target | some v ↦ (push target v).1 ] in
      let rest = transfer k (i + 1) source' target' in
      if empty source || full target then (i, source, target) else rest

  unfoldable pub dequeue_plain : NaiveQueue A → Ring A → ℕ → Attempt (Reply × NaiveQueue A × Ring A)
  unfolding terminated_plain
  dequeue_plain q buf limit =
      let (i, shared, buf') = transfer limit 0 q.buf buf in
      if empty q.buf
      then (if terminated_plain q then returned (over, q, buf) else waits)
      else returned (moved i, record q { buf = shared }, buf')

  unfoldable pub enqueue_plain : NaiveQueue A → Ring A → ℕ → Attempt (Reply × NaiveQueue A × Ring A)
  enqueue_plain q buf limit =
      let (i, buf', shared) = transfer limit 0 buf q.buf in
      if full q.buf then waits else returned (moved i, record q { buf = shared }, buf')

module _ {A : Type 0} where
  unfoldable pub plain : Master A → NaiveQueue A
  plain m = record { buf = m.buf; n_producers = m.n_producers; n_terminated = m.n_terminated }

  -- an attempt on a master, as one on the plain queue with the same contents
  unfoldable pub plain_attempt :
      Attempt (Reply × Master A × Ring A) → Attempt (Reply × NaiveQueue A × Ring A)
  unfolding plain
  plain_attempt waits = waits
  plain_attempt (returned (reply, m, r)) = returned (reply, plain m, r)

  pub transfer-eq-fill_local :
      (k i : ℕ) (source target : Ring A) → transfer k i source target ≡ fill_local k i source target
  unfolding transfer fill_local full full_local push push_local pop empty
  transfer-eq-fill_local zero i source target = refl
  transfer-eq-fill_local (suc k) i source target = ground (
    arith,
    transfer-eq-fill_local k (i + 1) (pop source).1 (push target (source.memory source.tail)).1,
  )

  pub transfer-eq-drain_local :
      (k i : ℕ) (source target : Ring A)
      → transfer k i source target
        ≡ (let (j, to, from) = drain_local k i target source in (j, from, to))
  unfolding transfer drain_local empty empty_local pop pop_local
  transfer-eq-drain_local zero i source target = refl
  transfer-eq-drain_local (suc k) i source target = ground (
    arith,
    transfer-eq-drain_local k (i + 1) (pop source).1 (push target (source.memory source.tail)).1,
  )

  -- `terminate`, `dequeue` and `enqueue` of a `NaiveQueue` do to it what those of a
  -- `NaiveQueueMaster` with the same contents do, and reply the same.
  pub plain_lem :
      (m : Master A) (buf : Ring A) (limit : ℕ)
      → (terminate_plain (plain m) ≡ (let (woken, m') = terminate m in (woken, plain m')))
        × (dequeue_plain (plain m) buf limit ≡ plain_attempt (dequeue_no_timing m buf limit))
        × (enqueue_plain (plain m) buf limit ≡ plain_attempt (enqueue_no_timing m buf limit))
  unfolding terminate_plain terminate terminated terminated_plain dequeue_plain enqueue_plain
      dequeue_no_timing enqueue_no_timing plain_attempt plain
  plain_lem m buf limit = (
    ground arith,
    ground (arith, transfer-eq-fill_local limit 0 m.buf buf),
    ground (arith, transfer-eq-drain_local limit 0 buf m.buf),
  )
