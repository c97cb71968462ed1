-- ===== src/NaiveQueue/Calls.antt =====
-- The calls of `NaiveQueueMaster<T>`: when each waits, and what it does when it does not.
use npb_sync.Prelude.{ℕ, ◌+◌, ◌-◌, ◌<◌, ◌≡◌, ◌≢◌, refl, min, arith, ◌==◌, Bool-cases, inl, inr}
use npb_sync.Ring.{Ring, empty, full}
use npb_sync.Ring.Shape.{IsValid, empty_iff, full_iff}
use npb_sync.NaiveQueue.Master.{
  Master, Reply, over, moved, Attempt, waits, returned, enqueue_no_timing, dequeue_no_timing,
}
use npb_sync.NaiveQueue.Transfer.{Moved, fill_local_lem, drain_local_lem}

module _ {A : Type 0} where
  -- how the outcome of `dequeue` follows from the state that it meets
  abbrev pub Dequeued : Master A → Ring A → ℕ → Attempt (Reply × Master A × Ring A) → Type 0
  Dequeued m local limit waits = (m.buf.n_elements ≡ 0) × (m.n_producers ≢ m.n_terminated)
  Dequeued m local limit (returned (over, m', local')) =
      (m.buf.n_elements ≡ 0) × (m.n_producers ≡ m.n_terminated) × (m' ≡ m) × (local' ≡ local)
  Dequeued m local limit (returned (moved n, m', local')) =
      (0 < m.buf.n_elements)
      × (n ≡ min limit (min m.buf.n_elements (local.size - 1 - local.n_elements)))
      × Moved n m.buf local m'.buf local'
      × (m' ≡ record m { buf = m'.buf })

  -- and of `enqueue`
  abbrev pub Enqueued : Master A → Ring A → ℕ → Attempt (Reply × Master A × Ring A) → Type 0
  Enqueued m local limit waits = m.buf.n_elements + 1 ≡ m.buf.size
  Enqueued m local limit (returned (over, m', local')) = ⊥
  Enqueued m local limit (returned (moved n, m', local')) =
      (m.buf.n_elements + 1 < m.buf.size)
      × (n ≡ min limit (min local.n_elements (m.buf.size - 1 - m.buf.n_elements)))
      × Moved n local m.buf local' m'.buf
      × (m' ≡ record m { buf = m'.buf })

  -- `dequeue` waits exactly on an empty ring with a producer left, returns -1 with no change on an
  -- empty ring with none, and else moves the oldest elements, as many as the limit, the elements
  -- and the room allow.
  pub dequeue_lem :
      (m : Master A) (local : Ring A) (limit : ℕ)
      → IsValid m.buf
      → IsValid local
      → Dequeued m local limit (dequeue_no_timing m local limit)
  unfolding dequeue_no_timing
  dequeue_lem m local limit hm hl = elim (Bool-cases (empty m.buf)) [
    | inl e ↦ elim (Bool-cases (m.n_producers == m.n_terminated)) [
      | inl t ↦ rw (e, t) (ground (arith, empty_iff m.buf hm))
      | inr t ↦ rw (e, t) (ground (arith, empty_iff m.buf hm))
    ]
    | inr e ↦ rw e (
      ground (arith, empty_iff m.buf hm),
      (fill_local_lem limit m.buf local hm hl).0,
      (fill_local_lem limit m.buf local hm hl).1,
      refl,
    )
  ]

  -- `enqueue` waits exactly on a full ring, and else moves the oldest elements, as many as the
  -- limit, the elements and the room allow. It never returns -1.
  pub enqueue_lem :
      (m : Master A) (local : Ring A) (limit : ℕ)
      → IsValid m.buf
      → IsValid local
      → Enqueued m local limit (enqueue_no_timing m local limit)
  unfolding enqueue_no_timing
  enqueue_lem m local limit hm hl = elim (Bool-cases (full m.buf)) [
    | inl e ↦ rw e (ground (arith, full_iff m.buf hm))
    | inr e ↦ rw e (
      ground (arith, full_iff m.buf hm, hm.spare),
      (drain_local_lem limit m.buf local hm hl).0,
      (drain_local_lem limit m.buf local hm hl).1,
      refl,
    )
  ]
