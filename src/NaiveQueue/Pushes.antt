-- ===== src/NaiveQueue/Pushes.antt =====
-- What the end of `push` of src/naive_queue.hpp hands over.
use npb_sync.Prelude.{
  ℕ, ◌+◌, ◌-◌, ◌<◌, ◌≤◌, ◌≡◌, ◌≢◌, ◌⊎◌, refl, ap, sym, ◌∙◌, min, arith, Bool-cases, inl, inr, ◌++◌,
  append-nil, take, drop, if◌then◌else◌, true,
}
use npb_sync.Ring.{Ring, full}
use npb_sync.Ring.Shape.{IsValid, contents, full_iff}
use npb_sync.NaiveQueue.Local.{full_local-eq-full}
use npb_sync.NaiveQueue.Master.{Master, Reply, over, moved, Attempt, waits, returned}
use npb_sync.NaiveQueue.Calls.{Enqueued, enqueue_lem}
use npb_sync.NaiveQueue.Client.{Impl, push_end, push_handed}
use npb_sync.NaiveQueue.Views.{IsSound, held, reconfigure_lem, Flushed, push_end_lem, IsSound-ring}

module _ {A : Type 0} where
  -- the number of elements that a call hands over
  abbrev pub handed_count : Master A → Impl A → ℕ
  handed_count m q =
      if full q.ring then min q.ring.n_elements (m.buf.size - 1 - m.buf.n_elements) else 0

  abbrev pub HandsOver : Master A → Impl A → Attempt (Master A × Impl A) → Type 0
  HandsOver m q waits = (m.buf.n_elements + 1 ≡ m.buf.size) × (q.ring.n_elements + 1 ≡ q.ring.size)
  HandsOver m q (returned (m', q')) =
      let k = handed_count m q in
      (contents m'.buf ≡ contents m.buf ++ take k (held q))
      × (held q' ≡ drop k (held q))
      × ((q.ring.n_elements + 1 ≢ q.ring.size) ⊎ (m.buf.n_elements + 1 < m.buf.size))

  handed_lem :
      (m : Master A) (q : Impl A) (a : Attempt (Reply × Master A × Ring A))
      → IsSound q
      → full q.ring ≡ true
      → q.ring.n_elements + 1 ≡ q.ring.size
      → Enqueued m q.ring (q.ring.size - 1) a
      → HandsOver m q (push_handed q a)
  unfolding push_handed
  handed_lem m q waits s f e h = (h, e)
  handed_lem m q (returned (over, m', r)) s f e h = absurd h
  handed_lem m q (returned (moved n, m', r)) s f e (room, count, went, kept) =
      let sound = IsSound-ring q r s went.src_valid went.src_size went.src_allocated in
      let (same, _, _) = reconfigure_lem (record q { ring = r }) sound in
      let k : n ≡ min q.ring.n_elements (m.buf.size - 1 - m.buf.n_elements) = omega arith in
      rw f (
        went.added ∙ ap (λ i. contents m.buf ++ take i (held q)) k,
        same ∙ went.left ∙ ap (λ i. drop i (held q)) k,
        inr room,
      )

  -- For sound rings with room for one element at least, the end of `push` waits exactly if the local
  -- ring and the shared one are both full. Else it returns: from a full local ring it has moved the
  -- oldest elements behind those of the shared ring, as many as that has room for, and from another
  -- none; the rest stays in order, both rings stay sound, and the local one has room.
  pub push_end_exact :
      (m : Master A) (q : Impl A)
      → IsValid m.buf
      → 2 ≤ m.buf.size
      → IsSound q
      → Flushed m q (push_end m q) × HandsOver m q (push_end m q)
  unfolding push_end
  push_end_exact m q hm two s = (
    push_end_lem m q hm two s,
    elim (Bool-cases (full q.ring)) [
      | inl f ↦
          rw (full_local-eq-full q.ring, f)
            (handed_lem m q _ s f (ground (arith, full_iff q.ring s.ring_valid))
              (enqueue_lem m q.ring (q.ring.size - 1) hm s.ring_valid))
      | inr f ↦
          let (same, _, _) = reconfigure_lem q s in
          let none_moved : handed_count m q ≡ 0 = rw f refl in
          rw (full_local-eq-full q.ring, f)
            (
              sym (append-nil (contents m.buf))
                  ∙ ap (λ k. contents m.buf ++ take k (held q)) (sym none_moved),
              same ∙ ap (λ k. drop k (held q)) (sym none_moved),
              inl (λ e. ground (arith, full_iff q.ring s.ring_valid, e, f)),
            )
    ],
  )
