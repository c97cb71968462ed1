-- ===== src/NaiveQueue/Takes.antt =====
-- What `pop` of one view does to the elements, and what `force_push` and `terminate` do.
use npb_sync.Prelude.{
  ℕ, ◌+◌, ◌-◌, ◌<◌, ◌≡◌, ◌≢◌, refl, sym, ap, ◌∙◌, Bool, true, false, Option, none, some, ◌∷◌, ◌++◌,
  length, length-append, length-take, take, arith, Bool-cases, inl, inr,
}
use npb_sync.Ring.{Ring, empty}
use npb_sync.Ring.Shape.{IsValid, contents, length-contents, empty_iff}
use npb_sync.Ring.Fifo.{pop-IsValid}
use npb_sync.NaiveQueue.Local.{empty_local-eq-empty, pop_local-eq-pop}
use npb_sync.NaiveQueue.Master.{Master, Reply, over, moved, Attempt, waits, returned, terminate}
use npb_sync.NaiveQueue.Transfer.{pop-some, size-pop}
use npb_sync.NaiveQueue.Calls.{Dequeued, Enqueued, dequeue_lem, enqueue_lem}
use npb_sync.NaiveQueue.Client.{
  Impl, reconfigure, pop_end, pop_filled, pop, force_push, force_pushed, terminate_round,
}
use npb_sync.NaiveQueue.Views.{
  IsSound, held, reconfigure_lem, Moved-append, n_elements-Moved, IsSound-ring,
}

module _ {A : Type 0} where
  pub pop_end_lem :
      (q : Impl A)
      → IsSound q
      → 0 < q.ring.n_elements
      → let (taken, q') = pop_end q in
        (v : A) × (taken ≡ some v) × (held q ≡ v ∷ held q') × IsSound q'
  unfolding pop_end
  pop_end_lem q s pos =
      let p = reconfigure q in
      let (same, sound, _) = reconfigure_lem q s in
      let count : 0 < p.ring.n_elements =
        omega (arith, length-contents p.ring, length-contents q.ring, ap length same) in
      let (v, taken, front) = pop-some p.ring sound.ring_valid count in
      rw (pop_local-eq-pop p.ring) (
        v,
        taken,
        sym same ∙ front,
        IsSound-ring p _ sound (pop-IsValid p.ring sound.ring_valid) (size-pop p.ring).0
            (size-pop p.ring).1,
      )

  -- how `pop` ends, from the shared ring and the view that it meets
  abbrev pub Popped : Master A → Impl A → Attempt (Option A × Master A × Impl A) → Type 0
  Popped m q waits =
      (m.buf.n_elements ≡ 0) × (m.n_producers ≢ m.n_terminated) × (q.ring.n_elements ≡ 0)
  Popped m q (returned (none, m', q')) =
      (m.buf.n_elements ≡ 0)
      × (m.n_producers ≡ m.n_terminated)
      × (q.ring.n_elements ≡ 0)
      × (m' ≡ m)
      × (q' ≡ q)
  Popped m q (returned (some v, m', q')) =
      (v ∷ (held q' ++ contents m'.buf) ≡ held q ++ contents m.buf)
      × IsValid m'.buf
      × (m'.buf.size ≡ m.buf.size)
      × (m' ≡ record m { buf = m'.buf })
      × IsSound q'

  pop_filled_lem :
      (m : Master A) (q : Impl A) (a : Attempt (Reply × Master A × Ring A))
      → IsSound q
      → q.ring.n_elements ≡ 0
      → Dequeued m q.ring (q.ring.size - 1) a
      → Popped m q (pop_filled q a)
  unfolding pop_filled
  pop_filled_lem m q waits s e (none_shared, left) = (none_shared, left, e)
  pop_filled_lem m q (returned (over, m', r)) s e (none_shared, left, same, same') =
      (none_shared, left, e, same, ap (λ x. record q { ring = x }) same')
  pop_filled_lem m q (returned (moved n, m', r)) s e (some_shared, count, went, kept) =
      let p = record q { ring = r } in
      let sound = IsSound-ring q r s went.dst_valid went.dst_size went.dst_allocated in
      let filled : 0 < r.n_elements = omega (
        arith,
        length-contents r,
        ap length went.added,
        length-append (held q) (take n (contents m.buf)),
        length-take n (contents m.buf),
        length-contents m.buf,
        length-contents q.ring,
        s.roomy,
      ) in
      let (v, taken, front, sound') = pop_end_lem p sound filled in
      rw taken (
        ap (λ xs. xs ++ contents m'.buf) (sym front) ∙ Moved-append n went,
        went.src_valid,
        went.src_size,
        kept,
        sound',
      )

  -- `pop` waits exactly if both rings are empty and a producer is left, and returns nothing, with
  -- no change, exactly if they are empty and none is. Else it returns the oldest element of the
  -- local ring, or of the shared one behind it, and keeps the others in order.
  pub pop_lem : (m : Master A) (q : Impl A) → IsValid m.buf → IsSound q → Popped m q (pop m q)
  unfolding pop
  pop_lem m q hm s = elim (Bool-cases (empty q.ring)) [
    | inl e ↦
        rw (empty_local-eq-empty q.ring, e)
          (pop_filled_lem m q _ s (ground (arith, empty_iff q.ring s.ring_valid))
            (dequeue_lem m q.ring (q.ring.size - 1) hm s.ring_valid))
    | inr e ↦
        let some_held : 0 < q.ring.n_elements = ground (arith, empty_iff q.ring s.ring_valid) in
        let (v, taken, front, sound) = pop_end_lem q s some_held in
        rw (empty_local-eq-empty q.ring, e, taken)
          (ap (λ xs. xs ++ contents m.buf) (sym front), hm, refl, refl, sound)
  ]

  -- how a call ends that only hands elements over, as `force_push` and a round of `terminate` do
  abbrev pub Handed : Master A → Impl A → Attempt (Master A × Impl A) → Type 0
  Handed m q waits = (m.buf.n_elements + 1 ≡ m.buf.size) × (0 < q.ring.n_elements)
  Handed m q (returned (m', q')) =
      (contents m'.buf ++ held q' ≡ contents m.buf ++ held q)
      × IsValid m'.buf
      × (m'.buf.size ≡ m.buf.size)
      × (m' ≡ record m { buf = m'.buf })
      × IsSound q'
      × (0 < q.ring.n_elements → q'.ring.n_elements < q.ring.n_elements)

  force_pushed_lem :
      (m : Master A) (q : Impl A) (limit : ℕ) (a : Attempt (Reply × Master A × Ring A))
      → 0 < limit
      → IsSound q
      → 0 < q.ring.n_elements
      → Enqueued m q.ring limit a
      → Handed m q (force_pushed q a)
  unfolding force_pushed
  force_pushed_lem m q limit waits pos s some_held h = (h, some_held)
  force_pushed_lem m q limit (returned (over, m', r)) pos s some_held h = absurd h
  force_pushed_lem m q limit (returned (moved n, m', r)) pos s some_held (room, count, went, kept) =
      (
        Moved-append n went,
        went.dst_valid,
        went.dst_size,
        kept,
        IsSound-ring q r s went.src_valid went.src_size went.src_allocated,
        λ _. omega (arith, count, n_elements-Moved n went),
      )

  -- `force_push` waits exactly if it has something to hand over and the shared ring is full. Else
  -- it hands over at least one element, if it has one, and keeps the order.
  pub force_push_lem :
      (m : Master A) (q : Impl A) → IsValid m.buf → IsSound q → Handed m q (force_push m q)
  unfolding force_push
  force_push_lem m q hm s = elim (Bool-cases (empty q.ring)) [
    | inl e ↦
        let none_held : q.ring.n_elements ≡ 0 = ground (arith, empty_iff q.ring s.ring_valid) in
        rw (empty_local-eq-empty q.ring, e)
          (refl, hm, refl, refl, s, λ some_held. absurd (omega arith))
    | inr e ↦
        let some_held : 0 < q.ring.n_elements = ground (arith, empty_iff q.ring s.ring_valid) in
        rw (empty_local-eq-empty q.ring, e)
          (force_pushed_lem m q q.ring.n_elements _ some_held s some_held
            (enqueue_lem m q.ring q.ring.n_elements hm s.ring_valid))
  ]

  -- how a round of `terminate` ends
  abbrev pub Ended : Master A → Impl A → Attempt (Bool × Master A × Impl A) → Type 0
  Ended m q waits = (m.buf.n_elements + 1 ≡ m.buf.size) × (0 < q.ring.n_elements)
  Ended m q (returned (false, m', q')) = Handed m q (returned (m', q')) × (0 < q.ring.n_elements)
  Ended m q (returned (true, m', q')) =
      (q.ring.n_elements ≡ 0) × (m' ≡ record m { n_terminated = m.n_terminated + 1 }) × (q' ≡ q)

  terminate-eq : (m : Master A) → (terminate m).1 ≡ record m { n_terminated = m.n_terminated + 1 }
  unfolding terminate
  terminate-eq m = ground arith

  ended_lem :
      (m : Master A) (q : Impl A) (a : Attempt (Master A × Impl A))
      → 0 < q.ring.n_elements
      → Handed m q a
      → Ended m q (elim a [ waits ↦ waits | returned (m', q') ↦ returned (false, m', q') ])
  ended_lem m q waits some_held h = h
  ended_lem m q (returned (m', q')) some_held h = (h, some_held)

  -- A round of `terminate` either finds the local ring empty and records the end of the producer,
  -- or hands over at least one element, or waits for room in the shared ring.
  pub terminate_round_lem :
      (m : Master A) (q : Impl A) → IsValid m.buf → IsSound q → Ended m q (terminate_round m q)
  unfolding terminate_round
  terminate_round_lem m q hm s = elim (Bool-cases (empty q.ring)) [
    | inl e ↦
        rw (empty_local-eq-empty q.ring, e)
          (ground (arith, empty_iff q.ring s.ring_valid), terminate-eq m, refl)
    | inr e ↦
        let some_held : 0 < q.ring.n_elements = ground (arith, empty_iff q.ring s.ring_valid) in
        rw (empty_local-eq-empty q.ring, e)
          (ended_lem m q _ some_held (
            force_pushed_lem m q (q.ring.size - 1) _ (omega (arith, s.roomy)) s some_held
              (enqueue_lem m q.ring (q.ring.size - 1) hm s.ring_valid)))
  ]
