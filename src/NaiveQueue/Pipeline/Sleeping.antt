-- ===== src/NaiveQueue/Pipeline/Sleeping.antt =====
-- What the notifications of src/naive_queue.hpp do for a thread that sleeps: the other thread wakes it
-- up with any step that ends the reason for its sleep.
use npb_sync.Prelude.{
  ◌+◌, ◌-◌, ◌<◌, ◌≡◌, ◌≢◌, ◌⊎◌, inl, inr, subst, true, false, Option, none, some, arith, Bool-cases,
}
use npb_sync.Ring.{Ring, empty, full}
use npb_sync.Ring.Shape.{IsValid, empty_iff, full_iff}
use npb_sync.NaiveQueue.Local.{empty_local-eq-empty, full_local-eq-full}
use npb_sync.NaiveQueue.Master.{
  Master, Reply, over, moved, Attempt, waits, returned, terminate, terminated,
}
use npb_sync.NaiveQueue.Calls.{Enqueued, enqueue_lem, Dequeued, dequeue_lem}
use npb_sync.NaiveQueue.Client.{Impl, push_end, push_handed, pop, prepare_reconfigure}
use npb_sync.NaiveQueue.Views.{IsSound}
use npb_sync.NaiveQueue.Takes.{Ended, terminate_round_lem}
use npb_sync.NaiveQueue.Pipeline.{
  pushing, ending, Pipe, Step, push_starts, push_ends, terminate_starts, terminate_goes_on,
  terminate_ends, pop_returns, pop_is_over, step_prepared, Inv,
}
use npb_sync.NaiveQueue.Pipeline.Signals.{
  consumers, producers, enqueue_signal, dequeue_signal, terminate_signal, push_signal, round_signal,
  pop_signal, signal_of, Threads, Awake,
}

module _ {A : Type 0} where
  enqueue_notifies :
      (m : Master A) (q : Impl A) (a : Attempt (Reply × Master A × Ring A))
      → Enqueued m q.ring (q.ring.size - 1) a
      → IsSound q
      → 0 < q.ring.n_elements
      → m.buf.n_elements + 1 < m.buf.size
      → enqueue_signal a ≡ consumers
  unfolding enqueue_signal
  enqueue_notifies m q waits h s pos w = absurd (omega arith)
  enqueue_notifies m q (returned (over, m', r)) h s pos w = absurd h
  enqueue_notifies m q (returned (moved i, m', r)) (room, count, went, kept) s pos w =
      let some_moved : 0 < i = omega (arith, s.roomy) in ground arith

  dequeue_notifies :
      (m : Master A) (q : Impl A) (a : Attempt (Reply × Master A × Ring A))
      → Dequeued m q.ring (q.ring.size - 1) a
      → IsSound q
      → q.ring.n_elements ≡ 0
      → 0 < m.buf.n_elements
      → dequeue_signal a ≡ producers
  unfolding dequeue_signal
  dequeue_notifies m q waits h s none_held pos = absurd (omega arith)
  dequeue_notifies m q (returned (over, m', r)) h s none_held pos = absurd (omega arith)
  dequeue_notifies m q (returned (moved i, m', r)) (room, count, went, kept) s none_held pos =
      let some_moved : 0 < i = omega (arith, s.roomy) in ground arith

  -- A call of the producer that returns has notified the consumers, or has not touched the shared ring,
  -- which has room.
  push_notifies :
      (m m' : Master A) (q q' : Impl A)
      → IsValid m.buf
      → m.buf.n_elements + 1 < m.buf.size
      → IsSound q
      → push_end m q ≡ returned (m', q')
      → (push_signal m q ≡ consumers) ⊎ (m' ≡ m)
  unfolding push_end push_signal push_handed
  push_notifies m m' q q' hm room s e = elim (Bool-cases (full q.ring)) [
    | inl f ↦ inl (
        rw (full_local-eq-full q.ring, f)
          (enqueue_notifies m q _ (enqueue_lem m q.ring (q.ring.size - 1) hm s.ring_valid) s
            (ground (arith, full_iff q.ring s.ring_valid, s.roomy)) room))
    | inr f ↦ inr (let e' = rw (full_local-eq-full q.ring, f) at e in cc e')
  ]

  round_notifies :
      (m : Master A) (q : Impl A)
      → IsValid m.buf
      → m.buf.n_elements + 1 < m.buf.size
      → IsSound q
      → 0 < q.ring.n_elements
      → round_signal m q ≡ consumers
  unfolding round_signal
  round_notifies m q hm room s pos =
      let some_held : empty q.ring ≡ false = ground (arith, empty_iff q.ring s.ring_valid) in
      rw (empty_local-eq-empty q.ring, some_held)
        (enqueue_notifies m q _ (enqueue_lem m q.ring (q.ring.size - 1) hm s.ring_valid) s pos room)

  last_round_notifies :
      (m : Master A) (q : Impl A)
      → IsSound q
      → q.ring.n_elements ≡ 0
      → m.n_producers ≡ m.n_terminated + 1
      → round_signal m q ≡ consumers
  unfolding round_signal terminate_signal terminate terminated
  last_round_notifies m q s none_held last =
      let none_there : empty q.ring ≡ true = ground (arith, empty_iff q.ring s.ring_valid) in
      rw (empty_local-eq-empty q.ring, none_there) (ground arith)

  -- the same for the consumer
  pop_notifies :
      (m m' : Master A) (q q' : Impl A) (o : Option A)
      → IsValid m.buf
      → 0 < m.buf.n_elements
      → IsSound q
      → pop m q ≡ returned (o, m', q')
      → (pop_signal m q ≡ producers) ⊎ (m' ≡ m)
  unfolding pop pop_signal
  pop_notifies m m' q q' o hm some_there s e = elim (Bool-cases (empty q.ring)) [
    | inl f ↦ inl (
        rw (empty_local-eq-empty q.ring, f)
          (dequeue_notifies m q _ (dequeue_lem m q.ring (q.ring.size - 1) hm s.ring_valid) s
            (ground (arith, empty_iff q.ring s.ring_valid)) some_there))
    | inr f ↦ inr (let e' = rw (empty_local-eq-empty q.ring, f) at e in cc e')
  ]

  -- where a thread may sleep
  pub record ConsumerRests (s : Pipe A) : Type 0 where
    pub none_there : s.master.buf.n_elements ≡ 0
    pub one_left : s.master.n_producers ≢ s.master.n_terminated
    pub none_held : s.consumer.ring.n_elements ≡ 0
    pub not_over : s.finished ≡ false

  pub record ProducerRests (s : Pipe A) : Type 0 where
    pub no_room : s.master.buf.n_elements + 1 ≡ s.master.buf.size
    pub in_call :
        ((s.phase ≡ pushing) × (s.producer.ring.n_elements + 1 ≡ s.producer.ring.size))
        ⊎ ((s.phase ≡ ending) × (0 < s.producer.ring.n_elements))

  pub consumer_kept :
      (t : Threads A) {s' : Pipe A} (st : Step t.pipe s')
      → Awake t st
      → t.consumer_sleeps ≡ true
      → Inv t.pipe
      → ConsumerRests t.pipe
      → (signal_of st ≡ consumers) ⊎ ConsumerRests s'
  unfolding prepare_reconfigure
  consumer_kept t (push_starts v e) a sleeps i r = inr (record {
    none_there = r.none_there;
    one_left = r.one_left;
    none_held = r.none_held;
    not_over = r.not_over;
  })
  consumer_kept t (push_ends {m} {q} e h) a sleeps i r =
      elim (push_notifies t.pipe.master m t.pipe.producer q i.shared_valid
        (omega (arith, r.none_there, i.shared_roomy)) i.producer_sound h) [
          | inl p ↦ inl p
          | inr same ↦ inr (record {
            none_there = rw same r.none_there;
            one_left = rw same r.one_left;
            none_held = r.none_held;
            not_over = r.not_over;
          })
        ]
  consumer_kept t (terminate_starts e) a sleeps i r = inr (record {
    none_there = r.none_there;
    one_left = r.one_left;
    none_held = r.none_held;
    not_over = r.not_over;
  })
  consumer_kept t (terminate_goes_on {m} {q} e h) a sleeps i r =
      let (_, pos) =
        subst (Ended t.pipe.master t.pipe.producer) h
          (terminate_round_lem t.pipe.master t.pipe.producer i.shared_valid i.producer_sound) in
      inl (
        round_notifies t.pipe.master t.pipe.producer i.shared_valid
          (omega (arith, r.none_there, i.shared_roomy)) i.producer_sound pos)
  consumer_kept t (terminate_ends {m} {q} e h) a sleeps i r =
      let (none_held, _, _) =
        subst (Ended t.pipe.master t.pipe.producer) h
          (terminate_round_lem t.pipe.master t.pipe.producer i.shared_valid i.producer_sound) in
      inl (
        last_round_notifies t.pipe.master t.pipe.producer i.producer_sound none_held
          (ground (arith, i.count, i.one_producer, e)))
  consumer_kept t (pop_returns e h) a sleeps i r = absurd (cc (a, sleeps))
  consumer_kept t (pop_is_over e h) a sleeps i r = absurd (cc (a, sleeps))
  consumer_kept t (step_prepared p c b b' d d') a sleeps i r = inr (record {
    none_there = r.none_there;
    one_left = r.one_left;
    none_held = r.none_held;
    not_over = r.not_over;
  })

  pub producer_kept :
      (t : Threads A) {s' : Pipe A} (st : Step t.pipe s')
      → Awake t st
      → t.producer_sleeps ≡ true
      → Inv t.pipe
      → ProducerRests t.pipe
      → (signal_of st ≡ producers) ⊎ ProducerRests s'
  unfolding prepare_reconfigure
  producer_kept t (push_starts v e) a sleeps i r = absurd (cc (a, sleeps))
  producer_kept t (push_ends e h) a sleeps i r = absurd (cc (a, sleeps))
  producer_kept t (terminate_starts e) a sleeps i r = absurd (cc (a, sleeps))
  producer_kept t (terminate_goes_on e h) a sleeps i r = absurd (cc (a, sleeps))
  producer_kept t (terminate_ends e h) a sleeps i r = absurd (cc (a, sleeps))
  producer_kept t (pop_returns {v} {m} {q} e h) a sleeps i r =
      elim (pop_notifies t.pipe.master m t.pipe.consumer q (some v) i.shared_valid
        (omega (arith, r.no_room, i.shared_roomy)) i.consumer_sound h) [
          | inl p ↦ inl p
          | inr same ↦ inr (record { no_room = rw same r.no_room; in_call = r.in_call })
        ]
  producer_kept t (pop_is_over {m} {q} e h) a sleeps i r =
      elim (pop_notifies t.pipe.master m t.pipe.consumer q none i.shared_valid
        (omega (arith, r.no_room, i.shared_roomy)) i.consumer_sound h) [
          | inl p ↦ inl p
          | inr same ↦ inr (record { no_room = rw same r.no_room; in_call = r.in_call })
        ]
  producer_kept t (step_prepared p c b b' d d') a sleeps i r =
      inr (record { no_room = r.no_room; in_call = r.in_call })
