-- ===== src/NaiveQueue/Pipeline/Order.antt =====
-- Nothing is lost, doubled or reordered between a producer and a consumer.
use npb_sync.Prelude.{
  ℕ, ◌+◌, ◌≤◌, ◌<◌, ◌^◌, ◌≡◌, sym, ap, ◌∙◌, true, false, none, some, List, [], ◌∷◌, ◌++◌,
  append_assoc, arith, subst,
}
use npb_sync.Ring.Shape.{contents}
use npb_sync.NaiveQueue.Master.{Master, returned}
use npb_sync.NaiveQueue.Client.{
  Impl, prepare_reconfigure, push_begin, push_end, pop, terminate_round,
}
use npb_sync.NaiveQueue.Views.{held, push_begin_lem, push_end_lem, Flushed}
use npb_sync.NaiveQueue.Takes.{Popped, pop_lem, Ended, terminate_round_lem}
use npb_sync.NaiveQueue.Pipeline.{
  idle, pushing, ending, ended, Pipe, Step, push_starts, push_ends, terminate_starts,
  terminate_goes_on, terminate_ends, pop_returns, pop_is_over, step_prepared, Reach, here, next,
  Inv,
}

module _ {A : Type 0} where
  -- the orders of elements that the steps need
  added_last :
      (done c b p all : List A) (v : A)
      → done ++ (c ++ (b ++ p)) ≡ all
      → done ++ (c ++ (b ++ (p ++ v ∷ []))) ≡ all ++ v ∷ []
  added_last done c b p all v e = simp (← e, append_assoc)

  taken_first :
      (done c b p c' b' : List A) (v : A)
      → v ∷ (c' ++ b') ≡ c ++ b
      → (done ++ v ∷ []) ++ (c' ++ (b' ++ p)) ≡ done ++ (c ++ (b ++ p))
  taken_first done c b p c' b' v e =
      append_assoc done (v ∷ []) (c' ++ (b' ++ p))
      ∙ ap (λ xs. done ++ xs)
          (ap (◌∷◌ v) (sym (append_assoc c' b' p)) ∙ ap (λ xs. xs ++ p) e ∙ append_assoc c b p)

  push_starts-Inv :
      (s : Pipe A) (v : A)
      → s.phase ≡ idle
      → Inv s
      → Inv (record s {
        producer = push_begin s.producer v;
        phase = pushing;
        produced = s.produced ++ v ∷ [];
      })
  push_starts-Inv s v e i =
      let (added, sound) = push_begin_lem s.producer v i.producer_sound (i.room e) in
      record {
        shared_valid = i.shared_valid;
        shared_roomy = i.shared_roomy;
        producer_sound = sound;
        consumer_sound = i.consumer_sound;
        one_producer = i.one_producer;
        count = ground (arith, i.count);
        room = λ h. cc;
        flushed = λ h. cc;
        over = λ h. ground (arith, i.over h);
        order = rw added (
            added_last s.consumed (held s.consumer) (contents s.master.buf) (held s.producer)
              s.produced v i.order);
      }

  push_ends-Inv :
      (s : Pipe A) (m : Master A) (q : Impl A)
      → s.phase ≡ pushing
      → push_end s.master s.producer ≡ returned (m, q)
      → Inv s
      → Inv (record s { master = m; producer = q; phase = idle })
  push_ends-Inv s m q e r i =
      let flushed =
        push_end_lem s.master s.producer i.shared_valid i.shared_roomy i.producer_sound in
      let (same, valid, size, kept, sound, room) = subst (Flushed s.master s.producer) r flushed in
      record {
        shared_valid = valid;
        shared_roomy = rw size i.shared_roomy;
        producer_sound = sound;
        consumer_sound = i.consumer_sound;
        one_producer = ground (arith, kept, i.one_producer);
        count = ground (arith, kept, i.count);
        room = λ h. room;
        flushed = λ h. cc;
        over = λ h. cc ((i.over h).0);
        order = rw same i.order;
      }

  terminate_starts-Inv : (s : Pipe A) → s.phase ≡ idle → Inv s → Inv (record s { phase = ending })
  terminate_starts-Inv s e i = record {
    shared_valid = i.shared_valid;
    shared_roomy = i.shared_roomy;
    producer_sound = i.producer_sound;
    consumer_sound = i.consumer_sound;
    one_producer = i.one_producer;
    count = ground (arith, i.count);
    room = λ h. cc;
    flushed = λ h. cc;
    over = λ h. cc ((i.over h).0);
    order = i.order;
  }

  terminate_goes_on-Inv :
      (s : Pipe A) (m : Master A) (q : Impl A)
      → s.phase ≡ ending
      → terminate_round s.master s.producer ≡ returned (false, m, q)
      → Inv s
      → Inv (record s { master = m; producer = q })
  terminate_goes_on-Inv s m q e r i =
      let went = terminate_round_lem s.master s.producer i.shared_valid i.producer_sound in
      let ((same, valid, size, kept, sound, _), _) = subst (Ended s.master s.producer) r went in
      record {
        shared_valid = valid;
        shared_roomy = rw size i.shared_roomy;
        producer_sound = sound;
        consumer_sound = i.consumer_sound;
        one_producer = ground (arith, kept, i.one_producer);
        count = ground (arith, kept, i.count);
        room = λ h. cc;
        flushed = λ h. cc;
        over = λ h. cc ((i.over h).0);
        order = rw same i.order;
      }

  terminate_ends-Inv :
      (s : Pipe A) (m : Master A) (q : Impl A)
      → s.phase ≡ ending
      → terminate_round s.master s.producer ≡ returned (true, m, q)
      → Inv s
      → Inv (record s { master = m; producer = q; phase = ended })
  terminate_ends-Inv s m q e r i =
      let went = terminate_round_lem s.master s.producer i.shared_valid i.producer_sound in
      let (none_held, kept, same) = subst (Ended s.master s.producer) r went in
      rw (kept, same)
        (record {
          shared_valid = i.shared_valid;
          shared_roomy = i.shared_roomy;
          producer_sound = i.producer_sound;
          consumer_sound = i.consumer_sound;
          one_producer = i.one_producer;
          count = ground (arith, i.count);
          room = λ h. cc;
          flushed = λ h. none_held;
          over = λ h. cc ((i.over h).0);
          order = i.order;
        })

  pop_returns-Inv :
      (s : Pipe A) (v : A) (m : Master A) (q : Impl A)
      → s.finished ≡ false
      → pop s.master s.consumer ≡ returned (some v, m, q)
      → Inv s
      → Inv (record s { master = m; consumer = q; consumed = s.consumed ++ v ∷ [] })
  pop_returns-Inv s v m q e r i =
      let went = pop_lem s.master s.consumer i.shared_valid i.consumer_sound in
      let (same, valid, size, kept, sound) = subst (Popped s.master s.consumer) r went in
      record {
        shared_valid = valid;
        shared_roomy = rw size i.shared_roomy;
        producer_sound = i.producer_sound;
        consumer_sound = sound;
        one_producer = ground (arith, kept, i.one_producer);
        count = ground (arith, kept, i.count);
        room = i.room;
        flushed = i.flushed;
        over = λ h. cc;
        order =
            taken_first s.consumed (held s.consumer) (contents s.master.buf) (held s.producer)
              (held q) (contents m.buf) v same
            ∙ i.order;
      }

  pop_is_over-Inv :
      (s : Pipe A) (m : Master A) (q : Impl A)
      → pop s.master s.consumer ≡ returned (none, m, q)
      → Inv s
      → Inv (record s { master = m; consumer = q; finished = true })
  pop_is_over-Inv s m q r i =
      let went = pop_lem s.master s.consumer i.shared_valid i.consumer_sound in
      let (empty, last, none_held, kept, same) = subst (Popped s.master s.consumer) r went in
      rw (kept, same)
        (record {
          shared_valid = i.shared_valid;
          shared_roomy = i.shared_roomy;
          producer_sound = i.producer_sound;
          consumer_sound = i.consumer_sound;
          one_producer = i.one_producer;
          count = i.count;
          room = i.room;
          flushed = i.flushed;
          over = λ h. (ground (arith, i.count, i.one_producer), empty, none_held);
          order = i.order;
        })

  step_prepared-Inv :
      (s : Pipe A) (p c : ℕ)
      → p + 1 ≤ s.producer.ring.allocated
      → p + 1 < 2 ^ 31
      → c + 1 ≤ s.consumer.ring.allocated
      → c + 1 < 2 ^ 31
      → Inv s
      → Inv (record s {
        producer = prepare_reconfigure s.producer p;
        consumer = prepare_reconfigure s.consumer c;
      })
  unfolding prepare_reconfigure
  step_prepared-Inv s p c hp hp' hc hc' i = record {
    shared_valid = i.shared_valid;
    shared_roomy = i.shared_roomy;
    producer_sound = ground (arith, i.producer_sound);
    consumer_sound = ground (arith, i.consumer_sound);
    one_producer = i.one_producer;
    count = i.count;
    room = i.room;
    flushed = i.flushed;
    over = i.over;
    order = i.order;
  }

  -- Every step keeps the invariant.
  pub Step-Inv : {s t : Pipe A} → Step s t → Inv s → Inv t
  Step-Inv {s} (push_starts v e) i = push_starts-Inv s v e i
  Step-Inv {s} (push_ends {m} {q} e r) i = push_ends-Inv s m q e r i
  Step-Inv {s} (terminate_starts e) i = terminate_starts-Inv s e i
  Step-Inv {s} (terminate_goes_on {m} {q} e r) i = terminate_goes_on-Inv s m q e r i
  Step-Inv {s} (terminate_ends {m} {q} e r) i = terminate_ends-Inv s m q e r i
  Step-Inv {s} (pop_returns {v} {m} {q} e r) i = pop_returns-Inv s v m q e r i
  Step-Inv {s} (pop_is_over {m} {q} e r) i = pop_is_over-Inv s m q r i
  Step-Inv {s} (step_prepared p c hp hp' hc hc') i = step_prepared-Inv s p c hp hp' hc hc' i

  pub Reach-Inv : {s t : Pipe A} → Inv s → Reach s t → Inv t
  Reach-Inv i here = i
  Reach-Inv i (next r st) = Step-Inv st (Reach-Inv i r)
