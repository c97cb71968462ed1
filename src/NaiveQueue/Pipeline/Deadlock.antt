-- ===== src/NaiveQueue/Pipeline/Deadlock.antt =====
-- A producer and a consumer over src/naive_queue.hpp never sleep both.
use npb_sync.Prelude.{◌≡◌, ◌≢◌, ◌⊎◌, inl, inr, subst, true, false, arith, Bool-cases}
use npb_sync.NaiveQueue.Master.{waits}
use npb_sync.NaiveQueue.Client.{push_end, pop, terminate_round}
use npb_sync.NaiveQueue.Views.{push_end_lem, Flushed}
use npb_sync.NaiveQueue.Takes.{Popped, pop_lem, Ended, terminate_round_lem}
use npb_sync.NaiveQueue.Pipeline.{ended, Pipe, Inv}
use npb_sync.NaiveQueue.Pipeline.Order.{Step-Inv}
use npb_sync.NaiveQueue.Pipeline.Signals.{
  Signal, nobody, consumers, producers, signal_of, Threads, wake, IsBlocked, Moves, at_rest,
  step_taken, producer_waits, consumer_waits, producer_wakes, consumer_wakes,
}
use npb_sync.NaiveQueue.Pipeline.Sleeping.{
  ConsumerRests, ProducerRests, consumer_kept, producer_kept,
}

module _ {A : Type 0} where
  -- Both threads sleep only where they would wait again.
  pub record Rested (t : Threads A) : Type 0 where
    pub inv : Inv t.pipe
    pub consumer : t.consumer_sleeps ≡ true → ConsumerRests t.pipe
    pub producer : t.producer_sleeps ≡ true → ProducerRests t.pipe

  wake-Rested :
      (sg : Signal) (t : Threads A)
      → Inv t.pipe
      → (t.consumer_sleeps ≡ true → (sg ≡ consumers) ⊎ ConsumerRests t.pipe)
      → (t.producer_sleeps ≡ true → (sg ≡ producers) ⊎ ProducerRests t.pipe)
      → Rested (wake sg t)
  unfolding wake
  wake-Rested nobody t i c p = record {
    inv = i;
    consumer = λ h. elim (c h) [ inl e ↦ absurd (cc e) | inr r ↦ r ];
    producer = λ h. elim (p h) [ inl e ↦ absurd (cc e) | inr r ↦ r ];
  }
  wake-Rested consumers t i c p = record {
    inv = i;
    consumer = λ h. absurd (cc h);
    producer = λ h. elim (p h) [ inl e ↦ absurd (cc e) | inr r ↦ r ];
  }
  wake-Rested producers t i c p = record {
    inv = i;
    consumer = λ h. elim (c h) [ inl e ↦ absurd (cc e) | inr r ↦ r ];
    producer = λ h. absurd (cc h);
  }

  blocked_rests : (s : Pipe A) → Inv s → IsBlocked s → ProducerRests s
  blocked_rests s i (inl (e, w)) =
      let (full_shared, full_local) =
        subst (Flushed s.master s.producer) w
          (push_end_lem s.master s.producer i.shared_valid i.shared_roomy i.producer_sound) in
      record { no_room = full_shared; in_call = inl (e, full_local) }
  blocked_rests s i (inr (e, w)) =
      let (full_shared, some_held) =
        subst (Ended s.master s.producer) w
          (terminate_round_lem s.master s.producer i.shared_valid i.producer_sound) in
      record { no_room = full_shared; in_call = inr (e, some_held) }

  moves_lem : {t₀ t : Threads A} → Rested t₀ → Moves t₀ t → Rested t
  moves_lem r at_rest = r
  moves_lem r (step_taken {t} {s'} before st awake) =
      let r' = moves_lem r before in
      wake-Rested (signal_of st) (record t { pipe = s' }) (Step-Inv st r'.inv)
        (λ h. consumer_kept t st awake h r'.inv (r'.consumer h))
        (λ h. producer_kept t st awake h r'.inv (r'.producer h))
  moves_lem r (producer_waits {t} before blocked) =
      let r' = moves_lem r before in
      record {
        inv = r'.inv;
        consumer = r'.consumer;
        producer = λ h. blocked_rests t.pipe r'.inv blocked;
      }
  moves_lem r (consumer_waits {t} before left w) =
      let r' = moves_lem r before in
      let (none_there, one_left, none_held) =
        subst (Popped t.pipe.master t.pipe.consumer) w
          (pop_lem t.pipe.master t.pipe.consumer r'.inv.shared_valid r'.inv.consumer_sound) in
      record {
        inv = r'.inv;
        consumer = λ h. record {
          none_there = none_there;
          one_left = one_left;
          none_held = none_held;
          not_over = left;
        };
        producer = r'.producer;
      }
  moves_lem r (producer_wakes before) =
      let r' = moves_lem r before in
      record { inv = r'.inv; consumer = r'.consumer; producer = λ h. absurd (cc h) }
  moves_lem r (consumer_wakes before) =
      let r' = moves_lem r before in
      record { inv = r'.inv; consumer = λ h. absurd (cc h); producer = r'.producer }

  sleeper_alone : (t : Threads A) → Rested t → ConsumerRests t.pipe → t.producer_sleeps ≡ false
  sleeper_alone t r c = elim (Bool-cases t.producer_sleeps) [
    | inl p ↦
        let same = (r.producer p).no_room in
        absurd (omega (arith, same, c.none_there, r.inv.shared_roomy))
    | inr p ↦ p
  ]

  -- From two threads that are awake, over any sequence of steps, sleeps and wake-ups in which each
  -- call notifies whom the code notifies: while the consumer sleeps, the shared ring is empty and the
  -- producer has not ended, the producer is awake, and neither of its calls waits; and while the
  -- producer sleeps, the shared ring is full, the consumer has not been told that all is over, it is
  -- awake, and its `pop` does not wait.
  pub no_deadlock :
      (s : Pipe A) (t : Threads A)
      → Inv s
      → Moves (record { pipe = s; producer_sleeps = false; consumer_sleeps = false }) t
      → ((t.consumer_sleeps ≡ false)
          ⊎ (ConsumerRests t.pipe
              × (t.producer_sleeps ≡ false)
              × (t.pipe.phase ≢ ended)
              × (push_end t.pipe.master t.pipe.producer ≢ waits)
              × (terminate_round t.pipe.master t.pipe.producer ≢ waits)))
        × ((t.producer_sleeps ≡ false)
            ⊎ (ProducerRests t.pipe
                × (t.consumer_sleeps ≡ false)
                × (t.pipe.finished ≡ false)
                × (pop t.pipe.master t.pipe.consumer ≢ waits)))
  no_deadlock s t i moves =
      let r : Rested t =
        moves_lem (record { inv = i; consumer = λ h. absurd (cc h); producer = λ h. absurd (cc h) })
          moves in
      let m = t.pipe.master in
      let j = r.inv in
      (
        elim (Bool-cases t.consumer_sleeps) [
          | inr h ↦ inl h
          | inl h ↦
              let c = r.consumer h in
              inr (
                c,
                sleeper_alone t r c,
                λ e. ground (arith, j.count, j.one_producer, c.one_left, e),
                λ w.
                    let (full_shared, _) = subst (Flushed m t.pipe.producer) w (
                      push_end_lem m t.pipe.producer j.shared_valid j.shared_roomy
                        j.producer_sound) in
                    omega (arith, full_shared, c.none_there, j.shared_roomy),
                λ w.
                    let (full_shared, _) =
                      subst (Ended m t.pipe.producer) w
                        (terminate_round_lem m t.pipe.producer j.shared_valid j.producer_sound) in
                    omega (arith, full_shared, c.none_there, j.shared_roomy),
              )
        ],
        elim (Bool-cases t.producer_sleeps) [
          | inr h ↦ inl h
          | inl h ↦
              let p = r.producer h in
              inr (
                p,
                elim (Bool-cases t.consumer_sleeps) [
                  | inl b ↦
                      let none_there = (r.consumer b).none_there in
                      absurd (omega (arith, none_there, p.no_room, j.shared_roomy))
                  | inr b ↦ b
                ],
                elim (Bool-cases t.pipe.finished) [
                  | inl b ↦
                      let (_, none_there, _) = j.over b in
                      absurd (omega (arith, none_there, p.no_room, j.shared_roomy))
                  | inr b ↦ b
                ],
                λ w.
                    let (none_there, _, _) =
                      subst (Popped m t.pipe.consumer) w
                        (pop_lem m t.pipe.consumer j.shared_valid j.consumer_sound) in
                    omega (arith, none_there, p.no_room, j.shared_roomy),
              )
        ],
      )
