-- ===== src/NaiveQueue/Pipeline/Delivery.antt =====
-- What a producer and a consumer can rely on, from the start of a pipeline to its end.
use npb_sync.Prelude.{
  ℕ, ◌-◌, ◌<◌, ◌^◌, ◌≡◌, refl, sym, ap, ◌∙◌, true, some, List, [], ◌∷◌, ◌++◌, append-nil, arith,
  length,
}
use npb_sync.Memory.{Memory}
use npb_sync.Ring.{init}
use npb_sync.Ring.Shape.{contents, length-contents}
use npb_sync.NaiveQueue.Local.{init_local, local_cells}
use npb_sync.NaiveQueue.Master.{create, view}
use npb_sync.NaiveQueue.Client.{create_impl}
use npb_sync.NaiveQueue.Views.{held}
use npb_sync.NaiveQueue.Pipeline.{idle, Pipe, Reach, in_flight, Inv, launch}
use npb_sync.NaiveQueue.Pipeline.Order.{Reach-Inv}

module _ {A : Type 0} where
  -- With room for one element at least, and a step below the million cells of the local arrays,
  -- the constructors set up a pipeline in which nothing has been produced.
  pub launch-Inv :
      (array array' array'' : Memory A) (shared step : ℕ)
      → 0 < shared
      → shared < 2 ^ 31 - 1
      → 0 < step
      → step < local_cells
      → (s : Pipe A) × (launch array array' array'' shared step ≡ some s)
        × Inv s
        × (s.produced ≡ [])
        × (s.consumed ≡ [])
        × (s.phase ≡ idle)
  unfolding launch create create_impl init init_local view
  launch-Inv array array' array'' shared step h h' k k' = (
    _,
    refl,
    record {
      shared_valid = ground arith;
      shared_roomy = ground arith;
      producer_sound = ground arith;
      consumer_sound = ground arith;
      one_producer = refl;
      count = refl;
      room = λ _. ground arith;
      flushed = λ p. cc;
      over = λ p. cc;
      order = refl;
    },
    refl,
    refl,
    refl,
  )

  -- At every moment the elements consumed are the first of those produced, in order, and the
  -- others are on their way, in order.
  pub order_kept : {s t : Pipe A} → Inv s → Reach s t → t.consumed ++ in_flight t ≡ t.produced
  order_kept i r = (Reach-Inv i r).order

  no_elements : (q : List A) → length q ≡ 0 → q ≡ []
  no_elements [] h = refl
  no_elements (v ∷ q) h = absurd (omega arith)

  -- Once the consumer is told that all is over, it has got every element, in order.
  pub all_delivered :
      {s t : Pipe A} → Inv s → Reach s t → t.finished ≡ true → t.consumed ≡ t.produced
  all_delivered {s} {t} i r f =
      let j = Reach-Inv i r in
      let (e, shared, held_c) = j.over f in
      let a = no_elements (held t.consumer) (length-contents t.consumer.ring ∙ held_c) in
      let b = no_elements (contents t.master.buf) (length-contents t.master.buf ∙ shared) in
      let c = no_elements (held t.producer) (length-contents t.producer.ring ∙ j.flushed e) in
      sym (append-nil t.consumed)
      ∙ ap (λ xs. t.consumed ++ xs) (sym (ground (arith, a, b, c)))
      ∙ j.order
