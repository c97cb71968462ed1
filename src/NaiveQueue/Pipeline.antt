-- ===== src/NaiveQueue/Pipeline.antt =====
-- A producer and a consumer, each with its view, over one `NaiveQueueMaster<T>`. Every step is one
-- attempt of a call, which the mutex keeps apart from those of the other thread; at any moment a
-- new step may be prepared for either view. `produced` and `consumed` record what went in and out.
pub mod Order
pub mod Delivery
pub mod Signals
pub mod Sleeping
pub mod Deadlock
use npb_sync.Prelude.{
  ℕ, ◌+◌, ◌≤◌, ◌<◌, ◌^◌, ◌≡◌, Bool, true, false, Option, none, some, List, [], ◌∷◌, ◌++◌,
}
use npb_sync.Memory.{Memory}
use npb_sync.Ring.Shape.{IsValid, contents}
use npb_sync.NaiveQueue.Master.{create, view, Master, returned}
use npb_sync.NaiveQueue.Client.{
  create_impl, Impl, prepare_reconfigure, push_begin, push_end, pop, terminate_round,
}
use npb_sync.NaiveQueue.Views.{IsSound, held, HasRoom}

-- where the producer stands: between two calls, inside `push`, inside `terminate`, or after it
pub data Phase : Type 0 where
  idle pushing ending ended : Phase

-- the number of producers that have ended, of one
abbrev pub ended_count : Phase → ℕ
ended_count ended = 1
ended_count idle = 0
ended_count pushing = 0
ended_count ending = 0

pub record Pipe (A : Type 0) : Type 0 where
  pub master : Master A
  pub producer : Impl A
  pub consumer : Impl A
  pub phase : Phase
  -- the consumer has been told that all is over
  pub finished : Bool
  pub produced : List A
  pub consumed : List A

module _ {A : Type 0} where
  pub data Step (s : Pipe A) : Pipe A → Type 0 where
    push_starts :
        (v : A)
        → s.phase ≡ idle
        → Step s (record s {
          producer = push_begin s.producer v;
          phase = pushing;
          produced = s.produced ++ v ∷ [];
        })
    push_ends :
        {m : Master A} {q : Impl A}
        → s.phase ≡ pushing
        → push_end s.master s.producer ≡ returned (m, q)
        → Step s (record s { master = m; producer = q; phase = idle })
    terminate_starts : s.phase ≡ idle → Step s (record s { phase = ending })
    terminate_goes_on :
        {m : Master A} {q : Impl A}
        → s.phase ≡ ending
        → terminate_round s.master s.producer ≡ returned (false, m, q)
        → Step s (record s { master = m; producer = q })
    terminate_ends :
        {m : Master A} {q : Impl A}
        → s.phase ≡ ending
        → terminate_round s.master s.producer ≡ returned (true, m, q)
        → Step s (record s { master = m; producer = q; phase = ended })
    pop_returns :
        {v : A} {m : Master A} {q : Impl A}
        → s.finished ≡ false
        → pop s.master s.consumer ≡ returned (some v, m, q)
        → Step s (record s { master = m; consumer = q; consumed = s.consumed ++ v ∷ [] })
    pop_is_over :
        {m : Master A} {q : Impl A}
        → s.finished ≡ false
        → pop s.master s.consumer ≡ returned (none, m, q)
        → Step s (record s { master = m; consumer = q; finished = true })
    step_prepared :
        (p c : ℕ)
        → p + 1 ≤ s.producer.ring.allocated
        → p + 1 < 2 ^ 31
        → c + 1 ≤ s.consumer.ring.allocated
        → c + 1 < 2 ^ 31
        → Step s (record s {
          producer = prepare_reconfigure s.producer p;
          consumer = prepare_reconfigure s.consumer c;
        })

  pub data Reach (s : Pipe A) : Pipe A → Type 0 where
    here : Reach s s
    next : {t u : Pipe A} → Reach s t → Step t u → Reach s u

  -- the elements on their way, oldest first
  abbrev pub in_flight : Pipe A → List A
  in_flight s = held s.consumer ++ (contents s.master.buf ++ held s.producer)

  pub record Inv (s : Pipe A) : Type 0 where
    pub shared_valid : IsValid s.master.buf
    pub shared_roomy : 2 ≤ s.master.buf.size
    pub producer_sound : IsSound s.producer
    pub consumer_sound : IsSound s.consumer
    pub one_producer : s.master.n_producers ≡ 1
    pub count : s.master.n_terminated ≡ ended_count s.phase
    pub room : s.phase ≡ idle → HasRoom s.producer
    pub flushed : s.phase ≡ ended → s.producer.ring.n_elements ≡ 0
    pub over :
        s.finished ≡ true
        → (s.phase ≡ ended) × (s.master.buf.n_elements ≡ 0) × (s.consumer.ring.n_elements ≡ 0)
    pub order : s.consumed ++ in_flight s ≡ s.produced

  -- The objects as the constructors leave them, over arrays that `malloc` returned: one shared
  -- ring for `shared` elements, one producer, and views with the step `step`.
  unfoldable pub launch : Memory A → Memory A → Memory A → ℕ → ℕ → Option (Pipe A)
  unfolding create create_impl
  launch array array' array'' shared step = elim (create (some array) shared 1) [
    | none ↦ none
    | some m ↦ elim (create_impl (some array') true step step) [
      | none ↦ none
      | some p ↦ elim (create_impl (some array'') false step step) [
        | none ↦ none
        | some c ↦ some (record {
          master = view (view m true) false;
          producer = p;
          consumer = c;
          phase = idle;
          finished = false;
          produced = [];
          consumed = [];
        })
      ]
    ]
  ]
