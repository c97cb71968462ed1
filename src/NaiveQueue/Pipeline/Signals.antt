-- ===== src/NaiveQueue/Pipeline/Signals.antt =====
-- The calls of `notify_all` in src/naive_queue.hpp, and a producer and a consumer that sleep in
-- `_not_full.wait` and `_not_empty.wait` until they are notified.
use npb_sync.Prelude.{◌-◌, Bool, true, false, ◌==◌, ◌≡◌, ◌⊎◌, if◌then◌else◌}
use npb_sync.Ring.{Ring}
use npb_sync.NaiveQueue.Local.{empty_local, full_local}
use npb_sync.NaiveQueue.Master.{
  Master, Reply, over, moved, Attempt, waits, returned, terminate, enqueue_no_timing,
  dequeue_no_timing,
}
use npb_sync.NaiveQueue.Client.{Impl, push_end, pop, terminate_round}
use npb_sync.NaiveQueue.Pipeline.{
  Pipe, pushing, ending, Step, push_starts, push_ends, terminate_starts, terminate_goes_on,
  terminate_ends, pop_returns, pop_is_over, step_prepared,
}

-- whom a call notifies: the consumers through `_not_empty`, the producers through `_not_full`
pub data Signal : Type 0 where
  nobody consumers producers : Signal

-- the pipeline, and which of its two threads sleep
pub record Threads (A : Type 0) : Type 0 where
  pub pipe : Pipe A
  pub producer_sleeps : Bool
  pub consumer_sleeps : Bool

module _ {A : Type 0} where
  unfoldable pub enqueue_signal : Attempt (Reply × Master A × Ring A) → Signal
  enqueue_signal waits = nobody
  enqueue_signal (returned (over, m, local)) = nobody
  enqueue_signal (returned (moved i, m, local)) = if i == 0 then nobody else consumers

  unfoldable pub dequeue_signal : Attempt (Reply × Master A × Ring A) → Signal
  dequeue_signal waits = nobody
  dequeue_signal (returned (over, m, local)) = nobody
  dequeue_signal (returned (moved i, m, local)) = if i == 0 then nobody else producers

  unfoldable pub terminate_signal : Master A → Signal
  terminate_signal m = if (terminate m).0 then consumers else nobody

  -- the same for the calls of a view
  unfoldable pub push_signal : Master A → Impl A → Signal
  unfolding enqueue_signal
  push_signal m q =
      if full_local q.ring
      then enqueue_signal (enqueue_no_timing m q.ring (q.ring.size - 1))
      else nobody

  unfoldable pub round_signal : Master A → Impl A → Signal
  unfolding enqueue_signal terminate_signal
  round_signal m q =
      if empty_local q.ring
      then terminate_signal m
      else enqueue_signal (enqueue_no_timing m q.ring (q.ring.size - 1))

  unfoldable pub pop_signal : Master A → Impl A → Signal
  unfolding dequeue_signal
  pop_signal m q =
      if empty_local q.ring
      then dequeue_signal (dequeue_no_timing m q.ring (q.ring.size - 1))
      else nobody

  abbrev pub signal_of : {s s' : Pipe A} → Step s s' → Signal
  signal_of {s} (push_starts v e) = nobody
  signal_of {s} (push_ends e h) = push_signal s.master s.producer
  signal_of {s} (terminate_starts e) = nobody
  signal_of {s} (terminate_goes_on e h) = round_signal s.master s.producer
  signal_of {s} (terminate_ends e h) = round_signal s.master s.producer
  signal_of {s} (pop_returns e h) = pop_signal s.master s.consumer
  signal_of {s} (pop_is_over e h) = pop_signal s.master s.consumer
  signal_of {s} (step_prepared p c a a' b b') = nobody

  -- whether the thread that takes the step is awake; the observer, which prepares steps, always is
  abbrev pub Awake : (t : Threads A) {s' : Pipe A} → Step t.pipe s' → Type 0
  Awake t (push_starts v e) = t.producer_sleeps ≡ false
  Awake t (push_ends e h) = t.producer_sleeps ≡ false
  Awake t (terminate_starts e) = t.producer_sleeps ≡ false
  Awake t (terminate_goes_on e h) = t.producer_sleeps ≡ false
  Awake t (terminate_ends e h) = t.producer_sleeps ≡ false
  Awake t (pop_returns e h) = t.consumer_sleeps ≡ false
  Awake t (pop_is_over e h) = t.consumer_sleeps ≡ false
  Awake t (step_prepared p c a a' b b') = Unit

  unfoldable pub wake : Signal → Threads A → Threads A
  wake nobody t = t
  wake consumers t = record t { consumer_sleeps = false }
  wake producers t = record t { producer_sleeps = false }

  -- a call of the producer that waits
  abbrev pub IsBlocked : Pipe A → Type 0
  IsBlocked s =
      ((s.phase ≡ pushing) × (push_end s.master s.producer ≡ waits))
      ⊎ ((s.phase ≡ ending) × (terminate_round s.master s.producer ≡ waits))

  -- A step of a thread that is awake notifies whom its call notifies; a thread whose call waits
  -- falls asleep; and it may wake up without a reason, as the standard allows.
  pub data Moves (t₀ : Threads A) : Threads A → Type 0 where
    at_rest : Moves t₀ t₀
    step_taken :
        {t : Threads A} {s' : Pipe A}
        → Moves t₀ t
        → (st : Step t.pipe s') → Awake t st
        → Moves t₀ (wake (signal_of st) (record t { pipe = s' }))
    producer_waits :
        {t : Threads A}
        → Moves t₀ t
        → IsBlocked t.pipe
        → Moves t₀ (record t { producer_sleeps = true })
    consumer_waits :
        {t : Threads A}
        → Moves t₀ t
        → t.pipe.finished ≡ false
        → pop t.pipe.master t.pipe.consumer ≡ waits
        → Moves t₀ (record t { consumer_sleeps = true })
    producer_wakes : {t : Threads A} → Moves t₀ t → Moves t₀ (record t { producer_sleeps = false })
    consumer_wakes : {t : Threads A} → Moves t₀ t → Moves t₀ (record t { consumer_sleeps = false })
