-- ===== src/Dedup/Workers/Deduplicating/Waiting.antt =====
-- When the thread Deduplicate of src/dedup/encode_naive_queue.cpp waits.
use npb_sync.Prelude.{ℕ, ◌+◌, ◌≡◌, ◌≢◌, Bool, List, [], Option, none, some}
use npb_sync.Ring.Shape.{IsValid}
use npb_sync.NaiveQueue.Master.{Master, Attempt, waits, returned}
use npb_sync.NaiveQueue.Client.{Impl, pop, push_end, force_push, terminate_round}
use npb_sync.NaiveQueue.Views.{IsSound, HasRoom, Flushed, push_end_lem}
use npb_sync.NaiveQueue.Takes.{Popped, pop_lem, Handed, force_push_lem, Ended, terminate_round_lem}
use npb_sync.Dedup.EncodeCommon.{Libraries, Encoder}
use npb_sync.Dedup.Workers.{
  Lane, hand, hand_over, flush, force, close, Task, popping, forcing_output, forcing_extra,
  pushing_output, pushing_extra, closing_output, closing_extra, ended, Deduplicator,
  deduplicate_popped, after, deduplicate_step,
}
use npb_sync.Dedup.Workers.Lanes.{IsLane}
use npb_sync.Dedup.Workers.Deduplicating.{Keeps}
use npb_sync.Dedup.Workers.Deduplicating.Delivered.{Reach, reach_lem}

abbrev pub IsFull : Lane → Type 0
IsFull l = l.master.buf.n_elements + 1 ≡ l.master.buf.size

-- the reason for which a call of the thread waits
abbrev pub WaitsFor : Deduplicator → Task → Type 0
WaitsFor w popping =
    (w.input.buf.n_elements ≡ 0)
    × (w.input.n_producers ≢ w.input.n_terminated)
    × (w.input_view.ring.n_elements ≡ 0)
WaitsFor w (forcing_output chunk) = IsFull w.output
WaitsFor w (forcing_extra chunk) = IsFull w.extra
WaitsFor w pushing_output = IsFull w.output
WaitsFor w pushing_extra = IsFull w.extra
WaitsFor w closing_output = IsFull w.output
WaitsFor w closing_extra = IsFull w.extra
WaitsFor w ended = ⊥

module _ {B : Type 0} (l : Lane) where
  flush_waits :
      (f : Lane → B) (entered : List ℕ) → IsLane l entered → after f (flush l) ≡ waits → IsFull l
  unfolding flush
  flush_waits f entered h =
      go (push_end l.master l.view) (push_end_lem l.master l.view h.valid h.roomy h.sound)
    where
      go :
          (a : Attempt (Master ℕ × Impl ℕ))
          → Flushed l.master l.view a
          → after f (hand_over l a) ≡ waits
          → IsFull l
      go waits full e = full.0
      go (returned (m, q)) done e = cc

  force_waits :
      (f : Lane → B) (entered : List ℕ) → IsLane l entered → after f (force l) ≡ waits → IsFull l
  unfolding force
  force_waits f entered h =
      go (force_push l.master l.view) (force_push_lem l.master l.view h.valid h.sound)
    where
      go :
          (a : Attempt (Master ℕ × Impl ℕ))
          → Handed l.master l.view a
          → after f (hand_over l a) ≡ waits
          → IsFull l
      go waits full e = full.0
      go (returned (m, q)) done e = cc

  close_waits :
      (f : Bool × Lane → B) (entered : List ℕ)
      → IsLane l entered
      → after f (close l) ≡ waits
      → IsFull l
  unfolding close
  close_waits f entered h =
      go (terminate_round l.master l.view) (terminate_round_lem l.master l.view h.valid h.sound)
    where
      go :
          (a : Attempt (Bool × Master ℕ × Impl ℕ))
          → Ended l.master l.view a
          → after f
              (elim a [ waits ↦ waits | returned (closed, m, q) ↦ returned (closed, hand l m q) ])
            ≡ waits
          → IsFull l
      go waits full e = full.0
      go (returned (closed, m, q)) done e = cc

module _ (lib : Libraries) (s : Encoder) (w : Deduplicator) where
  pop_waits :
      (a : Attempt (Option ℕ × Master ℕ × Impl ℕ))
      → Popped w.input w.input_view a
      → deduplicate_popped lib s w a ≡ waits
      → WaitsFor w popping
  unfolding deduplicate_popped
  pop_waits waits p e = p
  pop_waits (returned (none, m, q)) p e = cc
  pop_waits (returned (some chunk, m, q)) p e = cc

  step_waits :
      (log : List (ℕ × Bool)) (t : Task)
      → IsValid w.input.buf
      → IsSound w.input_view
      → Keeps w log t
      → deduplicate_step lib s w t ≡ waits
      → WaitsFor w t
  unfolding deduplicate_step
  step_waits log popping valid sound k e =
      pop_waits (pop w.input w.input_view) (pop_lem w.input w.input_view valid sound) e
  step_waits log (forcing_output chunk) valid sound (entered, eq, out, extra, _, _) e =
      force_waits w.output _ _ out e
  step_waits log (forcing_extra chunk) valid sound (entered, eq, out, extra, _, _) e =
      force_waits w.extra _ _ extra e
  step_waits log pushing_output valid sound (out, extra, _) e = flush_waits w.output _ _ out e
  step_waits log pushing_extra valid sound (out, extra, _) e = flush_waits w.extra _ _ extra e
  step_waits log closing_output valid sound (out, extra) e = close_waits w.output _ _ out e
  step_waits log closing_extra valid sound (over, extra) e = close_waits w.extra _ _ extra e
  step_waits log ended valid sound k e = cc

module _ (lib : Libraries) (s₀ : Encoder) (w₀ : Deduplicator) where
  -- The thread begins at its first `pop`, with sound empty views and nothing handed over, and other
  -- threads take their steps between its own in any order. In a state that is reached so, and whose
  -- input view and shared ring are sound, it waits only for one of two reasons: its `pop` finds
  -- nothing while a producer of the stage before has not ended, or the shared ring into which it
  -- hands over is full. At its end it does not wait.
  pub waits_lem :
      {log : List (ℕ × Bool)} {s : Encoder} {w : Deduplicator}
      → w₀.task ≡ popping
      → IsLane w₀.output []
      → IsLane w₀.extra []
      → HasRoom w₀.output.view
      → HasRoom w₀.extra.view
      → Reach lib s₀ w₀ log s w
      → IsValid w.input.buf
      → IsSound w.input_view
      → deduplicate_step lib s w w.task ≡ waits
      → WaitsFor w w.task
  waits_lem {log} {s} {w} first out extra room room' r valid sound e =
      step_waits lib s w log w.task valid sound
        (reach_lem lib s₀ w₀ (rw first (out, extra, room, room')) r) e
