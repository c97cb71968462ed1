-- ===== src/Dedup/Workers/Deduplicating/Delivered.antt =====
-- The runs of the thread Deduplicate of src/dedup/encode_naive_queue.cpp between the steps of the other
-- threads, and what it has handed over at its end.
use npb_sync.Prelude.{
  Bool, ℕ, ◌+◌, ◌^◌, ◌≤◌, ◌<◌, ◌≡◌, refl, ◌∙◌, subst, true, false, List, [], arith,
}
use npb_sync.Ring.Shape.{IsValid}
use npb_sync.NaiveQueue.Master.{Master, returned}
use npb_sync.NaiveQueue.Client.{Impl, prepare_reconfigure}
use npb_sync.NaiveQueue.Views.{HasRoom}
use npb_sync.Dedup.EncodeCommon.{Libraries, Encoder}
use npb_sync.Dedup.Workers.{
  Lane, Task, popping, forcing_output, forcing_extra, pushing_output, pushing_extra, closing_output,
  closing_extra, ended, Deduplicator, deduplicate_step,
}
use npb_sync.Dedup.Workers.Lanes.{IsLane}
use npb_sync.Dedup.Workers.Deduplicating.{chosen, Keeps, Continues, history, step_lem}

-- a step that fits the local ring
abbrev pub Fits : Lane → ℕ → Type 0
Fits l step = (step + 1 ≤ l.view.ring.allocated) × (step + 1 < 2 ^ 31)

-- a shared ring as the other threads leave it
abbrev pub IsQueue : Master ℕ → Type 0
IsQueue m = IsValid m.buf × (2 ≤ m.buf.size)

-- the observer announces a step to the view
abbrev pub announced : Lane → ℕ → Lane
announced l step = record l { view = prepare_reconfigure l.view step }

-- What the thread and its surroundings come to. The other threads work on the chunks, and take from
-- and add to the shared rings; the input view may be told a new step too.
pub data Reach (lib : Libraries) (s₀ : Encoder) (w₀ : Deduplicator)
    : List (ℕ × Bool) → Encoder → Deduplicator → Type 0 where
  start : Reach lib s₀ w₀ [] s₀ w₀
  thread :
      {log : List (ℕ × Bool)} {s s' : Encoder} {w w' : Deduplicator}
      → Reach lib s₀ w₀ log s w
      → deduplicate_step lib s w w.task ≡ returned (s', w')
      → Reach lib s₀ w₀ (history lib s w log w.task) s' w'
  others :
      {log : List (ℕ × Bool)} {s : Encoder} {w : Deduplicator} (s' : Encoder)
      (input m m' : Master ℕ) (input_view : Impl ℕ)
      → Reach lib s₀ w₀ log s w
      → IsQueue m
      → IsQueue m'
      → Reach lib s₀ w₀ log s' (record w {
        input = input;
        input_view = input_view;
        output = record w.output { master = m };
        extra = record w.extra { master = m' };
      })
  announce_output :
      {log : List (ℕ × Bool)} {s : Encoder} {w : Deduplicator} (step : ℕ)
      → Reach lib s₀ w₀ log s w
      → Fits w.output step
      → Reach lib s₀ w₀ log s (record w { output = announced w.output step })
  announce_extra :
      {log : List (ℕ × Bool)} {s : Encoder} {w : Deduplicator} (step : ℕ)
      → Reach lib s₀ w₀ log s w
      → Fits w.extra step
      → Reach lib s₀ w₀ log s (record w { extra = announced w.extra step })

-- A lane does not mind a change of the shared ring by others, nor an announced step.
pub lane_queue :
    (l : Lane) (m : Master ℕ) (entered : List ℕ)
    → IsQueue m
    → IsLane l entered
    → IsLane (record l { master = m }) entered
lane_queue l m entered q h = record { all = h.all; sound = h.sound; valid = q.0; roomy = q.1 }

pub lane_announced :
    (l : Lane) (step : ℕ) (entered : List ℕ)
    → Fits l step
    → IsLane l entered
    → IsLane (announced l step) entered
unfolding prepare_reconfigure
lane_announced l step entered fits h = record {
  all = h.all;
  sound = record {
    ring_valid = h.sound.ring_valid;
    roomy = h.sound.roomy;
    step_fits = fits.0;
    step_small = fits.1;
  };
  valid = h.valid;
  roomy = h.roomy;
}

-- The invariant mentions the two lanes and the history only.
Keeps-lanes :
    (w : Deduplicator) (input : Master ℕ) (input_view : Impl ℕ) (o e : Lane) (log : List (ℕ × Bool))
    (t : Task)
    → ((entered : List ℕ) → IsLane w.output entered → IsLane o entered)
    → ((entered : List ℕ) → IsLane w.extra entered → IsLane e entered)
    → (o.given ≡ w.output.given) × (e.given ≡ w.extra.given)
    → (o.view.ring ≡ w.output.view.ring) × (e.view.ring ≡ w.extra.view.ring)
    → Keeps w log t
    → Keeps (record w { input = input; input_view = input_view; output = o; extra = e }) log t
Keeps-lanes w i v o e log popping f g same rings (h, h', r, r') =
    (f _ h, g _ h', ground arith, ground arith)
Keeps-lanes w i v o e log (forcing_output c) f g same rings (xs, eq, h, h', r, r') =
    (xs, eq, f _ h, g _ h', ground arith, ground arith)
Keeps-lanes w i v o e log (forcing_extra c) f g same rings (xs, eq, h, h', r, r') =
    (xs, eq, f _ h, g _ h', ground arith, ground arith)
Keeps-lanes w i v o e log pushing_output f g same rings (h, h', r) = (f _ h, g _ h', ground arith)
Keeps-lanes w i v o e log pushing_extra f g same rings (h, h', r) = (f _ h, g _ h', ground arith)
Keeps-lanes w i v o e log closing_output f g same rings (h, h') = (f _ h, g _ h')
Keeps-lanes w i v o e log closing_extra f g same rings (h, h') = (same.0 ∙ h, g _ h')
Keeps-lanes w i v o e log ended f g same rings (h, h') = (same.0 ∙ h, same.1 ∙ h')

module _ (lib : Libraries) (s₀ : Encoder) (w₀ : Deduplicator) where
  pub reach_lem :
      {log : List (ℕ × Bool)} {s : Encoder} {w : Deduplicator}
      → Keeps w₀ [] w₀.task
      → Reach lib s₀ w₀ log s w
      → Keeps w log w.task
  unfolding prepare_reconfigure
  reach_lem k start = k
  reach_lem k (thread {log} {s} {s'} {w} {w'} r e) =
      subst (Continues (history lib s w log w.task)) e (step_lem lib s w log w.task (reach_lem k r))
  reach_lem k (others {log} {s} {w} s' input m m' input_view r q q') =
      Keeps-lanes w input input_view _ _ log w.task (λ xs. lane_queue w.output m xs q)
        (λ xs. lane_queue w.extra m' xs q') (refl, refl) (refl, refl) (reach_lem k r)
  reach_lem k (announce_output {log} {s} {w} step r fits) =
      Keeps-lanes w w.input w.input_view _ _ log w.task (λ xs. lane_announced w.output step xs fits)
        (λ xs h. h) (refl, refl) (refl, refl) (reach_lem k r)
  reach_lem k (announce_extra {log} {s} {w} step r fits) =
      Keeps-lanes w w.input w.input_view _ _ log w.task (λ xs h. h)
        (λ xs. lane_announced w.extra step xs fits) (refl, refl) (refl, refl) (reach_lem k r)

  -- The thread begins at its first `pop`, with sound empty views and nothing handed over, and other
  -- threads take their steps between its own in any order. `log` has the chunks that its calls of
  -- `pop` have returned, in their order, and what sub_Deduplicate says of each at that moment. When
  -- the thread has ended, it has handed over to the stage Compress exactly those that were found to
  -- be new, and to the stage Reorder exactly those found to be duplicates, each once and in order.
  pub deduplicated_lem :
      {log : List (ℕ × Bool)} {s : Encoder} {w : Deduplicator}
      → w₀.task ≡ popping
      → IsLane w₀.output []
      → IsLane w₀.extra []
      → HasRoom w₀.output.view
      → HasRoom w₀.extra.view
      → Reach lib s₀ w₀ log s w
      → w.task ≡ ended
      → (w.output.given ≡ chosen false log) × (w.extra.given ≡ chosen true log)
  deduplicated_lem {log} {s} {w} first out extra room room' r over =
      subst (Keeps w log) over (reach_lem (rw first (out, extra, room, room')) r)
