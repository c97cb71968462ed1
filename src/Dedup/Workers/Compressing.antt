-- ===== src/Dedup/Workers/Compressing.antt =====
-- The thread Compress of src/dedup/encode_naive_queue.cpp among the other threads: every chunk that it
-- takes goes on to the stage Reorder.
use npb_sync.Prelude.{
  List, ◌∷◌, ◌++◌, ℕ, ◌≡◌, refl, ◌∙◌, subst, Bool, true, false, Option, none, some, [],
  if◌then◌else◌, arith,
}
use npb_sync.NaiveQueue.Master.{Master, Attempt, waits, returned}
use npb_sync.NaiveQueue.Client.{Impl, cross_pop_no_timing, prepare_reconfigure}
use npb_sync.NaiveQueue.Views.{HasRoom}
use npb_sync.Dedup.EncodeCommon.{Libraries, Encoder, Result, ok, exit, sub_compress}
use npb_sync.Dedup.Workers.{Lane, flush, force, close, after}
use npb_sync.Dedup.Workers.Lanes.{
  IsLane, Stays, Flushes, Closes, flush_lem, force_lem, close_lem, put_lem,
}
use npb_sync.Dedup.Workers.Compress.{
  CompressTask, popping, forcing, pushing, closing, ended, exited, CompressWorker, compressed_chunk,
  compress_popped, with_lane, compress_step,
}
use npb_sync.Dedup.Workers.Deduplicating.Delivered.{
  Fits, IsQueue, announced, lane_queue, lane_announced,
}

-- All chunks have entered the lane, which has room unless a `push` is not complete; at the end the
-- lane has handed over all of them.
abbrev pub Keeps : CompressWorker → List ℕ → CompressTask → Type 0
Keeps w log popping = IsLane w.output log × HasRoom w.output.view
Keeps w log forcing = IsLane w.output log × HasRoom w.output.view
Keeps w log pushing = IsLane w.output log
Keeps w log closing = IsLane w.output log
Keeps w log ended = w.output.given ≡ log
Keeps w log exited = Unit

abbrev Continues : List ℕ → Attempt (Encoder × CompressWorker) → Type 0
Continues log waits = Unit
Continues log (returned (s, w)) = Keeps w log w.task

-- The history of the thread: the chunks that its calls of `cross_pop_no_timing` have returned, in
-- their order.
abbrev pub logged : List ℕ → Attempt (Bool × Option ℕ × Master ℕ × Impl ℕ) → List ℕ
logged log waits = log
logged log (returned (true, value, m, q)) = log
logged log (returned (false, none, m, q)) = log
logged log (returned (false, some chunk, m, q)) = log ++ chunk ∷ []

abbrev pub history : Bool → CompressWorker → List ℕ → CompressTask → List ℕ
history locked w log popping = logged log (cross_pop_no_timing locked w.input w.input_view)
history locked w log forcing = log
history locked w log pushing = log
history locked w log closing = log
history locked w log ended = log
history locked w log exited = log

compressed_lem :
    (chunk : ℕ) (s : Encoder) (w : CompressWorker) (log : List ℕ) (r : Result Encoder)
    → Keeps w log popping
    → Keeps
        (compressed_chunk chunk s w r).1
        (log ++ chunk ∷ [])
        (compressed_chunk chunk s w r).1.task
unfolding compressed_chunk
compressed_lem chunk s w log (exit e) k = tt
compressed_lem chunk s w log (ok s') (lane, room) = put_lem w.output chunk log lane room

popped_lem :
    (lib : Libraries) (type : ℕ) (s : Encoder) (w : CompressWorker) (log : List ℕ)
    (a : Attempt (Bool × Option ℕ × Master ℕ × Impl ℕ))
    → Keeps w log popping
    → Continues (logged log a) (compress_popped lib type s w a)
unfolding compress_popped
popped_lem lib type s w log waits k = tt
popped_lem lib type s w log (returned (true, value, m, q)) k = k
popped_lem lib type s w log (returned (false, none, m, q)) k = k.0
popped_lem lib type s w log (returned (false, some chunk, m, q)) k =
    compressed_lem chunk s (record w { input = m; input_view = q }) log
      (sub_compress lib type chunk s) k

step_lem :
    (lib : Libraries) (type : ℕ) (locked : Bool) (s : Encoder) (w : CompressWorker) (log : List ℕ)
    (t : CompressTask)
    → Keeps w log t
    → Continues (history locked w log t) (compress_step lib type locked s w t)
unfolding compress_step
step_lem lib type locked s w log popping k =
    popped_lem lib type s w log (cross_pop_no_timing locked w.input w.input_view) k
step_lem lib type locked s w log forcing (lane, room) =
    go (force w.output) (force_lem w.output log lane)
  where
    go :
        (a : Attempt Lane)
        → Stays w.output log a
        → Continues log (after (λ l. (s, with_lane w popping l)) a)
    go waits h = tt
    go (returned l) (lane', keeps) = (lane', keeps room)
step_lem lib type locked s w log pushing lane = go (flush w.output) (flush_lem w.output log lane)
  where
    go :
        (a : Attempt Lane)
        → Flushes log a
        → Continues log (after (λ l. (s, with_lane w popping l)) a)
    go waits h = tt
    go (returned l) h = h
step_lem lib type locked s w log closing lane = go (close w.output) (close_lem w.output log lane)
  where
    go :
        (a : Attempt (Bool × Lane))
        → Closes log a
        → Continues log (after (λ r. (s, with_lane w (if r.0 then ended else closing) r.1)) a)
    go waits h = tt
    go (returned (true, l)) h = h
    go (returned (false, l)) h = h
step_lem lib type locked s w log ended k = k
step_lem lib type locked s w log exited k = tt

-- what the thread and the other threads come to
pub data Reach (lib : Libraries) (type : ℕ) (s₀ : Encoder) (w₀ : CompressWorker)
    : List ℕ → Encoder → CompressWorker → Type 0 where
  start : Reach lib type s₀ w₀ [] s₀ w₀
  thread :
      {log : List ℕ} {s s' : Encoder} {w w' : CompressWorker} (locked : Bool)
      → Reach lib type s₀ w₀ log s w
      → compress_step lib type locked s w w.task ≡ returned (s', w')
      → Reach lib type s₀ w₀ (history locked w log w.task) s' w'
  others :
      {log : List ℕ} {s : Encoder} {w : CompressWorker} (s' : Encoder) (input m : Master ℕ)
      (input_view : Impl ℕ)
      → Reach lib type s₀ w₀ log s w
      → IsQueue m
      → Reach lib type s₀ w₀ log s' (record w {
        input = input;
        input_view = input_view;
        output = record w.output { master = m };
      })
  announce :
      {log : List ℕ} {s : Encoder} {w : CompressWorker} (step : ℕ)
      → Reach lib type s₀ w₀ log s w
      → Fits w.output step
      → Reach lib type s₀ w₀ log s (record w { output = announced w.output step })

Keeps-lane :
    (w : CompressWorker) (input : Master ℕ) (input_view : Impl ℕ) (o : Lane) (log : List ℕ)
    (t : CompressTask)
    → (IsLane w.output log → IsLane o log)
    → o.given ≡ w.output.given
    → o.view.ring ≡ w.output.view.ring
    → Keeps w log t
    → Keeps (record w { input = input; input_view = input_view; output = o }) log t
Keeps-lane w i v o log popping f same ring (h, room) = (f h, ground arith)
Keeps-lane w i v o log forcing f same ring (h, room) = (f h, ground arith)
Keeps-lane w i v o log pushing f same ring h = f h
Keeps-lane w i v o log closing f same ring h = f h
Keeps-lane w i v o log ended f same ring h = same ∙ h
Keeps-lane w i v o log exited f same ring h = tt

module _ (lib : Libraries) (type : ℕ) (s₀ : Encoder) (w₀ : CompressWorker) where
  reach_lem :
      {log : List ℕ} {s : Encoder} {w : CompressWorker}
      → Keeps w₀ [] w₀.task
      → Reach lib type s₀ w₀ log s w
      → Keeps w log w.task
  unfolding prepare_reconfigure
  reach_lem k start = k
  reach_lem k (thread {log} {s} {s'} {w} {w'} locked r e) =
      subst (Continues (history locked w log w.task)) e
        (step_lem lib type locked s w log w.task (reach_lem k r))
  reach_lem k (others {log} {s} {w} s' input m input_view r q) =
      Keeps-lane w input input_view _ log w.task (lane_queue w.output m log q) refl refl
        (reach_lem k r)
  reach_lem k (announce {log} {s} {w} step r fits) =
      Keeps-lane w w.input w.input_view _ log w.task (lane_announced w.output step log fits) refl
        refl (reach_lem k r)

  -- The thread begins at its first `cross_pop_no_timing`, with a sound empty view and nothing handed
  -- over, the mutex is obtained in time or not, and other threads take their steps between its own
  -- in any order. `log` has the chunks that its calls of `cross_pop_no_timing` have returned, in
  -- their order. When the thread has ended, it has handed over to the stage Reorder exactly those,
  -- each once and in order.
  pub compressed_all_lem :
      {log : List ℕ} {s : Encoder} {w : CompressWorker}
      → w₀.task ≡ popping
      → IsLane w₀.output []
      → HasRoom w₀.output.view
      → Reach lib type s₀ w₀ log s w
      → w.task ≡ ended
      → w.output.given ≡ log
  compressed_all_lem {log} {s} {w} first lane room r over =
      subst (Keeps w log) over (reach_lem (rw first (lane, room)) r)
