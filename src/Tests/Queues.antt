-- ===== src/Tests/Queues.antt =====
-- The ring buffer and the two-level queue of src/naive_queue.hpp on concrete inputs.
use npb_sync.Prelude.{
  ◌⊎◌, ℕ, ◌+◌, ◌≤◌, ◌<◌, ◌≡◌, ◌≢◌, ◌↔◌, refl, Bool, true, false, some, [], ◌∷◌, ◌++◌, arith,
  if◌then◌else◌, ◌==◌,
}
use npb_sync.Memory.{Memory}
use npb_sync.Ring
use npb_sync.Ring.{Ring, init}
use npb_sync.Ring.Shape.{IsValid, contents}
use npb_sync.Ring.Fifo.{bounded_push, push_refines}
use npb_sync.NaiveQueue.Local.{push_local, pop_local, resize, full_local, empty_local, init_local}
use npb_sync.NaiveQueue.Resize.{resize_lem}
use npb_sync.NaiveQueue.Master.{
  Master, waits, create, terminate, view, fill_local, drain_local, enqueue_no_timing,
  dequeue_no_timing,
}
use npb_sync.NaiveQueue.Client.{Impl, create_impl, push_begin, push_end, pop, terminate_round}
use npb_sync.NaiveQueue.Views.{IsSound, Flushed}
use npb_sync.NaiveQueue.Takes.{Popped, pop_lem, Ended, terminate_round_lem}
use npb_sync.NaiveQueue.Pipeline.{
  Pipe, push_starts, push_ends, terminate_starts, terminate_ends, pop_returns, pop_is_over, Reach,
  here, next, in_flight, Inv, launch, idle, ended,
}
use npb_sync.NaiveQueue.Pipeline.Delivery.{order_kept, all_delivered}
use npb_sync.NaiveQueue.Pipeline.Signals.{Threads, at_rest, consumer_waits}
use npb_sync.NaiveQueue.Pipeline.Sleeping.{ConsumerRests, ProducerRests}
use npb_sync.NaiveQueue.Pushes.{HandsOver, push_end_exact}
use npb_sync.NaiveQueue.Pipeline.Deadlock.{no_deadlock}

abbrev zeros : Memory ℕ
zeros i = 0

-- 5, 6 and 7 round the end of a ring of five cells
abbrev wrapped : Ring ℕ
wrapped = record {
  memory = λ i. if i == 4 then 5 else i + 6;
  allocated = 10;
  n_elements = 3;
  size = 5;
  head = 2;
  tail = 4;
}

wrapped-IsValid : IsValid wrapped
wrapped-IsValid = ground arith

contents-wrapped : contents wrapped ≡ 5 ∷ 6 ∷ 7 ∷ []
contents-wrapped = refl

-- shrinking and growing a ring that goes round its end
resize_runs :
    (contents (resize wrapped 9).1 ≡ 5 ∷ 6 ∷ 7 ∷ [])
    × ((resize wrapped 9).1.tail ≡ 9)
    × ((resize wrapped 3).0 ≡ false)
unfolding resize
resize_runs = (refl, refl, refl)

push_refines_example :
    let (s, r) = Ring.push wrapped 8 in (s, contents r) ≡ bounded_push 4 (5 ∷ 6 ∷ 7 ∷ []) 8
push_refines_example = push_refines wrapped 8 wrapped-IsValid

resize_lem_example :
    let (kept, p) = resize wrapped 9 in
    (contents p ≡ 5 ∷ 6 ∷ 7 ∷ [])
    × IsValid p
    × (p.size ≡ (if kept then 10 else 5))
    × ((kept ≡ false) ↔ ((10 < 5) × (9 ≤ 3)))
resize_lem_example = resize_lem wrapped 9 wrapped-IsValid (omega arith) (omega arith)

-- a shared ring that holds 5, 6, 7, with one producer left
abbrev shared : Master ℕ
shared = record { buf = wrapped; n_producers = 1; n_consumers = 1; n_terminated = 0 }

-- an empty local ring for two elements
abbrev local_ring : Ring ℕ
local_ring = record {
  memory = zeros;
  allocated = 1_000_000;
  n_elements = 0;
  size = 3;
  head = 0;
  tail = 0;
}

abbrev local_view : Impl ℕ
local_view = record {
  ring = local_ring;
  producer = true;
  new_step = 4;
  need_reconfigure = true;
  reconfigured = false;
}

local_ring-IsValid : IsValid local_ring
local_ring-IsValid = ground arith

local_view-IsSound : IsSound local_view
local_view-IsSound = ground arith

push_end_exact_example :
    Flushed shared local_view (push_end shared local_view)
    × HandsOver shared local_view (push_end shared local_view)
push_end_exact_example =
    push_end_exact shared local_view wrapped-IsValid (omega arith) local_view-IsSound

pop_lem_example : Popped shared local_view (pop shared local_view)
pop_lem_example = pop_lem shared local_view wrapped-IsValid local_view-IsSound

terminate_round_lem_example : Ended shared local_view (terminate_round shared local_view)
terminate_round_lem_example =
    terminate_round_lem shared local_view wrapped-IsValid local_view-IsSound

-- a ring for one element over a fresh array
abbrev small_ring : ℕ → Ring ℕ
small_ring cells = record {
  memory = zeros;
  allocated = cells;
  n_elements = 0;
  size = 2;
  head = 0;
  tail = 0;
}

abbrev small_view : Bool → Impl ℕ
small_view producer = record {
  ring = small_ring 1_000_000;
  producer = producer;
  new_step = 1;
  need_reconfigure = false;
  reconfigured = false;
}

abbrev start : Pipe ℕ
start = record {
  master = record { buf = small_ring 2; n_producers = 1; n_consumers = 1; n_terminated = 0 };
  producer = small_view true;
  consumer = small_view false;
  phase = idle;
  finished = false;
  produced = [];
  consumed = [];
}

launch-start : launch zeros zeros zeros 1 1 ≡ some start
unfolding launch create create_impl init init_local view
launch-start = refl

start-Inv : Inv start
start-Inv = record {
  shared_valid = ground arith;
  shared_roomy = ground arith;
  producer_sound = ground arith;
  consumer_sound = ground arith;
  one_producer = refl;
  count = refl;
  room = λ _. ground arith;
  flushed = λ p. cc;
  over = λ p. cc;
  order = refl;
}

-- 7 is pushed, the producer ends, and the consumer takes 7 and is told of the end.
run : (t : Pipe ℕ) × Reach start t × (t.finished ≡ true) × (t.consumed ≡ 7 ∷ [])
unfolding push_begin push_end terminate_round pop enqueue_no_timing dequeue_no_timing terminate
    fill_local drain_local Ring.empty Ring.full Ring.push Ring.pop push_local pop_local full_local
    empty_local
run = (
  _,
  next
      (next
        (next
          (next (next (next here (push_starts 7 refl)) (push_ends refl refl))
            (terminate_starts refl))
          (terminate_ends refl refl))
        (pop_returns refl refl))
      (pop_is_over refl refl),
  refl,
  refl,
)

all_delivered_example : run.0.consumed ≡ run.0.produced
all_delivered_example = all_delivered start-Inv run.1 run.2

order_kept_example : run.0.consumed ++ in_flight run.0 ≡ run.0.produced
order_kept_example = order_kept start-Inv run.1

abbrev asleep : Threads ℕ
asleep = record { pipe = start; producer_sleeps = false; consumer_sleeps = true }

-- The consumer begins and sleeps.
no_deadlock_example :
    ((asleep.consumer_sleeps ≡ false)
      ⊎ (ConsumerRests start
          × (asleep.producer_sleeps ≡ false)
          × (start.phase ≢ ended)
          × (push_end start.master start.producer ≢ waits)
          × (terminate_round start.master start.producer ≢ waits)))
    × ((asleep.producer_sleeps ≡ false)
        ⊎ (ProducerRests start
            × (asleep.consumer_sleeps ≡ false)
            × (start.finished ≡ false)
            × (pop start.master start.consumer ≢ waits)))
unfolding pop dequeue_no_timing fill_local Ring.empty Ring.pop empty_local
no_deadlock_example = no_deadlock start asleep start-Inv (consumer_waits at_rest refl refl)
