-- ===== src/Tests/Doubles.antt =====
-- The plain, the timed and the C queue of src/naive_queue.hpp and src/dedup/queue.cpp beside the
-- master that they are compared with, on concrete inputs.
use npb_sync.Prelude.{ℕ, ◌+◌, ◌≡◌, refl, false}
use npb_sync.Ring.{Ring}
use npb_sync.NaiveQueue.Master.{Master, terminate, dequeue_no_timing, enqueue_no_timing}
use npb_sync.NaiveQueue.Client.{Impl}
use npb_sync.NaiveQueue.Plain.{
  terminate_plain, dequeue_plain, enqueue_plain, plain, plain_attempt, plain_lem,
}
use npb_sync.NaiveQueue.Timed.{Readings}
use npb_sync.Dedup.Queue.{ringbuffer_remove}

-- a ring of four cells with the elements 10 and 11
abbrev two : Ring ℕ
two = record { memory = λ i. i + 10; allocated = 4; n_elements = 2; size = 4; head = 2; tail = 0 }

abbrev nothing : Ring ℕ
nothing = record { memory = λ i. 0; allocated = 4; n_elements = 0; size = 4; head = 1; tail = 1 }

abbrev master : Master ℕ
master = record { buf = two; n_producers = 2; n_consumers = 1; n_terminated = 1 }

abbrev reader : Impl ℕ
reader = record {
  ring = nothing;
  producer = false;
  new_step = 3;
  need_reconfigure = false;
  reconfigured = false;
}

abbrev readings : Readings
readings = record { begin_lock = 100; begin_sc = 130; begin_unlock = 180; end_unlock = 190 }

-- Removing from an empty ring decrements the count, which becomes the largest `size_t`.
remove_empty : (ringbuffer_remove nothing).1.n_elements ≡ 18_446_744_073_709_551_615
unfolding ringbuffer_remove
remove_empty = refl

plain_lem_example :
    (terminate_plain (plain master) ≡ (let (woken, m') = terminate master in (woken, plain m')))
    × (dequeue_plain (plain master) nothing 3 ≡ plain_attempt (dequeue_no_timing master nothing 3))
    × (enqueue_plain (plain master) nothing 3 ≡ plain_attempt (enqueue_no_timing master nothing 3))
plain_lem_example = plain_lem master nothing 3
