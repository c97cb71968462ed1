-- ===== src/Tests/Measurements.antt =====
-- Measured pushes and the second phase of the observer of src/naive_queue.tpp on concrete inputs.
use npb_sync.Prelude.{ℕ, ◌/◌, ◌≡◌, refl, true, false, [], ◌∷◌, arith}
use npb_sync.NaiveQueue.Timed.{Readings}
use npb_sync.NaiveQueue.Observer.{
  Observer, find, add_producer, add_consumer, add_phantom_producer, construct,
  get_max_producers_operations_first_phase,
}
use npb_sync.NaiveQueue.Observer.Averages.{avg, unsorted_median, sum}
use npb_sync.NaiveQueue.Observer.Steps.{medians, second_costs}
use npb_sync.NaiveQueue.Observer.TimedPush.{World, fresh_watch, generic_push_end}
use npb_sync.NaiveQueue.Observer.Second.{second_cost_lem, HasMissed, TakesNoPart, missed_lem}
use npb_sync.NaiveQueue.Observer.Delivery.Pushes.{Pushes, generic_push_lem}
use npb_sync.Tests.Observers.{
  exact_floats, exact_floats-IsAccurate, registered, ring, producing, measured_observer,
}

-- two producers, whose synchronisations take 15 and 35 in the median
abbrev twice_measured : Observer
twice_measured = record registered {
  cost_s =
      (
        16,
        record {
          phantom = false;
          cost_s =
              record { lock = 10; critical = 1; unlock = 5 }
              ∷ record { lock = 11; critical = 1; unlock = 3 }
              ∷ record { lock = 90; critical = 1; unlock = 5 }
              ∷ [];
        },
      )
      ∷ (
        24,
        record { phantom = false; cost_s = record { lock = 30; critical = 1; unlock = 5 } ∷ [] },
      )
      ∷ [];
}

-- The mean of 15 and 35 is 25, and the cost computed with is 12.
second_cost_lem_example :
    avg exact_floats (second_costs twice_measured) ≡ sum (medians twice_measured.cost_s) / 4
second_cost_lem_example =
    unfold medians unsorted_median in
    second_cost_lem exact_floats twice_measured exact_floats-IsAccurate (omega arith) (omega arith)
      (omega arith)

second_cost_run : avg exact_floats (second_costs twice_measured) ≡ 12
unfolding avg second_costs unsorted_median
second_cost_run = refl

abbrev readings : Readings
readings = record { begin_lock = 100; begin_sc = 130; begin_unlock = 180; end_unlock = 190 }

-- a full ring in front of a shared ring with room for three elements more
abbrev pushing : World ℕ
pushing = record {
  master = record {
    buf = record ring { size = 4; allocated = 4 };
    n_producers = 1;
    n_consumers = 1;
    n_terminated = 0;
  };
  views = λ view. record producing { ring = record ring { head = 2; n_elements = 2 } };
  watch = fresh_watch;
  observer = measured_observer;
}

generic_push_lem_example : Pushes 16 pushing (generic_push_end exact_floats 16 80 readings pushing)
generic_push_lem_example = generic_push_lem exact_floats 16 80 readings pushing

-- the first phase is over, and the step of the view has been changed
abbrev missing : World ℕ
missing = record pushing {
  views = λ view. record (pushing.views view) { reconfigured = true };
  observer = record measured_observer { producer_count = 5; reconfigured = true };
}

missing-HasMissed : HasMissed 16 missing
unfolding find get_max_producers_operations_first_phase construct add_producer add_consumer
    add_phantom_producer
missing-HasMissed = record {
  first = refl;
  changed = refl;
  registered = λ e. cc e;
  finished = omega arith;
}

missed_lem_example : TakesNoPart 16 missing (generic_push_end exact_floats 16 80 readings missing)
missed_lem_example =
    missed_lem exact_floats 16 80 readings missing missing-HasMissed
      (unfold construct add_producer add_consumer add_phantom_producer in omega arith)
