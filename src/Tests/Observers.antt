-- ===== src/Tests/Observers.antt =====
-- The observer of src/naive_queue.hpp and src/naive_queue.tpp on concrete inputs: one producer at
-- the address 16, one consumer at 32, and a phantom producer at 48.
use npb_sync.Prelude.{
  ℕ, zero, suc, ◌+◌, ◌-◌, ◌*◌, ◌/◌, ◌%◌, ◌^◌, ◌≤◌, ◌<◌, ◌≡◌, refl, true, false, List, [], ◌∷◌, ltb,
  leb, if◌then◌else◌, Bool-cases, inl, inr, arith,
}
use npb_sync.Ring.{Ring}
use npb_sync.NaiveQueue.Client.{Impl, prepare_reconfigure}
use npb_sync.NaiveQueue.Observer.{
  done, Data, Observer, FirstReconfigurationData, find, modify, add_producer, add_consumer,
  add_phantom_producer, construct, fresh_first, get_add_producers_operations_first_phase,
  get_add_consumers_operations_first_phase, get_max_producers_operations_first_phase,
  get_max_consumers_operations_first_phase,
}
use npb_sync.NaiveQueue.Observer.Averages.{
  Floats, IsAccurate, avg, quart, unsorted_median, sum, avg_lem, min_element,
}
use npb_sync.NaiveQueue.Observer.Steps.{
  Views, set_costs, compute_steps, side_steps, all_averages, prepare_all, sort_entry,
  first_reconfiguration, trigger_reconfigure, at_least_one,
}
use npb_sync.NaiveQueue.Observer.Times.{add_work_time, add_producer_synchronization_time_first}
use npb_sync.NaiveQueue.Observer.Phases.{Ensures, IsTracked}
use npb_sync.NaiveQueue.Observer.Phases.Reports.{Report, work, first, report_all, phases_lem}
use npb_sync.NaiveQueue.Observer.Tuning.{AreSteps}
use npb_sync.NaiveQueue.Observer.Announced.{told, announce_lem}

-- the largest number of at most `k` whose square is at most `n`
pub root_below : ℕ → ℕ → ℕ
root_below n zero = 0
root_below n (suc k) = let rest = root_below n k in if leb (suc k * suc k) n then suc k else rest

root_below-square : (n k : ℕ) → root_below n k * root_below n k ≤ n
unfolding root_below
root_below-square n zero = omega arith
root_below-square n (suc k) = ground (arith, root_below-square n k)

root_below-largest :
    (n k : ℕ) → n < (k + 1) * (k + 1) → n < (root_below n k + 1) * (root_below n k + 1)
unfolding root_below
root_below-largest n zero h = h
root_below-largest n (suc k) h = elim (Bool-cases (leb (suc k * suc k) n)) [
  | inl e ↦ rw e h
  | inr e ↦
      let same : k + 1 ≡ suc k = omega arith in
      rw e (root_below-largest n k (rw same (ground arith)))
]

abbrev pub exact_floats : Floats
exact_floats = record { round = λ n. n; sqrt = λ n. root_below n n }

square-lt : (n : ℕ) → n < (n + 1) * (n + 1)
square-lt n = grind arith

pub exact_floats-IsAccurate : IsAccurate exact_floats
exact_floats-IsAccurate = record {
  exact = λ n h. refl;
  root = λ n h. root_below-square n n;
  root_up = λ n h. root_below-largest n n (square-lt n);
}

averages_run :
    (avg exact_floats (10 ∷ 20 ∷ 33 ∷ []) ≡ 21)
    × (quart (9 ∷ 1 ∷ 5 ∷ 3 ∷ []) ≡ 2)
    × (unsorted_median (9 ∷ 1 ∷ 5 ∷ []) ≡ 5)
unfolding avg quart unsorted_median
averages_run = (refl, refl, refl)

-- two times of 1.5 s each: the sum is no `int`, and the average is -647483648
avg_lem_example : avg exact_floats (1_500_000_000 ∷ 1_500_000_000 ∷ []) ≡ (
    if ltb (sum (1_500_000_000 ∷ 1_500_000_000 ∷ [])) (2 ^ 31)
    then sum (1_500_000_000 ∷ 1_500_000_000 ∷ []) / 2
    else (2 ^ 32 - (2 ^ 32 - sum (1_500_000_000 ∷ 1_500_000_000 ∷ [])) / 2) % 2 ^ 32)
avg_lem_example =
    avg_lem exact_floats (1_500_000_000 ∷ 1_500_000_000 ∷ []) exact_floats-IsAccurate (omega arith)
      (omega arith) (omega arith)

abbrev no_data : Data
no_data = record {
  cost_p = 0;
  cost_wl = 0;
  cost_cc = 0;
  cost_u = 0;
  iter = 0;
  producers_avg = 0;
  consumers_avg = 0;
  prod_cons = 0;
  prod_prod = 0;
  first_prod_step = 0;
  first_cons_step = 0;
  second_prod_step = 0;
  second_cons_step = 0;
  first_prod_step_eff = 0;
  first_cons_step_eff = 0;
  second_prod_step_eff = 0;
  second_cons_step_eff = 0;
}

-- 1000 iterations, and reconfigurations after 1 observation of a view
abbrev pub registered : Observer
registered =
    record (add_phantom_producer (add_consumer (add_producer (construct no_data 1000) 16) 32) 48) {
      n_first_reconf = 1;
    }

abbrev pub ring : Ring ℕ
ring = record {
  memory = λ i. 0;
  allocated = 1_000_000;
  n_elements = 0;
  size = 3;
  head = 0;
  tail = 0;
}

abbrev pub producing : Impl ℕ
producing = record {
  ring = ring;
  producer = true;
  new_step = 2;
  need_reconfigure = false;
  reconfigured = false;
}

abbrev views : Views ℕ
views view = record producing { producer = if ltb view 32 then true else false }

abbrev reports : List (Report × (Views ℕ → Views ℕ))
reports =
    (work 32 60, λ v. v)
    ∷ (work 16 100, λ v. v)
    ∷ (first 16 50 (record { lock = 10; critical = 30; unlock = 5 }), λ v. v)
    ∷ (first 16 70 (record { lock = 10; critical = 30; unlock = 5 }), λ v. v)
    ∷ []

phases_lem_example : Ensures (λ s. IsTracked s.0) (report_all exact_floats reports registered views)
phases_lem_example =
    unfold construct add_producer add_consumer add_phantom_producer in
    phases_lem exact_floats reports registered views (omega arith) refl refl (omega arith)

-- the last of these reports triggers the first reconfiguration
triggered_run :
    Ensures
      (λ s.
        (s.0.reconfigured ≡ true)
        × (s.0.costs.first_prod_step ≡ 7)
        × ((s.1 32).new_step ≡ 7)
        × ((s.1 33).new_step ≡ 2))
      (report_all exact_floats reports registered views)
unfolding report_all add_work_time add_producer_synchronization_time_first trigger_reconfigure
    first_reconfiguration set_costs compute_steps side_steps avg quart root_below construct
    add_producer add_consumer add_phantom_producer modify find min_element
    get_add_producers_operations_first_phase get_add_consumers_operations_first_phase
    get_max_producers_operations_first_phase get_max_consumers_operations_first_phase
    prepare_reconfigure all_averages prepare_all sort_entry
triggered_run = (refl, refl, refl, refl)

-- the times that these views have measured
abbrev times : List (ℕ × FirstReconfigurationData)
times =
    (
      16,
      record {
        producer = true;
        phantom = false;
        work_times = 100 ∷ [];
        push_times = 50 ∷ 70 ∷ [];
        lock_times = 10 ∷ 10 ∷ [];
        copy_times = 30 ∷ 30 ∷ [];
        unlock_times = 5 ∷ 5 ∷ [];
        push_reserved = true;
      },
    )
    ∷ (32, record fresh_first { work_times = 60 ∷ [] })
    ∷ (48, record fresh_first { producer = true; phantom = true })
    ∷ []

abbrev pub measured_observer : Observer
measured_observer = record registered { times = times }

announce_lem_example :
    let tuned = set_costs exact_floats 60 (record measured_observer { reconfigured = true }) in
    (prod_step : ℕ) × (cons_step : ℕ) × (o' : Observer) × (views' : Views ℕ) × (trigger_reconfigure
        exact_floats true measured_observer views
      ≡ done (o', views'))
    × AreSteps tuned 100 60 15 prod_step cons_step
    × ((view : ℕ)
        → views' view
          ≡ told (at_least_one prod_step) (at_least_one cons_step) (views view) (find view times))
    × (trigger_reconfigure exact_floats true o' views' ≡ done (o', views'))
unfolding set_costs avg quart min_element all_averages construct add_producer add_consumer
    add_phantom_producer
announce_lem_example =
    announce_lem exact_floats exact_floats-IsAccurate measured_observer views 60 [] refl
      (omega arith) refl
      (record {
        some_producers = (omega arith, omega arith);
        some_consumers = (omega arith, omega arith);
        push_cost = (omega arith, omega arith);
        producer_small = omega arith;
        consumer_small = omega arith;
        total_cost = omega arith;
      })
