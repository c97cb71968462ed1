-- ===== src/NaiveQueue/Observer/Steps.antt =====
-- `Observer<T>::compute_steps` and `trigger_reconfigure` of src/naive_queue.tpp: the steps that are
-- computed from the measured times, and their announcement to every registered view. As in
-- src/naive_queue_conf.h, RECONFIGURE is 1 and each effective step is the step computed.
use npb_sync.Prelude.{
  ℕ, ◌+◌, ◌-◌, ◌*◌, ◌/◌, ◌%◌, ◌^◌, Bool, true, false, List, [], ◌∷◌, ◌++◌, map, ltb, ◌==◌,
  if◌then◌else◌,
}
use npb_sync.NaiveQueue.Client.{Impl, prepare_reconfigure}
use npb_sync.NaiveQueue.Observer.{
  no_cost, zero_division, negative_average, Result, done, fault, ◌>>=◌, FirstReconfigurationData,
  SecondReconfigurationData, Observer,
}
use npb_sync.NaiveQueue.Observer.Averages.{
  Floats, sign_extend, avg, sort, quart, unsorted_median, min_element,
}

-- the views by their addresses
abbrev pub Views : Type 0 → Type 0
Views A = ℕ → Impl A

abbrev pub change_view : {A : Type 0} → Views A → ℕ → Impl A → Views A
change_view views key q j = if key == j then q else views j

-- `/` of two 64-bit numbers
unfoldable pub div_u64 : ℕ → ℕ → Result ℕ
div_u64 a b = if b == 0 then fault zero_division else done (a / b)

-- One branch of `compute_steps`, for `n` threads on one side of the queue and `others` on the other:
-- the step of the `n` and that of the others.
unfoldable pub side_steps : Floats → ℕ → ℕ → ℕ → ℕ → ℕ → Result (ℕ × ℕ)
unfolding div_u64
side_steps fl others n work cost_p up =
    div_u64 ((n * work % 2 ^ 64 + n * cost_p % 2 ^ 64) % 2 ^ 64) others >>= λ down_left.
    let down_right = 2 * ((n * cost_p % 2 ^ 64 + 2 ^ 64 - cost_p) + n * cost_p) % 2 ^ 64 in
    div_u64 up ((down_left + down_right) % 2 ^ 64) >>= λ ratio.
    let step = fl.sqrt ratio % 2 ^ 32 in
    div_u64 (step * n % 2 ^ 32) others >>= λ other. done (step, other)

-- the step of the producers and that of the consumers
unfoldable pub compute_steps : Floats → Observer → ℕ → ℕ → ℕ → Result (ℕ × ℕ)
compute_steps fl o producer_avg consumer_avg cost_s =
    let pc_ratio = o.n_consumers * producer_avg % 2 ^ 64 in
    let cp_ratio = o.n_producers * consumer_avg % 2 ^ 64 in
    let up = o.costs.iter * cost_s % 2 ^ 64 in
    if ltb cp_ratio pc_ratio
    then side_steps fl o.n_consumers o.n_producers consumer_avg o.costs.cost_p up
    else side_steps fl o.n_producers o.n_consumers producer_avg o.costs.cost_p up >>= λ steps.
        done (steps.1, steps.0)

-- `cost_p`, `producers` and `consumers` of the first phase
pub record Averages : Type 0 where
  pub cost_p : List ℕ
  pub producers : List ℕ
  pub consumers : List ℕ

abbrev pub push_nonzero : List ℕ → ℕ → List ℕ
push_nonzero xs x = if x == 0 then xs else xs ++ x ∷ []

unfoldable pub add_averages : Floats → Averages → FirstReconfigurationData → Averages
add_averages fl a d =
    let average = avg fl d.work_times in
    if d.phantom
    then a
    else if d.producer
    then record a {
      cost_p = push_nonzero a.cost_p (sign_extend (avg fl d.push_times));
      producers = push_nonzero a.producers average;
    }
    else record a { consumers = push_nonzero a.consumers average }

unfoldable pub all_averages : Floats → Averages → List (ℕ × FirstReconfigurationData) → Averages
unfolding add_averages
all_averages fl a [] = a
all_averages fl a ((view, d) ∷ m) = all_averages fl (add_averages fl a d) m

-- the producers that are no phantoms
unfoldable pub measured : List (ℕ × FirstReconfigurationData) → List FirstReconfigurationData
measured [] = []
measured ((view, d) ∷ m) =
    let rest = measured m in if d.phantom then rest else if d.producer then d ∷ rest else rest

-- `quart` sorts the vectors of the measured producers.
unfoldable pub sort_entry : FirstReconfigurationData → FirstReconfigurationData
sort_entry d =
    if d.phantom
    then d
    else if d.producer
    then record d {
      lock_times = sort d.lock_times;
      unlock_times = sort d.unlock_times;
      copy_times = sort d.copy_times;
    }
    else d

unfoldable pub sort_times :
    List (ℕ × FirstReconfigurationData) → List (ℕ × FirstReconfigurationData)
sort_times [] = []
sort_times ((view, d) ∷ m) = (view, sort_entry d) ∷ sort_times m

-- the loop that announces the steps
unfoldable pub prepare_all :
    {A : Type 0} → ℕ → ℕ → List (ℕ × FirstReconfigurationData) → Views A → Views A
prepare_all prod_step cons_step [] views = views
prepare_all prod_step cons_step ((view, d) ∷ m) views = prepare_all prod_step cons_step m (
    change_view views view
      (prepare_reconfigure (views view) (if d.producer then prod_step else cons_step)))

abbrev pub at_least_one : ℕ → ℕ
at_least_one step = if step == 0 then 1 else step

-- the costs of the synchronisations, `_cost_wl`, `_cost_cc` and `_cost_u`
unfoldable pub set_costs : Floats → ℕ → Observer → Observer
unfolding measured sort_times
set_costs fl cost_p o =
    let ds = measured o.times in
    record o {
      times = sort_times o.times;
      costs = record o.costs {
        cost_p = cost_p;
        cost_wl = sign_extend (avg fl (map (λ d. quart d.lock_times) ds));
        cost_cc = sign_extend (avg fl (map (λ d. quart d.copy_times) ds));
        cost_u = sign_extend (avg fl (map (λ d. quart d.unlock_times) ds));
      };
    }

-- the assignments to `_data` behind the announcement
abbrev pub set_first_steps : ℕ → ℕ → ℕ → ℕ → Observer → Observer
set_first_steps producer_avg consumer_avg prod_step cons_step o = record o {
  costs = record o.costs {
    producers_avg = producer_avg;
    consumers_avg = consumer_avg;
    prod_cons = o.n_producers * consumer_avg % 2 ^ 32;
    prod_prod = o.n_consumers * producer_avg % 2 ^ 32;
    first_prod_step = prod_step;
    first_cons_step = cons_step;
    first_prod_step_eff = prod_step;
    first_cons_step_eff = cons_step;
  };
}

-- `trigger_reconfigure(true)` from the minimum of `cost_p` on
unfoldable pub tune_first :
    {A : Type 0} → Floats → List ℕ → ℕ → ℕ → Observer → Views A → Result (Observer × Views A)
tune_first fl [] producer_avg consumer_avg o views = fault no_cost
tune_first fl (c ∷ cs) producer_avg consumer_avg o views =
    let o' = set_costs fl (min_element c cs) o in
    compute_steps fl o' (sign_extend producer_avg) (sign_extend consumer_avg)
      ((o'.costs.cost_wl + o'.costs.cost_u) % 2 ^ 64)
    >>= λ steps.
        let prod_step = at_least_one steps.0 in
        let cons_step = at_least_one steps.1 in
        done (
          set_first_steps producer_avg consumer_avg prod_step cons_step o',
          prepare_all prod_step cons_step o'.times views,
        )

-- `trigger_reconfigure(true)` behind its `compare_exchange_strong`
unfoldable pub first_reconfiguration :
    {A : Type 0} → Floats → Observer → Views A → Result (Observer × Views A)
unfolding tune_first
first_reconfiguration fl o views =
    let a = all_averages fl (record { cost_p = []; producers = []; consumers = [] }) o.times in
    tune_first fl a.cost_p (avg fl a.producers) (avg fl a.consumers) o views

-- the medians that the loop over `_cost_s` appends
unfoldable pub medians : List (ℕ × SecondReconfigurationData) → List ℕ
medians [] = []
medians ((view, d) ∷ m) =
    unsorted_median (map (λ t. (t.lock + t.unlock) % 2 ^ 64) d.cost_s) ∷ medians m

-- `std::vector<uint64_t> v(n)`
unfoldable pub zeros : List (ℕ × SecondReconfigurationData) → List ℕ
zeros [] = []
zeros (entry ∷ m) = 0 ∷ zeros m

-- The vector is made with as many zeros as there are entries before the medians are appended.
unfoldable pub second_costs : Observer → List ℕ
unfolding medians zeros
second_costs o = zeros o.cost_s ++ medians o.cost_s

-- a `float` that holds an `int` is converted to a `uint64_t`
unfoldable pub from_float : Floats → ℕ → Result ℕ
from_float fl i = if ltb i (2 ^ 31) then done (fl.round i) else fault negative_average

-- `trigger_reconfigure(false)` behind its `compare_exchange_strong`
unfoldable pub second_reconfiguration :
    {A : Type 0} → Floats → Observer → Views A → Result (Observer × Views A)
unfolding prepare_all
second_reconfiguration fl o views = from_float fl o.costs.producers_avg >>= λ producers_avg.
    from_float fl o.costs.consumers_avg >>= λ consumers_avg.
    compute_steps fl o producers_avg consumers_avg (sign_extend (avg fl (second_costs o)))
    >>= λ steps. done (
      record o {
        costs = record o.costs {
          second_prod_step = steps.0;
          second_cons_step = steps.1;
          second_prod_step_eff = steps.0;
          second_cons_step_eff = steps.1;
        };
      },
      prepare_all steps.0 steps.1 o.times views,
    )

unfoldable pub trigger_reconfigure :
    {A : Type 0} → Floats → Bool → Observer → Views A → Result (Observer × Views A)
trigger_reconfigure fl true o views =
    if o.reconfigured
    then done (o, views)
    else first_reconfiguration fl (record o { reconfigured = true }) views
trigger_reconfigure fl false o views =
    if o.reconfigured_twice
    then done (o, views)
    else second_reconfiguration fl (record o { reconfigured_twice = true }) views
