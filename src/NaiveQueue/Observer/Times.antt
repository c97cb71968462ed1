-- ===== src/NaiveQueue/Observer/Times.antt =====
-- The calls by which the views report measured times to an `Observer<T>`: `add_work_time` and both
-- `add_producer_synchronization_time` of src/naive_queue.tpp. A call is modelled as a whole: calls
-- of several threads come one after the other.
use npb_sync.Prelude.{
  ℕ, Bool, true, false, ◌&&◌, none, some, [], ◌∷◌, ◌++◌, ltb, leb, ◌==◌, if◌then◌else◌,
}
use npb_sync.NaiveQueue.Client.{was_reconfigured}
use npb_sync.NaiveQueue.Observer.{
  not_registered, zero_time, Result, done, fault, ◌>>=◌, FirstReconfigurationData, Synchronization,
  SecondReconfigurationData, CostSState, not_reconfigured, reconfigured, triggered, Observer, find,
  modify, fresh_first, fresh_second, get_max_producers_operations_first_phase,
  get_max_consumers_operations_first_phase, get_max_producers_operations_second_phase,
  get_add_producers_operations_first_phase, get_add_consumers_operations_first_phase,
  get_add_producers_operations_second_phase,
}
use npb_sync.NaiveQueue.Observer.Averages.{Floats}
use npb_sync.NaiveQueue.Observer.Steps.{Views, trigger_reconfigure}

-- what a call returns, with the state that it leaves
abbrev pub Call : Type 0 → Type 0 → Type 0
Call A B = Result (B × Observer × Views A)

abbrev pub add_work : ℕ → FirstReconfigurationData → FirstReconfigurationData
add_work time d = record d { work_times = d.work_times ++ time ∷ [] }

abbrev pub add_synchronization :
    ℕ → Synchronization → FirstReconfigurationData → FirstReconfigurationData
add_synchronization push_time t d =
    let pushed = record d { push_times = d.push_times ++ push_time ∷ []; push_reserved = true } in
    if t.critical == 0 then pushed else record pushed {
      lock_times = d.lock_times ++ t.lock ∷ [];
      copy_times = d.copy_times ++ t.critical ∷ [];
      unlock_times = d.unlock_times ++ t.unlock ∷ [];
    }

-- one of the four durations is 0
abbrev pub has_zero : ℕ → Synchronization → Bool
has_zero push_time t =
    if push_time == 0
    then true
    else if t.lock == 0
    then true
    else if t.critical == 0
    then true
    else t.unlock == 0

abbrev pub add_cost : Synchronization → SecondReconfigurationData → SecondReconfigurationData
add_cost t d = record d { cost_s = d.cost_s ++ t ∷ [] }

module _ {A : Type 0} where
  -- The end of a call of the first phase: the call whose number is the maximum triggers the
  -- reconfiguration if the other side has reached its own.
  unfoldable pub end_first : Floats → Bool → Observer → Views A → Call A Bool
  end_first fl last o views =
      if last
      then (trigger_reconfigure fl true o views >>= λ r. done (false, r.0, r.1))
      else done (true, o, views)

  -- `add_work_time` behind its counter
  unfoldable pub record_work : Floats → ℕ → ℕ → ℕ → ℕ → ℕ → ℕ → Observer → Views A → Call A Bool
  unfolding end_first
  record_work fl client time operations limit other_operations other_limit o views =
      if ltb limit operations
      then done (false, o, views)
      else end_first fl ((operations == limit) && leb other_limit other_operations)
          (record o { times = modify client fresh_first (add_work time) o.times }) views

  -- a client that is registered and no phantom
  unfoldable pub count_work : Floats → ℕ → ℕ → Observer → Views A → Call A Bool
  unfolding record_work
  count_work fl client time o views =
      let (produced, o₁) = get_add_producers_operations_first_phase o in
      let (consumed, o₂) = get_add_consumers_operations_first_phase o in
      if time == 0
      then fault zero_time
      else if (views client).producer
      then record_work fl client time produced (get_max_producers_operations_first_phase o)
          o.consumer_count (get_max_consumers_operations_first_phase o) o₁ views
      else record_work fl client time consumed (get_max_consumers_operations_first_phase o)
          o.producer_count (get_max_producers_operations_first_phase o) o₂ views

  unfoldable pub add_work_time : Floats → ℕ → ℕ → Observer → Views A → Call A Bool
  unfolding count_work
  add_work_time fl client time o views = elim (find client o.times) [
    | none ↦ fault not_registered
    | some d ↦ if d.phantom then done (false, o, views) else count_work fl client time o views
  ]

  unfoldable pub count_synchronization :
      Floats → ℕ → ℕ → Synchronization → Observer → Views A → Call A Bool
  unfolding end_first
  count_synchronization fl producer push_time t o views =
      let (observations, o') = get_add_producers_operations_first_phase o in
      let limit = get_max_producers_operations_first_phase o in
      if ltb limit observations
      then done (false, o', views)
      else end_first fl
          ((observations == limit)
            && leb (get_max_consumers_operations_first_phase o) o'.consumer_count)
          (record o' {
            times = modify producer fresh_first (add_synchronization push_time t) o'.times;
          })
          views

  unfoldable pub add_producer_synchronization_time_first :
      Floats → ℕ → ℕ → Synchronization → Observer → Views A → Call A Bool
  unfolding count_synchronization
  add_producer_synchronization_time_first fl producer push_time t o views =
      if has_zero push_time t then fault zero_time else elim (find producer o.times) [
        | none ↦ fault not_registered
        | some d ↦
            if d.phantom
            then done (false, o, views)
            else count_synchronization fl producer push_time t o views
      ]

  -- a producer whose step has been changed
  unfoldable pub count_second :
      Floats → ℕ → Synchronization → Observer → Views A → Call A CostSState
  count_second fl producer t o views =
      let (observations, o') = get_add_producers_operations_second_phase o in
      let limit = get_max_producers_operations_second_phase o in
      let added = record o' { cost_s = modify producer fresh_second (add_cost t) o'.cost_s } in
      if ltb limit observations
      then done (reconfigured, o', views)
      else if observations == limit
      then (trigger_reconfigure fl false added views >>= λ r. done (triggered, r.0, r.1))
      else done (not_reconfigured, added, views)

  unfoldable pub add_producer_synchronization_time_second :
      Floats → ℕ → Synchronization → Observer → Views A → Call A CostSState
  unfolding count_second was_reconfigured
  add_producer_synchronization_time_second fl producer t o views = elim (find producer o.cost_s) [
    | none ↦ fault not_registered
    | some d ↦
        if d.phantom
        then done (reconfigured, o, views)
        else if was_reconfigured (views producer)
        then count_second fl producer t o views
        else done (not_reconfigured, o, views)
  ]
