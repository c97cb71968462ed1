-- ===== src/NaiveQueue/Observer/Phases.antt =====
-- When the two reconfigurations of an `Observer<T>` take place: the counters of its calls, in
-- src/naive_queue.tpp, against the flags `_reconfigured` and `_reconfigured_twice`.
pub mod Reports
use npb_sync.Prelude.{
  ℕ, ◌+◌, ◌%◌, ◌^◌, ◌≤◌, ◌<◌, ◌≡◌, refl, Bool, true, false, ◌&&◌, leb, ◌==◌, arith,
}
use npb_sync.NaiveQueue.Observer.{
  Result, done, fault, ◌>>=◌, Synchronization, Observer, modify, fresh_first, fresh_second,
  get_max_producers_operations_first_phase, get_max_consumers_operations_first_phase,
  get_max_producers_operations_second_phase, get_add_producers_operations_first_phase,
  get_add_consumers_operations_first_phase, get_add_producers_operations_second_phase,
}
use npb_sync.NaiveQueue.Observer.Averages.{Floats}
use npb_sync.NaiveQueue.Observer.Steps.{
  Views, set_costs, first_reconfiguration, second_reconfiguration, trigger_reconfigure,
}
use npb_sync.NaiveQueue.Observer.Times.{
  add_work, add_cost, add_synchronization, end_first, record_work, count_work,
  count_synchronization, count_second,
}

-- The fields that a reconfiguration leaves alone.
pub record SameCounts (o o' : Observer) : Type 0 where
  pub first_n : o'.n_first_reconf ≡ o.n_first_reconf
  pub second_n : o'.n_second_reconf ≡ o.n_second_reconf
  pub producers : o'.n_producers ≡ o.n_producers
  pub consumers : o'.n_consumers ≡ o.n_consumers
  pub produced : o'.producer_count ≡ o.producer_count
  pub consumed : o'.consumer_count ≡ o.consumer_count
  pub produced_second : o'.producer_count_second_phase ≡ o.producer_count_second_phase

-- what a successful call satisfies
abbrev pub Ensures {ℓ κ} : {B : Type ℓ} → (B → Type κ) → Result B → Type κ
Ensures P (done b) = P b
Ensures P (fault e) = Unit

pub Ensures->>= {ℓ κ ℓ' κ'} :
    {B : Type ℓ} {C : Type ℓ'} (P : B → Type κ) (Q : C → Type κ') (m : Result B) (f : B → Result C)
    → Ensures P m
    → ((b : B) → P b → Ensures Q (f b))
    → Ensures Q (m >>= f)
Ensures->>= P Q (done b) f h k = k b h
Ensures->>= P Q (fault e) f h k = tt

module _ {A : Type 0} where
  first_reconfiguration-SameCounts :
      (fl : Floats) (o : Observer) (views : Views A)
      → Ensures
          (λ r.
            SameCounts o r.0
            × (r.0.reconfigured ≡ o.reconfigured)
            × (r.0.reconfigured_twice ≡ o.reconfigured_twice))
          (first_reconfiguration fl o views)
  unfolding first_reconfiguration set_costs
  first_reconfiguration-SameCounts fl o views = ground arith

  second_reconfiguration-SameCounts :
      (fl : Floats) (o : Observer) (views : Views A)
      → Ensures
          (λ r.
            SameCounts o r.0
            × (r.0.reconfigured ≡ o.reconfigured)
            × (r.0.reconfigured_twice ≡ o.reconfigured_twice))
          (second_reconfiguration fl o views)
  unfolding second_reconfiguration
  second_reconfiguration-SameCounts fl o views = ground arith

  -- A reconfiguration sets its own flag and leaves the counters and the other flag alone.
  trigger_lem :
      (fl : Floats) (o : Observer) (views : Views A)
      → Ensures
          (λ r.
            SameCounts o r.0
            × (r.0.reconfigured ≡ true)
            × (r.0.reconfigured_twice ≡ o.reconfigured_twice))
          (trigger_reconfigure fl true o views)
        × Ensures
            (λ r.
              SameCounts o r.0
              × (r.0.reconfigured ≡ o.reconfigured)
              × (r.0.reconfigured_twice ≡ true))
            (trigger_reconfigure fl false o views)
  unfolding trigger_reconfigure
  trigger_lem fl o views = (
    ground (arith, first_reconfiguration-SameCounts fl (record o { reconfigured = true }) views),
    ground (
      arith,
      second_reconfiguration-SameCounts fl (record o { reconfigured_twice = true }) views,
    ),
  )

-- The first reconfiguration has been triggered once both counters have passed their limits, and not
-- before both have reached them; the second one exactly if its counter has passed its limit.
pub record IsTracked (o : Observer) : Type 0 where
  pub first_kept :
      get_max_producers_operations_first_phase o < o.producer_count
      → get_max_consumers_operations_first_phase o < o.consumer_count
      → o.reconfigured ≡ true
  pub first_due :
      o.reconfigured ≡ true
      → (get_max_producers_operations_first_phase o ≤ o.producer_count)
        × (get_max_consumers_operations_first_phase o ≤ o.consumer_count)
  pub second_kept :
      get_max_producers_operations_second_phase o < o.producer_count_second_phase
      → o.reconfigured_twice ≡ true
  pub second_due :
      o.reconfigured_twice ≡ true
      → get_max_producers_operations_second_phase o < o.producer_count_second_phase

-- the calls counted
abbrev pub total : Observer → ℕ
total o = o.producer_count + o.consumer_count + o.producer_count_second_phase

-- the state after one call more
abbrev pub Next : Observer → Observer → Type 0
Next o o' = IsTracked o' × (total o' ≤ total o + 1)

-- the part of the invariant that is about the second phase
abbrev SecondTracked : Observer → Type 0
SecondTracked o =
    (get_max_producers_operations_second_phase o < o.producer_count_second_phase
      → o.reconfigured_twice ≡ true)
    × (o.reconfigured_twice ≡ true
        → get_max_producers_operations_second_phase o < o.producer_count_second_phase)

module _ {A : Type 0} where
  -- a call that ends the first phase, and one that does not
  end_first_lem :
      (fl : Floats) (last : Bool) (o : Observer) (views : Views A)
      → SecondTracked o
      → (last ≡ true
          → (get_max_producers_operations_first_phase o ≤ o.producer_count)
            × (get_max_consumers_operations_first_phase o ≤ o.consumer_count))
      → (last ≡ false → IsTracked o)
      → Ensures (λ r. IsTracked r.1 × (total r.1 ≡ total o)) (end_first fl last o views)
  unfolding end_first get_max_producers_operations_first_phase
      get_max_consumers_operations_first_phase get_max_producers_operations_second_phase
  end_first_lem fl true o views second due going =
      ground (arith, (trigger_lem fl o views).0, due refl)
  end_first_lem fl false o views second due going = (going refl, refl)

  pub work_lem :
      (fl : Floats) (client time : ℕ) (o : Observer) (views : Views A)
      → IsTracked o
      → total o + 1 < 2 ^ 32
      → Ensures (λ r. Next o r.1) (count_work fl client time o views)
  unfolding count_work record_work get_add_producers_operations_first_phase
      get_add_consumers_operations_first_phase get_max_producers_operations_first_phase
      get_max_consumers_operations_first_phase get_max_producers_operations_second_phase
  work_lem fl client time o views h spare =
      let times = modify client fresh_first (add_work time) o.times in
      ground (
        arith,
        end_first_lem fl
            ((o.producer_count == get_max_producers_operations_first_phase o)
              && leb (get_max_consumers_operations_first_phase o) o.consumer_count)
            (record o { times = times; producer_count = (o.producer_count + 1) % 2 ^ 32 }) views,
        end_first_lem fl
            ((o.consumer_count == get_max_consumers_operations_first_phase o)
              && leb (get_max_producers_operations_first_phase o) o.producer_count)
            (record o { times = times; consumer_count = (o.consumer_count + 1) % 2 ^ 32 }) views,
      )

  pub synchronization_lem :
      (fl : Floats) (producer push_time : ℕ) (t : Synchronization) (o : Observer) (views : Views A)
      → IsTracked o
      → total o + 1 < 2 ^ 32
      → Ensures (λ r. Next o r.1) (count_synchronization fl producer push_time t o views)
  unfolding count_synchronization get_add_producers_operations_first_phase
      get_max_producers_operations_first_phase get_max_consumers_operations_first_phase
      get_max_producers_operations_second_phase
  synchronization_lem fl producer push_time t o views h spare =
      let times = modify producer fresh_first (add_synchronization push_time t) o.times in
      ground (
        arith,
        end_first_lem fl
            ((o.producer_count == get_max_producers_operations_first_phase o)
              && leb (get_max_consumers_operations_first_phase o) o.consumer_count)
            (record o { times = times; producer_count = (o.producer_count + 1) % 2 ^ 32 }) views,
      )

  pub second_lem :
      (fl : Floats) (producer : ℕ) (t : Synchronization) (o : Observer) (views : Views A)
      → IsTracked o
      → total o + 1 < 2 ^ 32
      → Ensures (λ r. Next o r.1) (count_second fl producer t o views)
  unfolding count_second get_add_producers_operations_second_phase
      get_max_producers_operations_first_phase get_max_consumers_operations_first_phase
      get_max_producers_operations_second_phase
  second_lem fl producer t o views h spare = ground (
    arith,
    (trigger_lem fl
        (record o {
          cost_s = modify producer fresh_second (add_cost t) o.cost_s;
          producer_count_second_phase = (o.producer_count_second_phase + 1) % 2 ^ 32;
        })
        views).1,
  )
