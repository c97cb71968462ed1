-- ===== src/NaiveQueue/Observer/Delivery.antt =====
-- What the calls of an `Observer<T>` in src/naive_queue.tpp change of the views: the steps that they
-- are told, and no more.
pub mod Pushes
use npb_sync.Prelude.{
  ℕ, ◌+◌, ◌%◌, ◌^◌, ◌≡◌, refl, Bool, true, false, ◌⊎◌, inl, inr, List, [], ◌∷◌, if◌then◌else◌,
  arith,
}
use npb_sync.NaiveQueue.Client.{Impl, prepare_reconfigure}
use npb_sync.NaiveQueue.Timed.{Costs}
use npb_sync.NaiveQueue.Observer.{
  Fault, Result, done, fault, FirstReconfigurationData, Synchronization, Observer, modify,
  fresh_first, fresh_second, get_add_producers_operations_first_phase,
  get_add_producers_operations_second_phase,
}
use npb_sync.NaiveQueue.Observer.Averages.{Floats, avg, min_element, sign_extend}
use npb_sync.NaiveQueue.Observer.Steps.{
  Views, change_view, compute_steps, from_float, second_costs, set_costs, at_least_one,
  all_averages, prepare_all, tune_first, first_reconfiguration, second_reconfiguration,
  trigger_reconfigure,
}
use npb_sync.NaiveQueue.Observer.Times.{
  add_synchronization, add_cost, end_first, count_synchronization,
  add_producer_synchronization_time_first, count_second, add_producer_synchronization_time_second,
}
use npb_sync.NaiveQueue.Observer.Phases.{Ensures}
use npb_sync.NaiveQueue.Observer.TimedPush.{
  World, add_observer_time_first_reconfiguration, add_observer_time_second_reconfiguration, observe,
}

Result-cases {ℓ} :
    {B : Type ℓ} (m : Result B) → ((b : B) × (m ≡ done b)) ⊎ ((e : Fault) × (m ≡ fault e))
Result-cases (done b) = inl (b, refl)
Result-cases (fault e) = inr (e, refl)

pub each_index {ℓ κ} :
    {B : Type ℓ} {I : Type 0} (P : I → B → Type κ) (m : Result B)
    → ((i : I) → Ensures (P i) m)
    → Ensures (λ b. (i : I) → P i b) m
each_index P (done b) h = h
each_index P (fault e) h = tt

module _ {A : Type 0} where
  -- views that differ in the step that they are told at most
  abbrev pub SameView : Impl A → Impl A → Type 0
  SameView q q' = q' ≡ record q { new_step = q'.new_step; need_reconfigure = q'.need_reconfigure }

  abbrev pub SameViews : Views A → Views A → Type 0
  SameViews views views' = (j : ℕ) → SameView (views j) (views' j)

  abbrev Same : Views A → ℕ → Observer × Views A → Type 0
  Same views j r = SameView (views j) (r.1 j)

  prepare_all-SameViews :
      (p c : ℕ) (m : List (ℕ × FirstReconfigurationData)) (views : Views A)
      → SameViews views (prepare_all p c m views)
  unfolding prepare_all prepare_reconfigure
  prepare_all-SameViews p c [] views j = refl
  prepare_all-SameViews p c ((view, d) ∷ m) views j = ground (
    arith,
    prepare_all-SameViews p c m
        (change_view views view (prepare_reconfigure (views view) (if d.producer then p else c))) j,
  )

  tune_first-SameViews :
      (fl : Floats) (costs : List ℕ) (p c : ℕ) (o : Observer) (views : Views A) (j : ℕ)
      → Ensures (Same views j) (tune_first fl costs p c o views)
  unfolding tune_first
  tune_first-SameViews fl [] p c o views j = tt
  tune_first-SameViews fl (x ∷ xs) p c o views j =
      let o' = set_costs fl (min_element x xs) o in
      elim (Result-cases (
        compute_steps fl o' (sign_extend p) (sign_extend c)
          ((o'.costs.cost_wl + o'.costs.cost_u) % 2 ^ 64))) [
            | inl (steps, e) ↦ rw e (
                prepare_all-SameViews (at_least_one steps.0) (at_least_one steps.1) o'.times views
                  j)
            | inr (f, e) ↦ rw e tt
          ]

  second-SameViews :
      (fl : Floats) (o : Observer) (views : Views A) (j : ℕ)
      → Ensures (Same views j) (second_reconfiguration fl o views)
  unfolding second_reconfiguration
  second-SameViews fl o views j = elim (Result-cases (from_float fl o.costs.producers_avg)) [
    | inr (f, e) ↦ rw e tt
    | inl (p, e) ↦ elim (Result-cases (from_float fl o.costs.consumers_avg)) [
      | inr (f, e') ↦ rw (e, e') tt
      | inl (c, e') ↦
          elim (Result-cases (compute_steps fl o p c (sign_extend (avg fl (second_costs o))))) [
            | inr (f, e'') ↦ rw (e, e', e'') tt
            | inl (steps, e'') ↦
                rw (e, e', e'') (prepare_all-SameViews steps.0 steps.1 o.times views j)
          ]
    ]
  ]

  trigger-SameViews :
      (fl : Floats) (first : Bool) (o : Observer) (views : Views A) (j : ℕ)
      → Ensures (Same views j) (trigger_reconfigure fl first o views)
  unfolding trigger_reconfigure first_reconfiguration
  trigger-SameViews fl true o views j =
      let a = all_averages fl (record { cost_p = []; producers = []; consumers = [] }) o.times in
      ground (
        arith,
        tune_first-SameViews fl a.cost_p (avg fl a.producers) (avg fl a.consumers)
            (record o { reconfigured = true }) views j,
      )
  trigger-SameViews fl false o views j =
      ground (arith, second-SameViews fl (record o { reconfigured_twice = true }) views j)

  first_call :
      (fl : Floats) (view cost_p : ℕ) (t : Synchronization) (o : Observer) (views : Views A) (j : ℕ)
      → Ensures
          (λ r. SameView (views j) (r.2 j))
          (add_producer_synchronization_time_first fl view cost_p t o views)
  unfolding add_producer_synchronization_time_first count_synchronization end_first
  first_call fl view cost_p t o views j =
      let (n, o') = get_add_producers_operations_first_phase o in
      ground (
        arith,
        trigger-SameViews fl true
            (record o' { times = modify view fresh_first (add_synchronization cost_p t) o'.times })
            views j,
      )

  second_call :
      (fl : Floats) (view : ℕ) (t : Synchronization) (o : Observer) (views : Views A) (j : ℕ)
      → Ensures
          (λ r. SameView (views j) (r.2 j))
          (add_producer_synchronization_time_second fl view t o views)
  unfolding add_producer_synchronization_time_second count_second
  second_call fl view t o views j =
      let (n, o') = get_add_producers_operations_second_phase o in
      ground (
        arith,
        trigger-SameViews fl false
            (record o' { cost_s = modify view fresh_second (add_cost t) o'.cost_s }) views j,
      )

  -- An observation leaves the queue alone, and the views but for the steps that they are told.
  pub observe_lem :
      (fl : Floats) (view cost_p : ℕ) (c : Costs) (w : World A) (j : ℕ)
      → Ensures
          (λ w'. (w'.master ≡ w.master) × SameView (w.views j) (w'.views j))
          (observe fl view cost_p c w)
  unfolding observe add_observer_time_first_reconfiguration add_observer_time_second_reconfiguration
  observe_lem fl view cost_p c w j =
      let t : Synchronization = record {
        lock = c.lock;
        critical = c.critical;
        unlock = c.unlock;
      } in
      ground (
        arith,
        first_call fl view cost_p t w.observer w.views j,
        second_call fl view t w.observer w.views j,
      )
