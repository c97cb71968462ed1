-- ===== src/NaiveQueue/Observer/Second.antt =====
-- The second phase of `Observer<T>` in src/naive_queue.tpp: the mean that it computes, and the views
-- of src/naive_queue.hpp that never take part in it.
use npb_sync.Prelude.{
  ℕ, ◌+◌, ◌-◌, ◌*◌, ◌/◌, ◌^◌, ◌≤◌, ◌<◌, ◌≡◌, ◌≢◌, refl, ◌∙◌, true, false, none, List, [], ◌∷◌, ◌++◌,
  length, length-append, lt→ltb, arith,
}
use npb_sync.Ring.{Ring}
use npb_sync.NaiveQueue.Master.{Master, Reply, Attempt, waits, returned}
use npb_sync.NaiveQueue.Client.{Impl, reconfigure, push_handed, push_end}
use npb_sync.NaiveQueue.Timed.{Readings, Costs, enqueue}
use npb_sync.NaiveQueue.Observer.{
  Result, done, SecondReconfigurationData, Observer, find, get_max_producers_operations_first_phase,
  get_add_producers_operations_first_phase,
}
use npb_sync.NaiveQueue.Observer.Averages.{Floats, IsAccurate, avg, avg_lem, sum}
use npb_sync.NaiveQueue.Observer.Steps.{change_view, medians, zeros, second_costs}
use npb_sync.NaiveQueue.Observer.Times.{
  count_synchronization, add_producer_synchronization_time_first,
}
use npb_sync.NaiveQueue.Observer.Phases.{Ensures, Ensures->>=}
use npb_sync.NaiveQueue.Observer.TimedPush.{
  World, add_observer_time_first_reconfiguration, observe, next_phase, reconfigure_view,
  timed_push_handed, timed_push_end, plain_push, generic_push_end,
}

sum-zeros : (m : List (ℕ × SecondReconfigurationData)) (xs : List ℕ) → sum (zeros m ++ xs) ≡ sum xs
unfolding zeros
sum-zeros [] xs = refl
sum-zeros (entry ∷ m) xs = omega (arith, sum-zeros m xs)

length-second :
    (m : List (ℕ × SecondReconfigurationData))
    → (length (zeros m) ≡ length m) × (length (medians m) ≡ length m)
unfolding zeros medians
length-second [] = (refl, refl)
length-second ((view, d) ∷ m) =
    let (e, e') = length-second m in (omega (arith, e), omega (arith, e'))

-- While sums fit an `int`, the cost of a synchronisation that the second reconfiguration computes
-- with is the sum of the medians of the producers divided by twice their number: half their mean.
pub second_cost_lem :
    (fl : Floats) (o : Observer)
    → IsAccurate fl
    → 0 < length o.cost_s
    → 2 * length o.cost_s ≤ 2 ^ 24
    → sum (medians o.cost_s) < 2 ^ 31
    → avg fl (second_costs o) ≡ sum (medians o.cost_s) / (2 * length o.cost_s)
unfolding second_costs
second_cost_lem fl o accurate some_producers few small =
    let (e, e') = length-second o.cost_s in
    let long : length (zeros o.cost_s ++ medians o.cost_s) ≡ 2 * length o.cost_s =
      omega (arith, length-append (zeros o.cost_s) (medians o.cost_s), e, e') in
    let same = sum-zeros o.cost_s (medians o.cost_s) in
    avg_lem fl (zeros o.cost_s ++ medians o.cost_s) accurate (omega (arith, long))
      (omega (arith, long)) (omega (arith, same))
    ∙ rw (same, long, lt→ltb _ _ small) refl

module _ {A : Type 0} where
  -- A registered view whose step has been changed while it still reports to the first phase, which
  -- is over.
  pub record HasMissed (view : ℕ) (w : World A) : Type 0 where
    pub first : w.watch.second_phase ≡ false
    pub changed : (w.views view).reconfigured ≡ true
    pub registered : find view w.observer.times ≢ none
    pub finished : get_max_producers_operations_first_phase w.observer < w.observer.producer_count

  -- what becomes of such a view, and of the measurements of the second phase
  abbrev pub KeepsMissing : ℕ → World A → World A → Type 0
  KeepsMissing view w w' = HasMissed view w' × (w'.observer.cost_s ≡ w.observer.cost_s)

  abbrev pub TakesNoPart : ℕ → World A → Attempt (Result (World A)) → Type 0
  TakesNoPart view w waits = Unit
  TakesNoPart view w (returned r) = Ensures (KeepsMissing view w) r

  reconfigured-reconfigure :
      (q : Impl A) → q.reconfigured ≡ true → (reconfigure q).reconfigured ≡ true
  unfolding reconfigure
  reconfigured-reconfigure q h = ground arith

  observe_missed :
      (fl : Floats) (view cost_p : ℕ) (c : Costs) (w : World A)
      → HasMissed view w
      → w.observer.producer_count + 1 < 2 ^ 32
      → Ensures (KeepsMissing view w) (observe fl view cost_p c w)
  unfolding observe add_observer_time_first_reconfiguration add_producer_synchronization_time_first
      count_synchronization get_add_producers_operations_first_phase
      get_max_producers_operations_first_phase
  observe_missed fl view cost_p c w h spare = ground arith

  -- Reconfiguring the view at the end of a push changes nothing of this.
  HasMissed-reconfigure_view :
      (view : ℕ) (w : World A) → HasMissed view w → HasMissed view (reconfigure_view view w)
  unfolding reconfigure_view
  HasMissed-reconfigure_view view w h =
      ground (arith, reconfigured-reconfigure (w.views view) h.changed)

  next_phase_missed : (view : ℕ) (w : World A) → HasMissed view w → next_phase view w ≡ w
  unfolding next_phase
  next_phase_missed view w h = ground arith

  handed_missed :
      (fl : Floats) (view cost_p : ℕ) (w : World A)
      (a : Attempt ((Reply × Costs) × Master A × Ring A))
      → HasMissed view w
      → w.observer.producer_count + 1 < 2 ^ 32
      → TakesNoPart view w (timed_push_handed fl view cost_p w a)
  unfolding timed_push_handed
  handed_missed fl view cost_p w waits h spare = tt
  handed_missed fl view cost_p w (returned ((reply, c), m, r)) h spare =
      let handed : World A = record w {
        master = m;
        views = change_view w.views view (record (w.views view) { ring = r });
      } in
      let h' : HasMissed view handed = ground arith in
      Ensures->>= (KeepsMissing view handed) (KeepsMissing view w) (observe fl view cost_p c handed)
        (λ w'. done (reconfigure_view view (next_phase view w')))
        (observe_missed fl view cost_p c handed h' spare)
        λ w' k.
          rw (next_phase_missed view w' k.0) (HasMissed-reconfigure_view view w' k.0, kept w' k.1)
    where
      kept :
          (w' : World A)
          → w'.observer.cost_s ≡ w.observer.cost_s
          → (reconfigure_view view w').observer.cost_s ≡ w.observer.cost_s
      kept w' e = unfold reconfigure_view in e

  abbrev StaysChanged : Attempt (Master A × Impl A) → Type 0
  StaysChanged waits = Unit
  StaysChanged (returned (m, q)) = q.reconfigured ≡ true

  push_end_missed :
      (m : Master A) (q : Impl A) → q.reconfigured ≡ true → StaysChanged (push_end m q)
  unfolding push_end push_handed
  push_end_missed m q h = ground (arith, reconfigured-reconfigure q h)

  plain_missed :
      (view : ℕ) (w : World A) (a : Attempt (Master A × Impl A))
      → HasMissed view w
      → StaysChanged a
      → TakesNoPart view w (plain_push view w a)
  unfolding plain_push
  plain_missed view w waits h stays = tt
  plain_missed view w (returned (m, q)) h stays = ground arith

  -- A view is registered, and its step has been changed while it still reports to the first phase,
  -- which is over. Then this stays so through every push of the view that returns without a fault,
  -- timed or not, and no push adds a measurement to the second phase.
  pub missed_lem :
      (fl : Floats) (view cost_p : ℕ) (t : Readings) (w : World A)
      → HasMissed view w
      → w.observer.producer_count + 1 < 2 ^ 32
      → TakesNoPart view w (generic_push_end fl view cost_p t w)
  unfolding generic_push_end timed_push_end
  missed_lem fl view cost_p t w h spare = ground (
    arith,
    handed_missed fl view cost_p w
        (enqueue t w.master (w.views view).ring ((w.views view).ring.size - 1)) h spare,
    HasMissed-reconfigure_view view w h,
    plain_missed view w (push_end w.master (w.views view)) h,
    push_end_missed w.master (w.views view) h.changed,
  )
