-- ===== src/NaiveQueue/Observer/Announced.antt =====
-- The first reconfiguration of `Observer<T>` in src/naive_queue.tpp as a whole: which view is told
-- which step. The views are registered in maps whose keys ascend.
use npb_sync.Prelude.{
  ℕ, ◌+◌, ◌%◌, ◌^◌, ◌≤◌, ◌<◌, ◌≡◌, refl, true, false, Option, none, some, List, [], ◌∷◌,
  if◌then◌else◌, arith,
}
use npb_sync.NaiveQueue.Client.{Impl, prepare_reconfigure}
use npb_sync.NaiveQueue.Observer.{done, FirstReconfigurationData, Observer, find, modify}
use npb_sync.NaiveQueue.Observer.Averages.{Floats, IsAccurate, avg, sign_extend, min_element}
use npb_sync.NaiveQueue.Observer.Steps.{
  Views, change_view, Averages, all_averages, sort_entry, sort_times, prepare_all, set_costs,
  at_least_one, set_first_steps, first_reconfiguration, trigger_reconfigure,
}
use npb_sync.NaiveQueue.Observer.Tuning.{IsModerate, AreSteps, compute_steps_lem}

module _ {V : Type 0} where
  abbrev pub Above : ℕ → List (ℕ × V) → Type 0
  Above key [] = Unit
  Above key ((j, v) ∷ m) = (key < j) × Above key m

  abbrev pub IsAscending : List (ℕ × V) → Type 0
  IsAscending [] = Unit
  IsAscending ((j, v) ∷ m) = Above j m × IsAscending m

  Above-le : (key key' : ℕ) (m : List (ℕ × V)) → key ≤ key' → Above key' m → Above key m
  Above-le key key' [] h a = tt
  Above-le key key' ((j, v) ∷ m) h a = (omega arith, Above-le key key' m h a.1)

  find-Above : (key : ℕ) (m : List (ℕ × V)) → Above key m → find key m ≡ none
  unfolding find
  find-Above key [] a = refl
  find-Above key ((j, v) ∷ m) a = ground (arith, find-Above key m a.1)

  Above-modify :
      (key low : ℕ) (fresh : V) (change : V → V) (m : List (ℕ × V))
      → low < key
      → Above low m
      → Above low (modify key fresh change m)
  unfolding modify
  Above-modify key low fresh change [] h a = (h, tt)
  Above-modify key low fresh change ((j, v) ∷ m) h a =
      ground (arith, Above-modify key low fresh change m h a.1)

  -- A change of an entry, or a new one, keeps the keys in order.
  pub modify-IsAscending :
      (key : ℕ) (fresh : V) (change : V → V) (m : List (ℕ × V))
      → IsAscending m
      → IsAscending (modify key fresh change m)
  unfolding modify
  modify-IsAscending key fresh change [] a = (tt, tt)
  modify-IsAscending key fresh change ((j, v) ∷ m) a = ground (
    arith,
    Above-le key j m,
    Above-modify key j fresh change m,
    modify-IsAscending key fresh change m a.1,
  )

producer-sort_entry : (d : FirstReconfigurationData) → (sort_entry d).producer ≡ d.producer
unfolding sort_entry
producer-sort_entry d = ground arith

module _ {A : Type 0} where
  -- what a view is after the announcement of a step for producers and one for consumers
  abbrev pub told : ℕ → ℕ → Impl A → Option FirstReconfigurationData → Impl A
  told prod_step cons_step q none = q
  told prod_step cons_step q (some d) =
      prepare_reconfigure q (if d.producer then prod_step else cons_step)

  prepare_all_lem :
      (prod_step cons_step : ℕ) (m : List (ℕ × FirstReconfigurationData)) (views : Views A)
      (view : ℕ)
      → IsAscending m
      → prepare_all prod_step cons_step m views view
        ≡ told prod_step cons_step (views view) (find view m)
  unfolding prepare_all find
  prepare_all_lem p c [] views view a = refl
  prepare_all_lem p c ((j, d) ∷ m) views view a =
      let q = prepare_reconfigure (views j) (if d.producer then p else c) in
      ground (arith, prepare_all_lem p c m (change_view views j q) view a.1, find-Above j m a.0)

  -- Sorting the times leaves the kinds of the views alone.
  prepare_all-sort_times :
      (prod_step cons_step : ℕ) (m : List (ℕ × FirstReconfigurationData)) (views : Views A)
      → prepare_all prod_step cons_step (sort_times m) views
        ≡ prepare_all prod_step cons_step m views
  unfolding prepare_all sort_times
  prepare_all-sort_times p c [] views = refl
  prepare_all-sort_times p c ((j, d) ∷ m) views =
      rw (producer-sort_entry d, prepare_all-sort_times p c m) refl

-- what the measured times give
abbrev pub averages : Floats → Observer → Averages
averages fl o = all_averages fl (record { cost_p = []; producers = []; consumers = [] }) o.times

abbrev pub producer_average : Floats → Observer → ℕ
producer_average fl o = sign_extend (avg fl (averages fl o).producers)

abbrev pub consumer_average : Floats → Observer → ℕ
consumer_average fl o = sign_extend (avg fl (averages fl o).consumers)

-- the time that a synchronisation takes beside the copying
abbrev pub waiting : Observer → ℕ
waiting o = (o.costs.cost_wl + o.costs.cost_u) % 2 ^ 64

module _ {A : Type 0} (fl : Floats) (accurate : IsAccurate fl) where
  -- The observer has not yet reconfigured, some measured producer has a mean time of a push, the
  -- least of these means is the cost of a push, and the measured times are moderate. Then
  -- `trigger_reconfigure(true)` ends without a fault: it computes the steps of
  -- `compute_steps_lem`, tells every registered producer and consumer the one of its side, but at
  -- least 1, and no other view; and another call changes nothing.
  pub announce_lem :
      (o : Observer) (views : Views A) (c : ℕ) (cs : List ℕ)
      → o.reconfigured ≡ false
      → IsAscending o.times
      → (averages fl o).cost_p ≡ c ∷ cs
      → let tuned = set_costs fl (min_element c cs) (record o { reconfigured = true }) in
        IsModerate tuned (producer_average fl o) (consumer_average fl o) (waiting tuned)
        → (prod_step : ℕ) × (cons_step : ℕ) × (o' : Observer) × (views' : Views A)
          × (trigger_reconfigure fl true o views ≡ done (o', views'))
          × AreSteps tuned
              (producer_average fl o)
              (consumer_average fl o)
              (waiting tuned)
              prod_step
              cons_step
          × ((view : ℕ)
              → views' view
                ≡ told
                    (at_least_one prod_step)
                    (at_least_one cons_step)
                    (views view)
                    (find view o.times))
          × (trigger_reconfigure fl true o' views' ≡ done (o', views'))
  unfolding trigger_reconfigure first_reconfiguration set_costs
  announce_lem o views c cs open_ ascending costs moderate =
      let tuned = set_costs fl (min_element c cs) (record o { reconfigured = true }) in
      let (p, k, eq, are) =
        compute_steps_lem fl accurate tuned (producer_average fl o) (consumer_average fl o)
          (waiting tuned) moderate in
      (
        p,
        k,
        set_first_steps (avg fl (averages fl o).producers) (avg fl (averages fl o).consumers)
            (at_least_one p) (at_least_one k) tuned,
        prepare_all (at_least_one p) (at_least_one k) tuned.times views,
        rw (open_, costs, eq) refl,
        are,
        λ view.
            rw prepare_all-sort_times
              (prepare_all_lem (at_least_one p) (at_least_one k) o.times views view ascending),
        refl,
      )
