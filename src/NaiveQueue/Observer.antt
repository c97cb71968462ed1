-- ===== src/NaiveQueue/Observer.antt =====
-- The class `Observer<T>` of src/naive_queue.hpp and src/naive_queue.tpp, which measures a queue
-- while it is used and then changes the steps of its views twice: its state, the registration of
-- the views, and its counters. A view is named by its address, and a `std::map` by addresses is a
-- list in the order of the addresses. A `uint32_t` is a number below 2 ^ 32, and its operations are
-- written with their wrap-around.
pub mod Averages
pub mod Steps
pub mod Times
pub mod TimedPush
pub mod Phases
pub mod Tuning
pub mod Announced
pub mod Second
pub mod Delivery
use npb_sync.Prelude.{
  ℕ, ◌+◌, ◌*◌, ◌%◌, ◌^◌, Bool, true, false, ◌&&◌, Option, none, some, List, [], ◌∷◌, ltb, ◌==◌,
  if◌then◌else◌,
}

-- what ends the program: a throw, a failed `assert`, or an operation that is not defined
pub data Fault : Type 0 where
  not_registered : Fault
  already_reserved : Fault
  zero_time : Fault
  no_cost : Fault
  zero_division : Fault
  negative_average : Fault

pub data Result {ℓ} (A : Type ℓ) : Type ℓ where
  done : A → Result A
  fault : Fault → Result A

infixl 5 ◌>>=◌
abbrev pub ◌>>=◌ {ℓ κ} : {A : Type ℓ} {B : Type κ} → Result A → (A → Result B) → Result B
done a >>= f = f a
fault e >>= f = fault e

-- `Observer::Data`; the `float` fields are kept as the `int` that they are assigned
pub record Data : Type 0 where
  pub cost_p : ℕ
  pub cost_wl : ℕ
  pub cost_cc : ℕ
  pub cost_u : ℕ
  pub iter : ℕ
  pub producers_avg : ℕ
  pub consumers_avg : ℕ
  pub prod_cons : ℕ
  pub prod_prod : ℕ
  pub first_prod_step : ℕ
  pub first_cons_step : ℕ
  pub second_prod_step : ℕ
  pub second_cons_step : ℕ
  pub first_prod_step_eff : ℕ
  pub first_cons_step_eff : ℕ
  pub second_prod_step_eff : ℕ
  pub second_cons_step_eff : ℕ

-- `push_reserved`: the capacity of `_push_times` is not 0
pub record FirstReconfigurationData : Type 0 where
  pub producer : Bool
  pub phantom : Bool
  pub work_times : List ℕ
  pub push_times : List ℕ
  pub lock_times : List ℕ
  pub copy_times : List ℕ
  pub unlock_times : List ℕ
  pub push_reserved : Bool

-- a lock, a critical section and an unlock, in nanoseconds
pub record Synchronization : Type 0 where
  pub lock : ℕ
  pub critical : ℕ
  pub unlock : ℕ

pub record SecondReconfigurationData : Type 0 where
  pub phantom : Bool
  pub cost_s : List Synchronization

pub data CostSState : Type 0 where
  not_reconfigured : CostSState
  reconfigured : CostSState
  triggered : CostSState

pub record Observer : Type 0 where
  pub times : List (ℕ × FirstReconfigurationData)
  pub cost_s : List (ℕ × SecondReconfigurationData)
  pub n_first_reconf : ℕ
  pub n_second_reconf : ℕ
  pub n_producers : ℕ
  pub n_consumers : ℕ
  pub reconfigured : Bool
  pub reconfigured_twice : Bool
  pub costs : Data
  pub producer_count : ℕ
  pub producer_count_second_phase : ℕ
  pub consumer_count : ℕ
  pub consumer_count_second_phase : ℕ

-- `std::map`: `find`, and a change of `map[key]`, which makes the entry if there is none
module _ {V : Type 0} where
  unfoldable pub find : ℕ → List (ℕ × V) → Option V
  find key [] = none
  find key ((j, v) ∷ m) = if j == key then some v else find key m

  unfoldable pub modify : ℕ → V → (V → V) → List (ℕ × V) → List (ℕ × V)
  modify key fresh change [] = (key, change fresh) ∷ []
  modify key fresh change ((j, v) ∷ m) =
      let rest = modify key fresh change m in
      if j == key
      then (j, change v) ∷ m
      else if ltb key j
      then (key, change fresh) ∷ (j, v) ∷ m
      else (j, v) ∷ rest

abbrev pub fresh_first : FirstReconfigurationData
fresh_first = record {
  producer = false;
  phantom = false;
  work_times = [];
  push_times = [];
  lock_times = [];
  copy_times = [];
  unlock_times = [];
  push_reserved = false;
}

abbrev pub fresh_second : SecondReconfigurationData
fresh_second = record { phantom = false; cost_s = [] }

-- The fields of `Data` that the class does not initialise hold what the memory held.
unfoldable pub construct : Data → ℕ → Observer
construct memory iter = record {
  times = [];
  cost_s = [];
  n_first_reconf = 0;
  n_second_reconf = 0;
  n_producers = 0;
  n_consumers = 0;
  reconfigured = false;
  reconfigured_twice = false;
  costs = record {
    cost_p = 0;
    cost_wl = 0;
    cost_cc = 0;
    cost_u = 0;
    iter = iter;
    producers_avg = 0;
    consumers_avg = 0;
    prod_cons = memory.prod_cons;
    prod_prod = memory.prod_prod;
    first_prod_step = 0;
    first_cons_step = 0;
    second_prod_step = 0;
    second_cons_step = 0;
    first_prod_step_eff = 0;
    first_cons_step_eff = 0;
    second_prod_step_eff = 0;
    second_cons_step_eff = 0;
  };
  producer_count = 0;
  producer_count_second_phase = 0;
  consumer_count = 0;
  consumer_count_second_phase = 0;
}

unfoldable pub delayed_init : Observer → ℕ → Observer
delayed_init o iter = record o { costs = record o.costs { iter = iter } }

abbrev pub set_kind : Bool → Bool → FirstReconfigurationData → FirstReconfigurationData
set_kind producer phantom d = record d { producer = producer; phantom = phantom }

abbrev pub set_phantom : Bool → SecondReconfigurationData → SecondReconfigurationData
set_phantom phantom d = record d { phantom = phantom }

unfoldable pub add_producer : Observer → ℕ → Observer
add_producer o view = record o {
  times = modify view fresh_first (set_kind true false) o.times;
  n_producers = (o.n_producers + 1) % 2 ^ 32;
  cost_s = modify view fresh_second (set_phantom false) o.cost_s;
}

unfoldable pub add_consumer : Observer → ℕ → Observer
add_consumer o view = record o {
  times = modify view fresh_first (set_kind false false) o.times;
  n_consumers = (o.n_consumers + 1) % 2 ^ 32;
}

unfoldable pub add_phantom_producer : Observer → ℕ → Observer
add_phantom_producer o view = record o {
  times = modify view fresh_first (set_kind true true) o.times;
  cost_s = modify view fresh_second (set_phantom true) o.cost_s;
}

unfoldable pub add_phantom_consumer : Observer → ℕ → Observer
add_phantom_consumer o view = record o {
  times = modify view fresh_first (set_kind false true) o.times;
}

-- `reserve` makes the capacity of an empty vector positive unless it asks for none
unfoldable pub reserve_all :
    ℕ → List (ℕ × FirstReconfigurationData) → Result (List (ℕ × FirstReconfigurationData))
reserve_all reserved [] = done []
reserve_all reserved ((view, d) ∷ m) =
    let rest = reserve_all reserved m in
    if d.producer && d.push_reserved
    then fault already_reserved
    else rest >>= λ m'.
        done ((view, (if d.producer then record d { push_reserved = ltb 0 reserved } else d)) ∷ m')

unfoldable pub set_first_reconfiguration_n : Observer → ℕ → Result Observer
unfolding reserve_all
set_first_reconfiguration_n o n = reserve_all (n * 2 * o.n_producers % 2 ^ 32) o.times >>= λ times.
    done (record o { times = times; n_first_reconf = n })

unfoldable pub set_second_reconfiguration_n : Observer → ℕ → Observer
set_second_reconfiguration_n o n = record o { n_second_reconf = n }

unfoldable pub get_max_producers_operations_first_phase : Observer → ℕ
get_max_producers_operations_first_phase o = o.n_first_reconf * 2 * o.n_producers % 2 ^ 32

unfoldable pub get_max_consumers_operations_first_phase : Observer → ℕ
get_max_consumers_operations_first_phase o = o.n_first_reconf * o.n_consumers % 2 ^ 32

unfoldable pub get_max_producers_operations_second_phase : Observer → ℕ
get_max_producers_operations_second_phase o = o.n_second_reconf * 2 * o.n_producers % 2 ^ 32

-- `fetch_add(1)`, which returns the value before
unfoldable pub get_add_producers_operations_first_phase : Observer → ℕ × Observer
get_add_producers_operations_first_phase o =
    (o.producer_count, record o { producer_count = (o.producer_count + 1) % 2 ^ 32 })

unfoldable pub get_add_consumers_operations_first_phase : Observer → ℕ × Observer
get_add_consumers_operations_first_phase o =
    (o.consumer_count, record o { consumer_count = (o.consumer_count + 1) % 2 ^ 32 })

unfoldable pub get_add_producers_operations_second_phase : Observer → ℕ × Observer
get_add_producers_operations_second_phase o = (
  o.producer_count_second_phase,
  record o { producer_count_second_phase = (o.producer_count_second_phase + 1) % 2 ^ 32 },
)
