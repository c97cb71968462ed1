-- ===== src/Promises/StaticStep.antt =====
-- The promises of src/promises/static_step_promise.h: the consumers see the values in blocks of a
-- fixed step. The class with values and the one for `void` do the same to the marks.
-- `none` in place of a value or a promise is a failed assertion, or an access outside of the vector.
-- `debug` says that NDEBUG is not defined, so that a promise fulfilled twice stops the program.
pub mod Blocks
use npb_sync.Prelude.{
  not, ◌||◌, ℕ, zero, suc, ◌+◌, Bool, false, ◌&&◌, Option, none, some, ltb, ◌==◌, if◌then◌else◌,
}
use npb_sync.Memory.{Memory, store}
use npb_sync.NaiveQueue.Master.{Attempt, waits, returned}
use npb_sync.Promises.{far_enough}

-- `strong` is `_current_index_strong`, `current` the producer's `_current_index` and `weak` has a
-- copy of `strong` for each thread, `_current_index_weak`; all are increased by one.
pub record StaticPromise {ℓ} (A : Type ℓ) : Type ℓ where
  pub nb_values : ℕ
  pub values : Memory A
  pub step : ℕ
  pub strong : ℕ
  pub current : ℕ
  pub weak : ℕ → ℕ

module _ {ℓ} {A : Type ℓ} where
  -- `_values[index]`, and the assignment to it
  unfoldable pub value_at : StaticPromise A → ℕ → Option A
  value_at p index = if ltb index p.nb_values then some (p.values index) else none

  unfoldable pub assign_value : StaticPromise A → ℕ → A → Option (StaticPromise A)
  assign_value p index value =
      if ltb index p.nb_values
      then some (record p { values = store p.values index value })
      else none

  -- `new_promise`, with the memory of the vector; the constructor asserts that the step is not 0
  unfoldable pub new_promise : Memory A → ℕ → ℕ → Option (StaticPromise A)
  new_promise values nb_values zero = none
  new_promise values nb_values (suc n) = some (record {
    nb_values = nb_values;
    values = values;
    step = suc n;
    strong = 0;
    current = 0;
    weak = λ thread. 0;
  })

  unfoldable pub ready_index_strong : StaticPromise A → ℕ → Bool
  ready_index_strong p index = ltb index p.strong

  unfoldable pub ready_index_weak : StaticPromise A → ℕ → ℕ → Bool
  ready_index_weak p thread index = ltb index (p.weak thread)

  -- whether the assertion passes
  unfoldable pub assert_free_index_weak : Bool → StaticPromise A → ℕ → ℕ → Bool
  unfolding ready_index_weak
  assert_free_index_weak debug p thread index = not (debug && ready_index_weak p thread index)

  unfoldable pub publish : StaticPromise A → ℕ → StaticPromise A
  publish p index = record p { strong = index + 1; current = index + 1 }

  -- `set` of `ActiveStaticStepPromise`, by the thread `thread`
  unfoldable pub set_active : Bool → StaticPromise A → ℕ → ℕ → A → Option (StaticPromise A)
  unfolding publish assign_value
  set_active debug p thread index value =
      if assert_free_index_weak debug p thread index
      then elim (assign_value p index value) [
        | none ↦ none
        | some p' ↦
            if p.step == 1 || far_enough index p.current p.step
            then some (publish p' index)
            else some p'
      ]
      else none

  -- `set_immediate`, the overload for a value that is copied
  unfoldable pub set_immediate_active :
      Bool → StaticPromise A → ℕ → ℕ → A → Option (StaticPromise A)
  unfolding publish assign_value
  set_immediate_active debug p thread index value =
      if assert_free_index_weak debug p thread index
      then elim (assign_value p index value) [ none ↦ none | some p' ↦ some (publish p' index) ]
      else none

  -- `set_immediate`, the overload for a value that is moved: `_current_index` is not assigned
  unfoldable pub set_immediate_active_moved :
      Bool → StaticPromise A → ℕ → ℕ → A → Option (StaticPromise A)
  unfolding assign_value
  set_immediate_active_moved debug p thread index value =
      if assert_free_index_weak debug p thread index
      then elim (assign_value p index value) [
        | none ↦ none
        | some p' ↦ some (record p' { strong = index + 1 })
      ]
      else none

  -- One test of `strong` in `get`, and the copy for the thread that follows the last one. A thread
  -- that does not wait reads the value.
  unfoldable pub get_active : StaticPromise A → ℕ → ℕ → Attempt (Option A × StaticPromise A)
  unfolding ready_index_weak value_at
  get_active p thread index =
      if ready_index_weak p thread index
      then returned (value_at p index, p)
      else if ltb index p.strong
      then returned (value_at p index, record p { weak = store p.weak thread p.strong })
      else waits

  -- `set` of `PassiveStaticStepPromise<void>`, with the values kept beside it
  unfoldable pub set_passive_void : Bool → StaticPromise A → ℕ → ℕ → Option (StaticPromise A)
  set_passive_void debug p thread index =
      if assert_free_index_weak debug p thread index
      then (if p.step == 1 || far_enough index p.strong p.step
          then some (record p { strong = index + 1 })
          else some p)
      else none

  -- `set` of `PassiveStaticStepPromise<T>`: the difference is only tested against 0
  unfoldable pub set_passive : Bool → StaticPromise A → ℕ → ℕ → A → Option (StaticPromise A)
  unfolding assign_value
  set_passive debug p thread index value =
      if assert_free_index_weak debug p thread index
      then elim (assign_value p index value) [
        | none ↦ none
        | some p' ↦
            if index + 1 == p.strong then some p' else some (record p' { strong = index + 1 })
      ]
      else none

  unfoldable pub set_immediate_passive :
      Bool → StaticPromise A → ℕ → ℕ → A → Option (StaticPromise A)
  unfolding assign_value
  set_immediate_passive debug p thread index value =
      if assert_free_index_weak debug p thread index
      then elim (assign_value p index value) [
        | none ↦ none
        | some p' ↦ some (record p' { strong = index + 1 })
      ]
      else none

  -- `get` of `PassiveStaticStepPromise<T>`, which waits while the mark is above the index
  unfoldable pub get_passive : StaticPromise A → ℕ → ℕ → Attempt (Option A × StaticPromise A)
  unfolding value_at
  get_passive p thread index =
      if ready_index_weak p thread index
      then returned (value_at p index, p)
      else if ltb (index + 1) p.strong
      then waits
      else returned (value_at p index, record p { weak = store p.weak thread p.strong })

  -- The producer sets the first `n` values in order.
  unfoldable pub set_all : StaticPromise A → (ℕ → A) → ℕ → Option (StaticPromise A)
  set_all p value zero = some p
  set_all p value (suc n) = elim (set_all p value n) [
    | none ↦ none
    | some p' ↦ set_active false p' 0 n (value n)
  ]
