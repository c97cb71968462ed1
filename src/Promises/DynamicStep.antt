-- ===== src/Promises/DynamicStep.antt =====
-- The promises of src/promises/dynamic_step_promise.h: the step of the blocks that the consumers see
-- may change. The mode is a template parameter; `unblocks` and `never` are what the code asks of it.
-- The mode also selects memory orders, a mutex around `set_step` and the autotuning by a timer,
-- which calls `set_step` first and is modelled by that call.
pub mod Unblocking
use npb_sync.Prelude.{
  ℕ, ◌+◌, ◌-◌, ◌%◌, ◌^◌, Bool, Option, none, some, ltb, leb, ◌==◌, if◌then◌else◌,
}
use npb_sync.Memory.{Memory, store}
use npb_sync.NaiveQueue.Master.{Attempt, waits, returned}
use npb_sync.Promises.{far_enough}

-- `last_strong` is `_last_unblock_index_strong`, `last_weak` its copies for the threads and
-- `current` is `_current_index`, all increased by one.
pub record DynamicPromise {ℓ} (A : Type ℓ) : Type ℓ where
  pub values : Memory A
  pub n_values : ℕ
  pub unblocks : Bool
  pub never : Bool
  pub last_strong : ℕ
  pub last_weak : ℕ → ℕ
  pub current : ℕ
  pub step : ℕ

-- the step that `set_step` comes to: at least 1, then at most the number of values
abbrev pub clamped : ℕ → ℕ → ℕ
clamped n_values new_step =
    let new_step' = if new_step == 0 then 1 else new_step in
    if leb n_values new_step' then n_values else new_step'

-- `_current_index - _last_unblock_index_strong >= new_step`, two `int`s against an `unsigned`
abbrev pub behind : ℕ → ℕ → ℕ → Bool
behind current last new_step = leb new_step ((current + (2 ^ 32 - last)) % 2 ^ 32)

module _ {ℓ} {A : Type ℓ} where
  unfoldable pub new_dynamic : Memory A → ℕ → Bool → Bool → ℕ → DynamicPromise A
  new_dynamic values n_values unblocks never start_step = record {
    values = values;
    n_values = n_values;
    unblocks = unblocks;
    never = never;
    last_strong = 0;
    last_weak = λ thread. 0;
    current = 0;
    step = start_step;
  }

  -- One round of `get`: each test of the loop assigns the copy of the thread.
  unfoldable pub get_dynamic : DynamicPromise A → ℕ → ℕ → Attempt A × DynamicPromise A
  get_dynamic p thread index =
      let p' = record p { last_weak = store p.last_weak thread p.last_strong } in
      if ltb index (p.last_weak thread)
      then (returned (p.values index), p)
      else if ltb index p.last_strong
      then (returned (p.values index), p')
      else (waits, p')

  unfoldable pub set_current_index : DynamicPromise A → ℕ → DynamicPromise A
  set_current_index p index = if p.unblocks then record p { current = index + 1 } else p

  unfoldable pub set_no_timer : DynamicPromise A → ℕ → A → DynamicPromise A
  unfolding set_current_index
  set_no_timer p index value =
      let p' = set_current_index (record p { values = store p.values index value }) index in
      if far_enough index p'.last_strong p'.step then record p' { last_strong = index + 1 } else p'

  unfoldable pub set_immediate_no_timer : DynamicPromise A → ℕ → A → DynamicPromise A
  unfolding set_current_index
  set_immediate_no_timer p index value =
      let p' = set_current_index (record p { values = store p.values index value }) index in
      record p' { last_strong = index + 1 }

  -- `none`: the mode is SET_STEP_NEVER and the call throws
  unfoldable pub set_step : DynamicPromise A → ℕ → Option (DynamicPromise A)
  set_step p new_step =
      let s = clamped p.n_values new_step in
      let caught_up =
        if p.unblocks
        then (if ltb s p.step
            then (if behind p.current p.last_strong s
                then record p { last_strong = p.current }
                else p)
            else p)
        else p in
      if p.never then none else if s == p.step then some p else some (record caught_up { step = s })
