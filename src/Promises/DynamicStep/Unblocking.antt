-- ===== src/Promises/DynamicStep/Unblocking.antt =====
-- A change of the step of the promises in src/promises/dynamic_step_promise.h unblocks consumers.
use npb_sync.Prelude.{ℕ, ◌+◌, ◌^◌, ◌<◌, ◌≤◌, ◌≡◌, true, false, some, arith, Option-cases, inl, inr}
use npb_sync.Promises.DynamicStep.{
  DynamicPromise, set_current_index, set_no_timer, set_immediate_no_timer, set_step,
}

module _ {A : Type 0} where
  -- Of the values that are set, fewer than one step are hidden from the consumers.
  pub record IsFresh (p : DynamicPromise A) : Type 0 where
    pub unblocking : p.unblocks ≡ true
    pub some_values : 0 < p.n_values
    pub small : p.n_values < 2 ^ 31
    pub in_range : p.current ≤ p.n_values
    pub order : p.last_strong ≤ p.current
    pub positive : 0 < p.step
    pub hidden : p.current < p.last_strong + p.step

  pub set-IsFresh :
      (p : DynamicPromise A) (value : A)
      → p.current < p.n_values
      → IsFresh p
      → IsFresh (set_no_timer p p.current value)
  unfolding set_no_timer set_current_index
  set-IsFresh p value room h = ground (arith, room, h)

  pub set_immediate-IsFresh :
      (p : DynamicPromise A) (value : A)
      → p.current < p.n_values
      → IsFresh p
      → IsFresh (set_immediate_no_timer p p.current value)
  unfolding set_immediate_no_timer set_current_index
  set_immediate-IsFresh p value room h = ground (arith, room, h)

  -- In a mode in which the step may be changed and a change unblocks consumers: if fewer values than
  -- a step are set and hidden from the consumers, `set_step` to any step does not throw, and after
  -- it again fewer values than the step that it has come to are hidden.
  pub set_step-IsFresh :
      (p : DynamicPromise A) (new_step : ℕ)
      → p.never ≡ false
      → IsFresh p
      → (p' : DynamicPromise A) × (set_step p new_step ≡ some p') × IsFresh p'
  unfolding set_step
  set_step-IsFresh p new_step mode h = elim (Option-cases (set_step p new_step)) [
    | inl e ↦ absurd (ground (arith, mode, e))
    | inr (p', e) ↦ (p', e, ground (arith, mode, e, h))
  ]
