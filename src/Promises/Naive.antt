-- ===== src/Promises/Naive.antt =====
-- The promises of src/promises/naive_promise.h: a flag for each value. The active and the passive
-- class differ in how they wait only. `debug` says that NDEBUG is not defined.
use npb_sync.Prelude.{
  ◌==◌, ℕ, ◌≡◌, Bool, true, false, ◌&&◌, Option, none, some, arith, if◌then◌else◌,
}
use npb_sync.Memory.{Memory, store}
use npb_sync.NaiveQueue.Master.{Attempt, waits, returned}

pub record NaivePromise {ℓ} (A : Type ℓ) : Type ℓ where
  pub values : Memory A
  pub ready : ℕ → Bool

module _ {ℓ} {A : Type ℓ} where
  unfoldable pub new_naive : Memory A → NaivePromise A
  new_naive values = record { values = values; ready = λ index. false }

  unfoldable pub naive_ready : NaivePromise A → ℕ → Bool
  naive_ready p index = p.ready index

  -- One test of the flag in `get`.
  unfoldable pub get_naive : NaivePromise A → ℕ → Attempt A
  unfolding naive_ready
  get_naive p index = if naive_ready p index then returned (p.values index) else waits

  -- `none`: the assertion that the promise is free fails
  unfoldable pub set_maybe_check : Bool → NaivePromise A → ℕ → A → Bool → Option (NaivePromise A)
  unfolding naive_ready
  set_maybe_check debug p index value check =
      if check && debug && naive_ready p index
      then none
      else some (record { values = store p.values index value; ready = store p.ready index true })

  unfoldable pub set_naive : Bool → NaivePromise A → ℕ → A → Option (NaivePromise A)
  unfolding set_maybe_check
  set_naive debug p index value = set_maybe_check debug p index value true

  unfoldable pub set_immediate_naive : Bool → NaivePromise A → ℕ → A → Option (NaivePromise A)
  unfolding set_maybe_check
  set_immediate_naive debug p index value = set_maybe_check debug p index value false

module _ {A : Type 0} where
  -- A promise that is free is fulfilled by `set`: `get` of its index returns the value from then
  -- on, every other index is as before, and in a debug build a second `set` stops the program.
  pub set_naive_lem :
      (debug : Bool) (p : NaivePromise A) (index : ℕ) (value : A)
      → naive_ready p index ≡ false
      → (p' : NaivePromise A) × (set_naive debug p index value ≡ some p')
        × (get_naive p' index ≡ returned value)
        × ((other : ℕ)
            → get_naive p' other ≡ (if other == index then returned value else get_naive p other))
        × ((again : A) → set_naive true p' index again ≡ none)
  unfolding set_naive get_naive naive_ready set_maybe_check
  set_naive_lem debug p index value free = (
    record { values = store p.values index value; ready = store p.ready index true },
    ground arith,
    ground arith,
    λ other. ground arith,
    λ again. ground arith,
  )
