-- ===== src/Promises/StaticStep/Blocks.antt =====
-- What a producer that fulfils the promises of src/promises/static_step_promise.h in order makes
-- visible, and when.
use native.Mathlib.Nat.{suc-mul}
use npb_sync.Prelude.{
  ℕ, zero, suc, ◌+◌, ◌*◌, ◌^◌, ◌<◌, ◌≤◌, ◌≡◌, refl, false, Option, some, arith, dec_le,
}
use npb_sync.Memory.{Memory, store}
use npb_sync.NaiveQueue.Master.{returned}
use npb_sync.Promises.StaticStep.{
  assert_free_index_weak, StaticPromise, new_promise, publish, set_active, value_at, assign_value,
  get_active, set_all, ready_index_weak,
}

module _ {A : Type 0} where
  -- What holds after the first `n` values have been set.
  pub record HasSet (value : ℕ → A) (size step n : ℕ) (p : StaticPromise A) : Type 0 where
    pub size_same : p.nb_values ≡ size
    pub inside : n ≤ size
    pub step_same : p.step ≡ step
    pub stored : (i : ℕ) → i < n → p.values i ≡ value i
    pub marks : p.strong ≡ p.current
    pub blocks : ℕ
    pub whole : p.strong ≡ blocks * step
    pub below : p.strong ≤ n
    pub close : n < p.strong + step
    pub copied : (thread : ℕ) → p.weak thread ≤ p.strong

  pub set-HasSet :
      (value : ℕ → A) (size step n : ℕ) (p : StaticPromise A)
      → 0 < step
      → n + 1 < 2 ^ 31
      → n < size
      → HasSet value size step n p
      → (p' : StaticPromise A) × (set_active false p 0 n (value n) ≡ some p')
        × HasSet value size step (suc n) p'
  unfolding set_active publish assert_free_index_weak assign_value
  set-HasSet value size step n p pos bound inside h =
      let stored' : (i : ℕ) → i < suc n → store p.values n (value n) i ≡ value i =
        λ i q. ground (arith, h.stored i) in
      elim (dec_le (p.strong + step) (n + 1)) [
        | yes full ↦ (
          publish (record p { values = store p.values n (value n) }) n,
          ground (arith, full, h.size_same),
          record {
            size_same = h.size_same;
            inside = omega arith;
            step_same = h.step_same;
            stored = stored';
            marks = refl;
            blocks = suc h.blocks;
            whole = omega (arith, suc-mul h.blocks step, h.whole);
            below = omega arith;
            close = omega arith;
            copied = λ t. omega (arith, h.copied t, h.below);
          },
        )
        | no more ↦ (
          record p { values = store p.values n (value n) },
          ground (arith, more, h.size_same),
          record {
            size_same = h.size_same;
            inside = omega arith;
            step_same = h.step_same;
            stored = stored';
            marks = h.marks;
            blocks = h.blocks;
            whole = h.whole;
            below = omega arith;
            close = omega arith;
            copied = λ t. omega (arith, h.copied t, h.below);
          },
        )
      ]

  -- For a step that is not 0, a vector of `size` values and `n` at most `size` and below 2^31: `new_promise` and the first `n` calls of `set` in
  -- order succeed, the first `n` values are stored, and the consumers may see all full blocks of
  -- `step` values: a multiple of the step, at most `n` and more than `n - step`.
  pub set_all_lem :
      (memory : Memory A) (value : ℕ → A) (size step n : ℕ)
      → 0 < step
      → n < 2 ^ 31
      → n ≤ size
      → (p : StaticPromise A) × (p' : StaticPromise A) × (new_promise memory size step ≡ some p)
        × (set_all p value n ≡ some p')
        × HasSet value size step n p'
  unfolding new_promise set_all
  set_all_lem memory value size zero n pos bound inside = elim pos [ ]
  set_all_lem memory value size (suc s) zero pos bound inside = (
    record {
      nb_values = size;
      values = memory;
      step = suc s;
      strong = 0;
      current = 0;
      weak = λ thread. 0;
    },
    _,
    refl,
    refl,
    record {
      size_same = refl;
      inside = inside;
      step_same = refl;
      stored = λ i q. elim q [ ];
      marks = refl;
      blocks = 0;
      whole = omega arith;
      below = omega arith;
      close = omega arith;
      copied = λ t. omega arith;
    },
  )
  set_all_lem memory value size (suc s) (suc n) pos bound inside =
      let (p, p', made, done, h) =
        set_all_lem memory value size (suc s) n pos (omega arith) (omega arith) in
      let (p'', e, h') = set-HasSet value size (suc s) n p' pos (omega arith) (omega arith) h in
      (p, p'', made, rw (done, e) refl, h')

  -- After the first `n` values have been set in order in a vector of at least as many, a consumer that does not wait in `get` asks
  -- for one of them and gets the value that was set, and the state that `get` leaves is again one
  -- after `n` values.
  pub get_active_lem :
      (value : ℕ → A) (size step n : ℕ) (p : StaticPromise A) (thread index : ℕ)
      → HasSet value size step n p
      → (v : Option A) (p' : StaticPromise A) → get_active p thread index ≡ returned (v, p')
      → (index < n) × (v ≡ some (value index)) × HasSet value size step n p'
  unfolding get_active ready_index_weak value_at
  get_active_lem value size step n p thread index h v p' e =
      let kept : HasSet value size step n (record p { weak = store p.weak thread p.strong }) =
        record {
          size_same = h.size_same;
          inside = h.inside;
          step_same = h.step_same;
          stored = h.stored;
          marks = h.marks;
          blocks = h.blocks;
          whole = h.whole;
          below = h.below;
          close = h.close;
          copied = λ t. ground (arith, h.copied t);
        } in
      ground (arith, h.copied thread, h.stored index, h.below, h.size_same, h.inside, h, kept)
