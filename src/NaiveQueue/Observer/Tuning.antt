-- ===== src/NaiveQueue/Observer/Tuning.antt =====
-- What the steps computed by `Observer<T>::compute_steps` in src/naive_queue.tpp are, and what
-- becomes of them: `trigger_reconfigure` announces them to the registered views.
use native.Mathlib.Nat.{
  mul-le-mul, mul-le-mul_right, le-div_iff_mul-le, div-lt_iff_lt-mul, div-le_self, le_refl,
}
use npb_sync.Prelude.{
  ℕ, ◌+◌, ◌-◌, ◌*◌, ◌/◌, ◌%◌, ◌^◌, ◌≤◌, ◌<◌, ◌≡◌, refl, false, ◌⊎◌, inl, inr, ltb, ◌==◌, Bool-cases,
  arith,
}
use npb_sync.NaiveQueue.Observer.{done, Observer}
use npb_sync.NaiveQueue.Observer.Averages.{Floats, IsAccurate}
use npb_sync.NaiveQueue.Observer.Steps.{div_u64, side_steps, compute_steps}

-- the cost of one more element in a step, for `n` threads with `others` on the other side
abbrev pub down : ℕ → ℕ → ℕ → ℕ → ℕ
down others n work cost_p =
    (n * work + n * cost_p) / others + 2 * (n * cost_p - cost_p + n * cost_p)

-- `s` is the largest step whose square times `d` is at most `up`
abbrev pub IsLargest : ℕ → ℕ → ℕ → Type 0
IsLargest d up s = (s * s * d ≤ up) × (up < (s + 1) * (s + 1) * d)

-- At most 64 threads on each side, and durations that keep all products within their words.
pub record IsModerate (o : Observer) (producer_avg consumer_avg cost_s : ℕ) : Type 0 where
  pub some_producers : (0 < o.n_producers) × (o.n_producers ≤ 64)
  pub some_consumers : (0 < o.n_consumers) × (o.n_consumers ≤ 64)
  pub push_cost : (0 < o.costs.cost_p) × (o.costs.cost_p < 2 ^ 32)
  pub producer_small : producer_avg < 2 ^ 32
  pub consumer_small : consumer_avg < 2 ^ 32
  pub total_cost : o.costs.iter * cost_s < 2 ^ 52

small_root : (s q : ℕ) → s * s ≤ q → q < 2 ^ 52 → s < 2 ^ 26
small_root s q h h' = elim (Bool-cases (ltb s (2 ^ 26))) [
  | inl e ↦ ground arith
  | inr e ↦ let big : 2 ^ 26 ≤ s = ground arith in absurd (omega (arith, mul-le-mul big big))
]

-- what `compute_steps` gives: the step of the producers and that of the consumers
abbrev pub AreSteps : Observer → ℕ → ℕ → ℕ → ℕ → ℕ → Type 0
AreSteps o producer_avg consumer_avg cost_s prod_step cons_step =
    (o.n_producers * consumer_avg < o.n_consumers * producer_avg)
      × IsLargest (down o.n_consumers o.n_producers consumer_avg o.costs.cost_p)
          (o.costs.iter * cost_s) prod_step
      × (cons_step ≡ prod_step * o.n_producers / o.n_consumers)
    ⊎ (o.n_consumers * producer_avg ≤ o.n_producers * consumer_avg)
      × IsLargest (down o.n_producers o.n_consumers producer_avg o.costs.cost_p)
          (o.costs.iter * cost_s) cons_step
      × (prod_step ≡ cons_step * o.n_consumers / o.n_producers)

module _ (fl : Floats) (accurate : IsAccurate fl) where
  side_steps_lem :
      (others n work cost_p up : ℕ)
      → (0 < others) × (others ≤ 64)
      → (0 < n) × (n ≤ 64)
      → work < 2 ^ 32
      → (0 < cost_p) × (cost_p < 2 ^ 32)
      → up < 2 ^ 52
      → (s : ℕ) × (side_steps fl others n work cost_p up ≡ done (s, s * n / others))
        × IsLargest (down others n work cost_p) up s
  unfolding side_steps div_u64
  side_steps_lem others n work cost_p up ho hn hw hc hu =
      let a_small : n * work ≤ 64 * work = mul-le-mul_right work hn.1 in
      let b_small : n * cost_p ≤ 64 * cost_p = mul-le-mul_right cost_p hn.1 in
      let b_large : 1 * cost_p ≤ n * cost_p = mul-le-mul_right cost_p hn.0 in
      let left : (n * work % 2 ^ 64 + n * cost_p % 2 ^ 64) % 2 ^ 64 ≡ n * work + n * cost_p =
        omega arith in
      let right : 2 * ((n * cost_p % 2 ^ 64 + 2 ^ 64 - cost_p) + n * cost_p) % 2 ^ 64
          ≡ 2 * (n * cost_p - cost_p + n * cost_p) =
        omega arith in
      let part = div-le_self (n * work + n * cost_p) others in
      let d = down others n work cost_p in
      let whole : d % 2 ^ 64 ≡ d = omega (arith, part) in
      let d_pos : 0 < d = omega arith in
      let q = up / d in
      let q_small : q < 2 ^ 52 = omega (arith, div-le_self up d) in
      let s = fl.sqrt q in
      let s_small = small_root s q (accurate.root q q_small) q_small in
      let product : s * n ≤ s * 64 = mul-le-mul (le_refl s) hn.1 in
      let step : s % 2 ^ 32 ≡ s = omega arith in
      let steps : s * n % 2 ^ 32 ≡ s * n = omega arith in
      let others_pos : (others == 0) ≡ false = ground arith in
      let d_nonzero : (d == 0) ≡ false = ground arith in
      (
        s,
        rw (left, right, others_pos, whole, d_nonzero, step, steps) refl,
        (
          (le-div_iff_mul-le d_pos).0 (accurate.root q q_small),
          (div-lt_iff_lt-mul d_pos).0 (accurate.root_up q q_small),
        ),
      )

  -- With moderate numbers of threads and durations `compute_steps` divides by no zero. If the
  -- consumers are faster, the producers get the largest step whose square times the cost of one
  -- more element does not exceed the cost of all synchronisations, and the consumers get the step
  -- in the ratio of the numbers of threads; else it is the other way round.
  pub compute_steps_lem :
      (o : Observer) (producer_avg consumer_avg cost_s : ℕ)
      → IsModerate o producer_avg consumer_avg cost_s
      → (prod_step : ℕ) × (cons_step : ℕ) × (compute_steps fl o producer_avg consumer_avg cost_s
          ≡ done (prod_step, cons_step))
        × AreSteps o producer_avg consumer_avg cost_s prod_step cons_step
  unfolding compute_steps
  compute_steps_lem o p c cost_s m =
      let pc_small : o.n_consumers * p ≤ 64 * p = mul-le-mul_right p m.some_consumers.1 in
      let cp_small : o.n_producers * c ≤ 64 * c = mul-le-mul_right c m.some_producers.1 in
      let pc : o.n_consumers * p % 2 ^ 64 ≡ o.n_consumers * p = omega (arith, m.producer_small) in
      let cp : o.n_producers * c % 2 ^ 64 ≡ o.n_producers * c = omega (arith, m.consumer_small) in
      let up : o.costs.iter * cost_s % 2 ^ 64 ≡ o.costs.iter * cost_s =
        omega (arith, m.total_cost) in
      elim (Bool-cases (ltb (o.n_producers * c) (o.n_consumers * p))) [
        | inl e ↦
            let (s, eq, largest) =
              side_steps_lem o.n_consumers o.n_producers c o.costs.cost_p (o.costs.iter * cost_s)
                m.some_consumers m.some_producers m.consumer_small m.push_cost m.total_cost in
            (
              s,
              s * o.n_producers / o.n_consumers,
              rw (pc, cp, up, e) eq,
              inl (ground arith, largest, refl),
            )
        | inr e ↦
            let (s, eq, largest) =
              side_steps_lem o.n_producers o.n_consumers p o.costs.cost_p (o.costs.iter * cost_s)
                m.some_producers m.some_consumers m.producer_small m.push_cost m.total_cost in
            (
              s * o.n_consumers / o.n_producers,
              s,
              rw (pc, cp, up, e, eq) refl,
              inr (ground arith, largest, refl),
            )
      ]
