-- ===== src/NaiveQueue/Observer/Phases/Reports.antt =====
-- Sequences of reports to an `Observer<T>` of src/naive_queue.tpp, and the two reconfigurations that
-- they trigger.
use npb_sync.Prelude.{ℕ, ◌+◌, ◌^◌, ◌<◌, ◌≡◌, false, List, [], ◌∷◌, length, arith}
use npb_sync.NaiveQueue.Observer.{Result, done, ◌>>=◌, Synchronization, Observer}
use npb_sync.NaiveQueue.Observer.Averages.{Floats}
use npb_sync.NaiveQueue.Observer.Steps.{Views}
use npb_sync.NaiveQueue.Observer.Times.{
  add_work_time, add_producer_synchronization_time_first, add_producer_synchronization_time_second,
}
use npb_sync.NaiveQueue.Observer.Phases.{
  Ensures, Ensures->>=, IsTracked, total, Next, work_lem, synchronization_lem, second_lem,
}

-- one report of a view
pub data Report : Type 0 where
  work : ℕ → ℕ → Report
  first : ℕ → ℕ → Synchronization → Report
  second : ℕ → Synchronization → Report

module _ {A : Type 0} where
  -- the call for a report; what it returns to the view is left out
  unfoldable pub report : Floats → Report → Observer → Views A → Result (Observer × Views A)
  report fl (work client time) o views =
      add_work_time fl client time o views >>= λ r. done (r.1, r.2)
  report fl (first producer push_time t) o views =
      add_producer_synchronization_time_first fl producer push_time t o views >>= λ r.
      done (r.1, r.2)
  report fl (second producer t) o views =
      add_producer_synchronization_time_second fl producer t o views >>= λ r. done (r.1, r.2)

  -- reports one after the other, from any views; between them other code may change the views
  unfoldable pub report_all :
      Floats
      → List (Report × (Views A → Views A))
      → Observer
      → Views A
      → Result (Observer × Views A)
  unfolding report
  report_all fl [] o views = done (o, views)
  report_all fl ((r, others) ∷ rs) o views =
      report fl r o (others views) >>= λ s. report_all fl rs s.0 s.1

  report_lem :
      (fl : Floats) (r : Report) (o : Observer) (views : Views A)
      → IsTracked o
      → total o + 1 < 2 ^ 32
      → Ensures (λ s. Next o s.0) (report fl r o views)
  unfolding report add_work_time add_producer_synchronization_time_first
      add_producer_synchronization_time_second
  report_lem fl (work client time) o views h spare =
      ground (arith, work_lem fl client time o views h spare)
  report_lem fl (first producer push_time t) o views h spare =
      ground (arith, synchronization_lem fl producer push_time t o views h spare)
  report_lem fl (second producer t) o views h spare =
      ground (arith, second_lem fl producer t o views h spare)

  reports_lem :
      (fl : Floats) (rs : List (Report × (Views A → Views A))) (o : Observer) (views : Views A)
      → IsTracked o
      → total o + length rs < 2 ^ 32
      → Ensures (λ s. IsTracked s.0) (report_all fl rs o views)
  unfolding report_all
  reports_lem fl [] o views h spare = h
  reports_lem fl ((r, others) ∷ rs) o views h spare =
      Ensures->>= (λ s. Next o s.0) (λ s. IsTracked s.0) (report fl r o (others views))
        (λ s. report_all fl rs s.0 s.1) (report_lem fl r o (others views) h (omega arith))
        λ s n. reports_lem fl rs s.0 s.1 n.0 (omega (arith, n.1))

  -- Fewer than 2 ^ 32 reports are made to an observer whose counters are 0, and no fault ends the
  -- program. Then the first reconfiguration has been triggered if both counters of the first phase
  -- have passed their limits, and only if both have reached them; the second one has been triggered
  -- exactly if the counter of the second phase has passed its limit.
  pub phases_lem :
      (fl : Floats) (rs : List (Report × (Views A → Views A))) (o : Observer) (views : Views A)
      → total o ≡ 0
      → o.reconfigured ≡ false
      → o.reconfigured_twice ≡ false
      → length rs < 2 ^ 32
      → Ensures (λ s. IsTracked s.0) (report_all fl rs o views)
  phases_lem fl rs o views none_made first_open second_open few =
      reports_lem fl rs o views
        (record {
          first_kept = λ h h'. absurd (omega arith);
          first_due = λ h. absurd (ground arith);
          second_kept = λ h. absurd (omega arith);
          second_due = λ h. absurd (ground arith);
        })
        (omega arith)
