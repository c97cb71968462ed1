-- ===== src/NaiveQueue/Observer/TimedPush.antt =====
-- `timed_push` and `generic_push` of `NaiveQueueImpl<T>` in src/naive_queue.hpp: a push that measures
-- its synchronisation and reports it to the observer, until the observer needs no more of them.
use npb_sync.Prelude.{ℕ, ◌-◌, Bool, true, false, ◌==◌, if◌then◌else◌}
use npb_sync.Ring.{Ring}
use npb_sync.NaiveQueue.Local.{full_local}
use npb_sync.NaiveQueue.Master.{Master, Reply, Attempt, waits, returned}
use npb_sync.NaiveQueue.Client.{Impl, get_step, reconfigure, push_begin, push_end}
use npb_sync.NaiveQueue.Timed.{Readings, Costs, diff, enqueue}
use npb_sync.NaiveQueue.Observer.{
  zero_time, Result, done, fault, ◌>>=◌, CostSState, not_reconfigured, Observer, reconfigured,
  triggered,
}
use npb_sync.NaiveQueue.Observer.Averages.{Floats}
use npb_sync.NaiveQueue.Observer.Steps.{Views, change_view}
use npb_sync.NaiveQueue.Observer.Times.{
  add_producer_synchronization_time_first, add_producer_synchronization_time_second,
}

-- `_observer_fn` and `_need_observer_push` of a view
pub record Watch : Type 0 where
  pub second_phase : Bool
  pub need_observer_push : Bool

-- the queue, the views, the watch of the view that pushes, and the observer
pub record World (A : Type 0) : Type 0 where
  pub master : Master A
  pub views : Views A
  pub watch : Watch
  pub observer : Observer

abbrev pub fresh_watch : Watch
fresh_watch = record { second_phase = false; need_observer_push = true }

-- whether a push is still to be measured after the answer of the observer
abbrev pub after_answer : CostSState → Bool → Bool
after_answer not_reconfigured need = need
after_answer triggered need = false
after_answer reconfigured need = false

module _ {A : Type 0} where
  unfoldable pub add_observer_time_first_reconfiguration :
      Floats → ℕ → ℕ → Costs → World A → Result (World A)
  add_observer_time_first_reconfiguration fl view cost_p c w =
      add_producer_synchronization_time_first fl view cost_p
        (record { lock = c.lock; critical = c.critical; unlock = c.unlock }) w.observer w.views
      >>= λ r. done (record w {
        watch = record w.watch { need_observer_push = r.0 };
        observer = r.1;
        views = r.2;
      })

  unfoldable pub add_observer_time_second_reconfiguration :
      Floats → ℕ → ℕ → Costs → World A → Result (World A)
  add_observer_time_second_reconfiguration fl view cost_p c w =
      add_producer_synchronization_time_second fl view
        (record { lock = c.lock; critical = c.critical; unlock = c.unlock }) w.observer w.views
      >>= λ r. done (record w {
        watch = record w.watch { need_observer_push = after_answer r.0 w.watch.need_observer_push };
        observer = r.1;
        views = r.2;
      })

  -- `(this->*_observer_fn)(…)`
  unfoldable pub observe : Floats → ℕ → ℕ → Costs → World A → Result (World A)
  unfolding add_observer_time_first_reconfiguration add_observer_time_second_reconfiguration
  observe fl view cost_p c w =
      if w.watch.second_phase
      then add_observer_time_second_reconfiguration fl view cost_p c w
      else add_observer_time_first_reconfiguration fl view cost_p c w

  -- The second phase is entered when nothing is needed and the step has not yet been changed.
  unfoldable pub next_phase : ℕ → World A → World A
  next_phase view w =
      if w.watch.need_observer_push
      then w
      else if (w.views view).reconfigured
      then w
      else record w { watch = record { second_phase = true; need_observer_push = true } }

  unfoldable pub reconfigure_view : ℕ → World A → World A
  reconfigure_view view w = record w {
    views = change_view w.views view (reconfigure (w.views view));
  }

  -- `cost_p`, from the readings around `push_local`
  unfoldable pub measure_push : ℕ → ℕ → Impl A → ℕ
  measure_push begin end q = if q.ring.n_elements == get_step q - 1 then diff begin end else 0

  -- `timed_push` up to the test of `full`
  unfoldable pub timed_push_begin : ℕ → A → World A → World A
  timed_push_begin view v w = record w {
    views = change_view w.views view (push_begin (w.views view) v);
  }

  -- the full ring has been handed over
  unfoldable pub timed_push_handed :
      Floats
      → ℕ
      → ℕ
      → World A
      → Attempt ((Reply × Costs) × Master A × Ring A)
      → Attempt (Result (World A))
  unfolding reconfigure_view
  timed_push_handed fl view cost_p w waits = waits
  timed_push_handed fl view cost_p w (returned ((reply, c), m, r)) =
      let handed = record w {
        master = m;
        views = change_view w.views view (record (w.views view) { ring = r });
      } in
      returned (
        observe fl view cost_p c handed >>= λ w'. done (reconfigure_view view (next_phase view w')))

  -- The rest of `timed_push`, which may wait.
  unfoldable pub timed_push_end : Floats → ℕ → ℕ → Readings → World A → Attempt (Result (World A))
  unfolding timed_push_handed reconfigure_view
  timed_push_end fl view cost_p t w =
      let q = w.views view in
      if full_local q.ring
      then (if cost_p == 0
          then returned (fault zero_time)
          else timed_push_handed fl view cost_p w (enqueue t w.master q.ring (q.ring.size - 1)))
      else returned (done (reconfigure_view view w))

  -- `push` on the view of this thread
  unfoldable pub plain_push : ℕ → World A → Attempt (Master A × Impl A) → Attempt (Result (World A))
  plain_push view w waits = waits
  plain_push view w (returned (m, q)) =
      returned (done (record w { master = m; views = change_view w.views view q }))

  -- `generic_push` after the element has been added to the local ring, which both of its branches
  -- do first; `_need_observer_push` of the new state is what it returns
  unfoldable pub generic_push_end : Floats → ℕ → ℕ → Readings → World A → Attempt (Result (World A))
  unfolding timed_push_end plain_push
  generic_push_end fl view cost_p t w =
      if w.watch.need_observer_push
      then timed_push_end fl view cost_p t w
      else plain_push view w (push_end w.master (w.views view))
