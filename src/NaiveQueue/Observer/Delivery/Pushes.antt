-- ===== src/NaiveQueue/Observer/Delivery/Pushes.antt =====
-- `generic_push` of `NaiveQueueImpl<T>` in src/naive_queue.hpp, measured or not, against `push`.
use npb_sync.Prelude.{
  ℕ, ◌-◌, ◌<◌, ◌≡◌, refl, sym, true, false, ◌⊎◌, inl, inr, ◌==◌, Bool-cases, arith,
}
use npb_sync.Ring.{Ring, full, push}
use npb_sync.Ring.Fifo.{push-IsValid}
use npb_sync.NaiveQueue.Transfer.{n_elements-push, size-push}
use npb_sync.Ring.Shape.{full_iff}
use npb_sync.NaiveQueue.Local.{full_local, full_local-eq-full, push_local-eq-push}
use npb_sync.NaiveQueue.Master.{Master, Reply, Attempt, waits, returned, enqueue_no_timing}
use npb_sync.NaiveQueue.Client.{Impl, push_begin, push_handed, push_end, get_step}
use npb_sync.NaiveQueue.Timed.{Readings, Costs, enqueue, untimed, untimed_lem}
use npb_sync.NaiveQueue.Views.{IsSound, HasRoom}
use npb_sync.NaiveQueue.Observer.{Result, done}
use npb_sync.NaiveQueue.Observer.Averages.{Floats}
use npb_sync.NaiveQueue.Observer.Steps.{change_view}
use npb_sync.NaiveQueue.Observer.Phases.{Ensures, Ensures->>=}
use npb_sync.NaiveQueue.Observer.TimedPush.{
  World, observe, next_phase, reconfigure_view, measure_push, timed_push_handed, timed_push_end,
  plain_push, generic_push_end,
}
use npb_sync.NaiveQueue.Observer.Delivery.{SameView, SameViews, each_index, observe_lem}

module _ {A : Type 0} where
  -- What a push has done to the queue and to its own view is what `push` does from a view that
  -- differs in the announced step at most; the other views keep their elements.
  abbrev pub IsPush : ℕ → World A → World A → Type 0
  IsPush view w w' =
      (q : Impl A) × SameView (w.views view) q
      × (push_end w.master q ≡ returned (w'.master, w'.views view))
      × ((j : ℕ) → (view == j) ≡ false → SameView (w.views j) (w'.views j))

  abbrev pub Pushes : ℕ → World A → Attempt (Result (World A)) → Type 0
  Pushes view w waits = push_end w.master (w.views view) ≡ waits
  Pushes view w (returned r) = Ensures (IsPush view w) r

  -- the world in which the observer is called
  abbrev handed : ℕ → World A → Master A → Ring A → World A
  handed view w m r = record w {
    master = m;
    views = change_view w.views view (record (w.views view) { ring = r });
  }

  settled_lem :
      (view : ℕ) (w w' : World A) (reply : Reply) (m : Master A) (r : Ring A)
      → full_local (w.views view).ring ≡ true
      → enqueue_no_timing w.master (w.views view).ring ((w.views view).ring.size - 1)
        ≡ returned (reply, m, r)
      → w'.master ≡ m
      → SameViews (handed view w m r).views w'.views
      → IsPush view w (reconfigure_view view (next_phase view w'))
  unfolding push_end push_handed reconfigure_view next_phase
  settled_lem view w w' reply m r e h master same = (
    record (w.views view) {
      new_step = (w'.views view).new_step;
      need_reconfigure = (w'.views view).need_reconfigure;
    },
    refl,
    ground (arith, same view),
    λ j ne. ground (arith, same j),
  )

  handed_lem :
      (fl : Floats) (view cost_p : ℕ) (w : World A)
      (a : Attempt ((Reply × Costs) × Master A × Ring A))
      → full_local (w.views view).ring ≡ true
      → untimed a ≡ enqueue_no_timing w.master (w.views view).ring ((w.views view).ring.size - 1)
      → Pushes view w (timed_push_handed fl view cost_p w a)
  unfolding timed_push_handed untimed
  handed_lem fl view cost_p w waits e h = unfold push_end push_handed in rw (e, sym h) refl
  handed_lem fl view cost_p w (returned ((reply, c), m, r)) e h =
      let before = handed view w m r in
      Ensures->>= (λ w'. (j : ℕ) → (w'.master ≡ m) × SameView (before.views j) (w'.views j))
        (IsPush view w) (observe fl view cost_p c before)
        (λ w'. done (reconfigure_view view (next_phase view w')))
        (each_index (λ j w'. (w'.master ≡ m) × SameView (before.views j) (w'.views j))
          (observe fl view cost_p c before) λ j. observe_lem fl view cost_p c before j)
        λ w' same. settled_lem view w w' reply m r e (sym h) (same view).0 λ j. (same j).1

  plain_push_lem :
      (view : ℕ) (w : World A) (a : Attempt (Master A × Impl A))
      → push_end w.master (w.views view) ≡ a
      → Pushes view w (plain_push view w a)
  unfolding plain_push
  plain_push_lem view w waits e = e
  plain_push_lem view w (returned (m, q)) e = (w.views view, refl, ground arith, λ j ne. rw ne refl)

  roomy_lem :
      (view : ℕ) (w : World A)
      → full_local (w.views view).ring ≡ false
      → IsPush view w (reconfigure_view view w)
  unfolding reconfigure_view push_end
  roomy_lem view w e = (w.views view, refl, ground arith, λ j ne. rw ne refl)

  -- After its element has been added to the local ring, a push, measured or not, does to the queue,
  -- to its ring and to its view what `push` does from the same view, or from one that differs in
  -- the step announced by the observer; it waits exactly if `push` waits, and the other views
  -- change in their announced steps at most. So it is unless a fault ends the program.
  pub generic_push_lem :
      (fl : Floats) (view cost_p : ℕ) (t : Readings) (w : World A)
      → Pushes view w (generic_push_end fl view cost_p t w)
  unfolding generic_push_end timed_push_end
  generic_push_lem fl view cost_p t w =
      let q = w.views view in
      let a = enqueue t w.master q.ring (q.ring.size - 1) in
      ground (
        arith,
        plain_push_lem view w (push_end w.master q) refl,
        roomy_lem view w,
        handed_lem fl view cost_p w a,
        (untimed_lem t true w.master q (q.ring.size - 1)).1,
      )

  -- The assertion on the measured duration: a push into a sound view with room measures the time of
  -- `push_local` whenever the ring is full behind it, so that the duration is not 0 if the clock
  -- has gone on.
  pub measure_push_lem :
      (begin end : ℕ) (q : Impl A) (v : A)
      → IsSound q
      → HasRoom q
      → begin < end
      → (full_local (push_begin q v).ring ≡ false) ⊎ (0 < measure_push begin end q)
  unfolding measure_push get_step push_begin
  measure_push_lem begin end q v sound room later =
      let r = (push q.ring v).1 in
      let count = n_elements-push q.ring v sound.ring_valid room in
      let size = (size-push q.ring v).0 in
      elim (Bool-cases (full r)) [
        | inr e ↦ inl (rw (push_local-eq-push q.ring v, full_local-eq-full r) e)
        | inl e ↦
            let last : q.ring.n_elements ≡ q.ring.size - 1 - 1 =
              omega
                (arith, count, size, (full_iff r (push-IsValid q.ring v sound.ring_valid)).0 e) in
            inr (ground (arith, last))
      ]
