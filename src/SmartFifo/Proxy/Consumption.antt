-- ===== src/SmartFifo/Proxy/Consumption.antt =====
-- What `pop` of `SmartFIFO<T>` in src/smart_fifo.h returns: the first of the elements that the
-- consumer has taken or that the chain holds.
use npb_sync.Prelude.{
  ℕ, ◌<◌, ◌≡◌, ◌≢◌, refl, ap, ap₂, sym, ◌∙◌, Bool, true, false, Option, none, some, List, [], ◌∷◌,
  ◌++◌, arith, if◌then◌else◌, length, concat, drop, take-append-drop, inl, inr,
}
use npb_sync.NaiveQueue.Master.{Attempt, waits, returned}
use npb_sync.SmartFifo.Semaphore.{wait, timed_out}
use npb_sync.SmartFifo.Chain.{Fifo, terminated_fifo, pop_fifo}
use npb_sync.SmartFifo.Chain.Order.{
  elements, FifoPopped, must_wait, given_up, at_end, taken, pop_fifo_lem,
}
use npb_sync.SmartFifo.Elements.{
  Elements, set_ranges, empty_elements, next, cell, remaining, remaining_from, IsReady, next_lem,
  has_next_lem, set_ranges_lem,
}
use npb_sync.SmartFifo.Proxy.{
  Proxy, reconfigure_step_pop, refilled, prepare_elements, take_prepared, pop_proxy,
}

module _ {A : Type 0} where
  -- what a consumer has taken and not yet returned, and what it finds in the chain
  unfoldable pub to_come : Proxy A → Fifo A → List A
  to_come p f = remaining p.elements ++ elements f.chunks

  -- What one attempt of `pop` does: it waits, it begins again without a timeout, it returns no
  -- element, or it returns one.
  pub data ProxyPopped (expired : Bool) (p : Proxy A) (f : Fifo A)
      : Attempt (Option (Option A × Bool × ℕ)) → Proxy A → Fifo A → Type 0 where
    pop_waits :
        {p' : Proxy A} {f' : Fifo A}
        → to_come p f ≡ []
        → terminated_fifo f ≡ false
        → to_come p' f' ≡ []
        → (wait f.sem p.step expired).0 ≢ timed_out
        → ProxyPopped expired p f waits p' f'
    pop_again :
        {p' : Proxy A} {f' : Fifo A}
        → to_come p f ≡ []
        → terminated_fifo f ≡ false
        → to_come p' f' ≡ []
        → p' ≡ p
        → (wait f.sem p.step expired).0 ≡ timed_out
        → ProxyPopped expired p f (returned none) p' f'
    pop_ends :
        {p' : Proxy A} {f' : Fifo A}
        → to_come p f ≡ []
        → terminated_fifo f ≡ true
        → to_come p' f' ≡ []
        → ProxyPopped expired p f (returned (some (none, false, 0))) p' f'
    pop_takes :
        {p' : Proxy A} {f' : Fifo A} {x : A} {valid : Bool} {n : ℕ}
        → to_come p f ≡ x ∷ to_come p' f'
        → IsReady p'.elements
        → ProxyPopped expired p f (returned (some (some x, valid, n))) p' f'

  pub reconfigured-elements :
      (p : Proxy A) (n : ℕ)
      → (if p.reconfigure then reconfigure_step_pop p n else p).elements ≡ p.elements
  unfolding reconfigure_step_pop
  reconfigured-elements p n = ground arith

  pub head_lem : (xs ys : List A) → 0 < length xs → (x : A) × (xs ++ ys ≡ x ∷ drop 1 (xs ++ ys))
  head_lem [] ys h = absurd (omega (arith, h))
  head_lem (x ∷ xs) ys h = (x, refl)

  -- The first element of the ranges that are set is the first of the chain that they come from.
  pub first_lem :
      (linked : Bool) (range : List A) (more : List (List A)) (rest : List A)
      → 0 < length range
      → let e : Elements A = set_ranges (range ∷ more) in
        let (found, e') = next linked e in
        (empty_elements linked e ≡ false)
        × IsReady e'
        × (x : A) × (found ≡ some x)
        × (concat (range ∷ more) ++ rest ≡ x ∷ (remaining e' ++ rest))
  unfolding set_ranges
  first_lem linked range more rest h =
      let (ready, all) = set_ranges_lem range more h in
      let (ready', found, left) = next_lem linked (set_ranges (range ∷ more)) ready in
      let (x, split) = head_lem range (concat more) h in
      (
        ready.not_empty linked refl,
        ready',
        x,
        found ∙ ap (λ xs. cell xs 0) (all ∙ split),
        ap (λ xs. xs ++ rest) split ∙ ap (λ xs. x ∷ (xs ++ rest)) (sym (left ∙ ap (drop 1) all)),
      )

  pub refilled_lem :
      (linked expired : Bool) (p : Proxy A) (f f' : Fifo A)
      (result : Attempt (Bool × List (List A)))
      → remaining p.elements ≡ []
      → FifoPopped expired f p.step result f'
      → let (ready, p') = refilled linked p result in
        let (r, p'') = take_prepared linked ready p' in ProxyPopped expired p f r p'' f'
  unfolding refilled take_prepared to_come set_ranges empty_elements remaining remaining_from
  refilled_lem linked expired p f f' _ used (must_wait none_there more none_left on) =
      pop_waits (rw (used, none_there) refl) more (rw (used, none_left) refl) on
  refilled_lem linked expired p f f' _ used (given_up none_there more none_left over) =
      pop_again (rw (used, none_there) refl) more (rw (used, none_left) refl) refl over
  refilled_lem linked expired p f f' _ used (at_end none_there over none_left) =
      let kept = reconfigured-elements (record p { elements = set_ranges [] }) p.step in
      let none_set : Elements A = set_ranges [] in
      let vacant : empty_elements linked none_set ≡ true = ground arith in
      rw (kept, vacant)
        (pop_ends (rw (used, none_there) refl) over
          (ap (λ e. remaining e ++ elements f'.chunks) kept ∙ none_left))
  refilled_lem linked expired p f f' _ used
        (taken {range = range} {more = more} some_there some_range front back) =
      let kept = reconfigured-elements (record p { elements = set_ranges (range ∷ more) }) p.step in
      let (full, ready, x, found, split) =
        first_lem linked range more (elements f'.chunks) some_range in
      let all : elements f.chunks ≡ concat (range ∷ more) ++ elements f'.chunks =
        sym (take-append-drop p.step (elements f.chunks))
        ∙ ap₂ (λ xs ys. xs ++ ys) (sym front) (sym back) in
      rw (kept, full, kept, found) (pop_takes (rw used (all ∙ split)) ready)

  -- One attempt of `pop` that obtains its mutex, with a step of at least 1, when the position of the
  -- consumer is at an element or all of its elements are used up. If no element is to come, neither
  -- taken by the consumer nor in the chain, while a producer has not ended it waits, or, if the
  -- semaphore reports that the timeout has passed, begins again without one with the proxy unchanged;
  -- it returns none when all have ended. Else it returns the first one to come, and the others stay to come.
  pub pop_proxy_lem :
      (linked expired : Bool) (p : Proxy A) (f : Fifo A)
      → IsReady p.elements
      → 0 < p.step
      → f.chunks ≢ []
      → let (result, p', f') = pop_proxy linked true expired p f in
        ProxyPopped expired p f result p' f'
  unfolding pop_proxy prepare_elements take_prepared to_come
  pop_proxy_lem linked expired p f h pos chain = elim (has_next_lem linked p.elements h) [
    | inl (x, more, split) ↦
        (let (ready, found, left) = next_lem linked p.elements h in
          let first = found ∙ ap (λ xs. cell xs 0) split in
          rw (more, first)
            (pop_takes
              (ap (λ xs. xs ++ elements f.chunks) split
                ∙ ap (λ xs. x ∷ (xs ++ elements f.chunks)) (sym left))
              ready))
    | inr (none_left, used) ↦ rw none_left (
        refilled_lem linked expired p f (pop_fifo true expired f p.step).1
          (pop_fifo true expired f p.step).0 used (pop_fifo_lem expired f p.step chain pos))
  ]
