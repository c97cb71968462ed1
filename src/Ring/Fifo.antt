-- ===== src/Ring/Fifo.antt =====
-- `push` and `pop` of `Ringbuffer<T>` are those of a bounded first-in first-out queue.
use npb_sync.Prelude.{
  ℕ, suc, ◌+◌, ◌-◌, ◌≡◌, true, false, Option, none, some, List, [], ◌∷◌, ◌++◌, arith, ◌==◌,
  if◌then◌else◌, length,
}
use npb_sync.Memory.{store, window, window-store, window-next, window-cons}
use npb_sync.Ring.{Ring, Status, done, refused, full, push, pop, inc_size}
use npb_sync.Ring.Shape.{IsValid, contents, length-contents, empty_iff, full_iff}

-- The queue with room for `cap` elements that a ring stands for.
module _ {ℓ} {A : Type ℓ} where
  unfoldable pub bounded_push : ℕ → List A → A → Status × List A
  bounded_push cap q v = if length q == cap then (refused, q) else (done, q ++ v ∷ [])

  unfoldable pub bounded_pop : List A → Option A × List A
  bounded_pop [] = (none, [])
  bounded_pop (x ∷ q) = (some x, q)

module _ {A : Type 0} where
  -- A push with room: the slot written is the one behind the contents.
  contents-write :
      (r : Ring A) (v : A)
      → IsValid r
      → window (store r.memory r.head v) r.size r.tail (inc_size r.n_elements)
        ≡ contents r ++ v ∷ []
  contents-write r v h =
      let count : inc_size r.n_elements ≡ suc r.n_elements = omega arith in
      rw (h.head_at, count) (window-store r.memory r.size r.tail r.n_elements v h.tail_in h.spare)

  pub push-refused : (r : Ring A) (v : A) → full r ≡ true → push r v ≡ (refused, r)
  unfolding push
  push-refused r v e = rw e

  pub push-done :
      (r : Ring A) (v : A)
      → full r ≡ false
      → push r v ≡ (
        done,
        record r {
          memory = store r.memory r.head v;
          head = if r.head + 1 == r.size then 0 else r.head + 1;
          n_elements = inc_size r.n_elements;
        },
      )
  unfolding push
  push-done r v e = rw e

  pub push-IsValid : (r : Ring A) (v : A) → IsValid r → IsValid (push r v).1
  unfolding push
  push-IsValid r v h = ground (arith, full_iff r h, h.head_at)

  pub pop-IsValid : (r : Ring A) → IsValid r → IsValid (pop r).1
  unfolding pop
  pop-IsValid r h = ground (arith, empty_iff r h, h.head_at)

  -- `push` refuses exactly when the `size - 1` places are taken, and else adds at the end.
  pub push_refines :
      (r : Ring A) (v : A)
      → IsValid r
      → let (s, r') = push r v in (s, contents r') ≡ bounded_push (r.size - 1) (contents r) v
  unfolding push bounded_push
  push_refines r v h = ground (arith, full_iff r h, length-contents r, contents-write r v h)

  -- `pop` takes the oldest element, if there is one.
  pub pop_refines :
      (r : Ring A) → IsValid r → let (o, r') = pop r in (o, contents r') ≡ bounded_pop (contents r)
  unfolding pop bounded_pop
  pop_refines r h = ground (
    arith,
    empty_iff r h,
    window-cons r.memory r.size r.tail r.n_elements,
    window-next r.memory r.size r.tail (r.n_elements - 1) h.tail_in,
  )
