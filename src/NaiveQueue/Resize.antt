-- ===== src/NaiveQueue/Resize.antt =====
-- `NaiveQueueImpl<T>::resize` keeps the elements of the local buffer and their order.
use npb_sync.Prelude.{
  ℕ, ◌+◌, ◌-◌, ◌≤◌, ◌<◌, ◌^◌, ◌≡◌, ◌≢◌, refl, ap, Bool, false, arith, ltb, if◌then◌else◌, ◌↔◌,
  ℕ_discrete, dec_lt, dec_le,
}
use npb_sync.Memory.{memmove, window-ext}
use npb_sync.Ring.{Ring}
use npb_sync.Ring.Shape.{IsValid, contents}
use npb_sync.NaiveQueue.Local.{resize, resize_move}

-- `p` has the elements of `q` in a valid ring of size `size + 1`.
record Resized {A : Type 0} (q : Ring A) (size : ℕ) (p : Ring A) : Type 0 where
  same : contents p ≡ contents q
  valid : IsValid p
  resized : p.size ≡ size + 1

module _ {A : Type 0} (q : Ring A) (size : ℕ) (v : IsValid q) (fits : size + 1 ≤ q.allocated)
    (small : size + 1 < 2 ^ 31) where
  abbrev at : Ring A → Ring A
  at p = record p { size = size + 1 }

  -- one run that the new size still covers
  stay : q.tail + q.n_elements ≤ size → q.tail + q.n_elements < q.size → Resized q size (at q)
  stay h h' = record {
    same =
        window-ext q.memory q.memory (size + 1) q.size q.tail q.tail q.n_elements
          λ k p. ap q.memory (ground arith);
    valid = ground (arith, v.head_at);
    resized = refl;
  }

  -- one run that is moved to the start
  shift_down :
      q.n_elements ≤ size
      → q.tail + q.n_elements < q.size
      → Resized q size (record q {
        memory = memmove q.memory 0 q.tail q.n_elements;
        head = q.n_elements;
        tail = 0;
        size = size + 1;
      })
  shift_down h h' = record {
    same =
        window-ext (memmove q.memory 0 q.tail q.n_elements) q.memory (size + 1) q.size 0 q.tail
          q.n_elements λ k p. ground arith;
    valid = ground (arith, v.head_at);
    resized = refl;
  }

  -- The part before the end goes to the new end, which lies further to the right or to the left.
  shift_end :
      (to : ℕ)
      → to + q.size ≡ q.tail + size + 1
      → q.size ≤ q.tail + q.n_elements
      → q.n_elements ≤ size
      → Resized q size (record q {
        memory = memmove q.memory to q.tail (q.size - q.tail);
        tail = to;
        size = size + 1;
      })
  shift_end to e h h' = record {
    same =
        window-ext (memmove q.memory to q.tail (q.size - q.tail)) q.memory (size + 1) q.size to
          q.tail q.n_elements λ k p. ground arith;
    valid = ground (arith, v.head_at);
    resized = refl;
  }

  -- the case that refuses
  abbrev Refuses : Type 0
  Refuses = (size + 1 < q.size) × (size ≤ q.n_elements)

  -- nothing is held, both indices go back to 0
  clear : q.n_elements ≡ 0 → Resized q size (record q { head = 0; tail = 0; size = size + 1 })
  clear h = record {
    same =
        window-ext q.memory q.memory (size + 1) q.size 0 q.tail q.n_elements
          λ k p. absurd (omega arith);
    valid = ground (arith, v.head_at);
    resized = refl;
  }

  -- where the head stands, in the three cases that the code tells apart
  head-run : q.tail + q.n_elements < q.size → q.head ≡ q.tail + q.n_elements
  head-run h = ground (arith, v.head_at)

  head-round : q.size ≤ q.tail + q.n_elements → q.head + q.size ≡ q.tail + q.n_elements
  head-round h = ground (arith, v.head_at)

  run_lem :
      0 < q.n_elements
      → q.tail + q.n_elements < q.size
      → ¬ Refuses
      → Resized q size (at (resize_move q size (ltb size (q.size - 1))))
  unfolding resize_move
  run_lem pos h keeps = ground (arith, head-run h, stay, shift_down)

  round_lem :
      0 < q.n_elements
      → q.size ≤ q.tail + q.n_elements
      → ¬ Refuses
      → size + 1 ≢ q.size
      → Resized q size (at (resize_move q size (ltb size (q.size - 1))))
  unfolding resize_move
  round_lem pos h keeps ne = ground (
    arith,
    head-round h,
    shift_end (q.tail + size + 1 - q.size),
    shift_end (q.tail + (size + 1 - q.size)),
    shift_end (q.tail - (q.size - (size + 1))),
  )

  empty_lem : q.n_elements ≡ 0 → Resized q size (at (resize_move q size (ltb size (q.size - 1))))
  unfolding resize_move
  empty_lem none_held = ground (arith, v.head_at, clear none_held)

  move_lem :
      size + 1 ≢ q.size
      → ¬ Refuses
      → Resized q size (at (resize_move q size (ltb size (q.size - 1))))
  move_lem ne keeps = elim (ℕ_discrete q.n_elements 0) [
    | yes z ↦ empty_lem z
    | no some_held ↦ elim (dec_lt (q.tail + q.n_elements) q.size) [
      | yes h ↦ run_lem (omega arith) h keeps
      | no h ↦ round_lem (omega arith) (omega arith) keeps ne
    ]
  ]

  -- With the new size inside the array, `resize` refuses exactly if the ring would shrink and its
  -- elements are at least as many as the new size, so that they would not fit or would fill it; it
  -- then keeps the size. Else the ring has the new size and is valid. The elements and their order
  -- stay in either case.
  pub resize_lem :
      let (done, p) = resize q size in
      (contents p ≡ contents q)
      × IsValid p
      × (p.size ≡ (if done then size + 1 else q.size))
      × ((done ≡ false) ↔ Refuses)
  unfolding resize
  resize_lem = elim (ℕ_discrete (size + 1) q.size) [
    | yes e ↦ ground (arith, v)
    | no ne ↦ elim (dec_lt size (q.size - 1)) [
      | yes less ↦ elim (dec_le size q.n_elements) [
        | yes many ↦ ground (arith, v)
        | no few ↦ ground (arith, move_lem ne (λ l. few l.1))
      ]
      | no more ↦ ground (arith, move_lem ne (λ l. omega arith))
    ]
  ]

-- `resize` never changes the array itself.
allocated-resize_move :
    {A : Type 0} (q : Ring A) (size : ℕ) (reduce : Bool)
    → (resize_move q size reduce).allocated ≡ q.allocated
unfolding resize_move
allocated-resize_move q size reduce = ground arith

pub allocated-resize :
    {A : Type 0} (q : Ring A) (size : ℕ) → (resize q size).1.allocated ≡ q.allocated
unfolding resize
allocated-resize q size = ground (arith, allocated-resize_move q size (ltb size (q.size - 1)))
