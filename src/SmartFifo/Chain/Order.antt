-- ===== src/SmartFifo/Chain/Order.antt =====
-- The elements of the chain of src/smart_fifo.h as one sequence: `push_chunk` appends to it and
-- `pop` takes its first elements.
use npb_sync.Prelude.{
  ℕ, zero, suc, ◌-◌, ◌≡◌, ◌≢◌, ◌<◌, length-take, ◌⊎◌, refl, ap, sym, ◌∙◌, Bool, true, false, Option,
  none, some, List, [], ◌∷◌, ◌++◌, append-nil, append_assoc, arith, length, take, drop, Bool-cases,
  inl, inr, dec_le, concat, length_zero, take-append, drop-append, take_all, drop_all,
}
use npb_sync.NaiveQueue.Master.{Attempt, waits, returned}
use npb_sync.SmartFifo.Semaphore.{wait, Waited, again, timed_out, got}
use npb_sync.SmartFifo.Chunk.{Chunk, copy_chunk, freeze, empty_chunk, pop_chunk}
use npb_sync.SmartFifo.Chain.{
  Fifo, semaphore_waited, link, push_chunk, skip_empty, pop_ranges, pop_fifo, terminated_fifo,
}

module _ {A : Type 0} where
  unfoldable pub elements : List (Chunk A) → List A
  elements [] = []
  elements (c ∷ rest) = c.available ++ elements rest

  pub link_lem :
      (chunks added : List (Chunk A))
      → elements (link chunks added) ≡ elements chunks ++ elements added
  unfolding elements link freeze
  link_lem [] added = refl
  link_lem (c ∷ []) added = rw append-nil refl
  link_lem (c ∷ d ∷ rest) added =
      ap (◌++◌ c.available) (link_lem (d ∷ rest) added)
      ∙ sym (append_assoc c.available (elements (d ∷ rest)) (elements added))

  pub skip_empty_lem : (chunks : List (Chunk A)) → elements (skip_empty chunks) ≡ elements chunks
  unfolding elements skip_empty empty_chunk
  skip_empty_lem [] = refl
  skip_empty_lem (c ∷ []) = refl
  skip_empty_lem (c ∷ d ∷ rest) = elim (Bool-cases (empty_chunk c)) [
    | inl e ↦ rw (e, length_zero c.available (ground (arith, e))) (skip_empty_lem (d ∷ rest))
    | inr e ↦ rw e refl
  ]

  pub pop_chunk_lem :
      (c : Chunk A) (has_next : Bool) (n : ℕ)
      → let (range, c', left, over) = pop_chunk c has_next n in
        (range ≡ take n c.available)
        × (c'.available ≡ drop n c.available)
        × (left ≡ n - length c.available)
        × (over ≡ true → has_next ≡ true → n - length c.available ≡ 0)
        × (over ≡ false → drop n c.available ≡ [])
  unfolding pop_chunk
  pop_chunk_lem c has_next n = elim (dec_le n (length c.available)) [
    | yes p ↦ ground (arith, p, length_zero c.available)
    | no p ↦
        (let whole = take_all n c.available (omega (arith, p)) in
          let none_left = drop_all n c.available (omega (arith, p)) in
          let whole' = take_all (length c.available) c.available (omega arith) in
          let none_left' = drop_all (length c.available) c.available (omega arith) in
          ground (arith, p, whole, none_left, whole', none_left'))
  ]

  -- what the loop pops, and what stays
  pub pop_ranges_lem :
      (chunks : List (Chunk A)) (n : ℕ)
      → let (ranges, left) = pop_ranges chunks n in
        (concat ranges ≡ take n (elements chunks)) × (elements left ≡ drop n (elements chunks))
  unfolding pop_ranges elements
  pop_ranges_lem [] zero = (refl, refl)
  pop_ranges_lem [] (suc n) = (refl, refl)
  pop_ranges_lem (c ∷ []) zero = (refl, refl)
  pop_ranges_lem (c ∷ d ∷ rest) zero = (refl, refl)
  pop_ranges_lem (c ∷ []) (suc n) =
      let all = append-nil c.available in
      let (range, left, _, _, _) = pop_chunk_lem c false (suc n) in
      let range_nil = append-nil (pop_chunk c false (suc n)).0 in
      let left_nil = append-nil (pop_chunk c false (suc n)).1.available in
      rw all (ground (arith, range, left, range_nil, left_nil))
  pop_ranges_lem (c ∷ d ∷ rest) (suc n) =
      let (range, left, more, stop, go_on) = pop_chunk_lem c true (suc n) in
      let (later, stays) = pop_ranges_lem (d ∷ rest) (pop_chunk c true (suc n)).2 in
      let taken = take-append (suc n) c.available (elements (d ∷ rest)) in
      let dropped = drop-append (suc n) c.available (elements (d ∷ rest)) in
      let range_nil = append-nil (pop_chunk c true (suc n)).0 in
      ground (arith, range, left, more, stop, go_on, later, stays, taken, dropped, range_nil)

  pub empty_nil : (c : Chunk A) → empty_chunk c ≡ true → c.available ≡ []
  unfolding empty_chunk
  empty_nil c h = length_zero c.available (ground (arith, h))

  pub nil_empty : (c : Chunk A) → c.available ≡ [] → empty_chunk c ≡ true
  unfolding empty_chunk
  nil_empty c h = rw h refl

  pub append-nil-left : (xs ys : List A) → xs ++ ys ≡ [] → xs ≡ []
  append-nil-left [] ys h = refl
  append-nil-left (x ∷ xs) ys h = absurd (ground (arith, h))

  pub List-cases :
      (xs : List (Chunk A))
      → (xs ≡ []) ⊎ ((c : Chunk A) × (rest : List (Chunk A)) × (xs ≡ c ∷ rest))
  List-cases [] = inl refl
  List-cases (c ∷ rest) = inr (c, rest, refl)

  pub skip_empty_some : (chunks : List (Chunk A)) → skip_empty chunks ≡ [] → chunks ≡ []
  unfolding skip_empty
  skip_empty_some [] h = refl
  skip_empty_some (c ∷ []) h = h
  skip_empty_some (c ∷ d ∷ rest) h =
      let further = skip_empty_some (d ∷ rest) in absurd (ground (arith, h, further))

  -- A first chunk that is empty after the skipping is the last one.
  pub skip_empty_last :
      (chunks : List (Chunk A)) (c : Chunk A) (rest : List (Chunk A))
      → skip_empty chunks ≡ c ∷ rest
      → empty_chunk c ≡ true
      → elements chunks ≡ []
  unfolding skip_empty elements
  skip_empty_last [] c rest e h = refl
  skip_empty_last (b ∷ []) c rest e h = ground (arith, e, h, empty_nil b, append-nil b.available)
  skip_empty_last (b ∷ d ∷ more) c rest e h = elim (Bool-cases (empty_chunk b)) [
    | inl t ↦ rw (empty_nil b t) (skip_empty_last (d ∷ more) c rest (ground (arith, e, t)) h)
    | inr t ↦ absurd (ground (arith, e, h, t))
  ]

  pub first_not_empty :
      (chunks : List (Chunk A)) (c : Chunk A) (rest : List (Chunk A))
      → skip_empty chunks ≡ c ∷ rest
      → empty_chunk c ≡ false
      → elements chunks ≢ []
  unfolding elements
  first_not_empty chunks c rest e h nil =
      let same : c.available ++ elements rest ≡ [] =
        ap elements (sym e) ∙ skip_empty_lem chunks ∙ nil in
      let none_first : c.available ≡ [] =
        ground (arith, same, append-nil-left c.available (elements rest)) in
      absurd (ground (arith, h, nil_empty c none_first))

  pub pop_ranges_first :
      (c : Chunk A) (rest : List (Chunk A)) (n : ℕ)
      → 0 < n
      → empty_chunk c ≡ false
      → (range : List A) × (more : List (List A)) × ((pop_ranges (c ∷ rest) n).0 ≡ range ∷ more)
        × (0 < length range)
  unfolding pop_ranges empty_chunk
  pop_ranges_first c [] n pos h =
      let (front, _, _, _, _) = pop_chunk_lem c false n in
      let first = length-take n c.available in
      ((pop_chunk c false n).0, [], ground (arith, pos), ground (arith, pos, h, front, first))
  pop_ranges_first c (d ∷ rest) n pos h =
      let (front, _, _, _, _) = pop_chunk_lem c true n in
      let first = length-take n c.available in
      elim (Bool-cases (pop_chunk c true n).3) [
        | inl over ↦ (
          (pop_chunk c true n).0,
          [],
          ground (arith, pos, over),
          ground (arith, pos, h, front, first),
        )
        | inr go_on ↦ (
          (pop_chunk c true n).0,
          (pop_ranges (d ∷ rest) (pop_chunk c true n).2).0,
          ground (arith, pos, go_on),
          ground (arith, pos, h, front, first),
        )
      ]

  -- What one attempt of `pop` for `n` elements does: it waits, it gives up in the semaphore, it is at
  -- the end, or it takes some.
  pub data FifoPopped (expired : Bool) (f : Fifo A) (n : ℕ)
      : Attempt (Bool × List (List A)) → Fifo A → Type 0 where
    must_wait :
        {f' : Fifo A}
        → elements f.chunks ≡ []
        → terminated_fifo f ≡ false
        → elements f'.chunks ≡ []
        → (wait f.sem n expired).0 ≢ timed_out
        → FifoPopped expired f n waits f'
    given_up :
        {f' : Fifo A}
        → elements f.chunks ≡ []
        → terminated_fifo f ≡ false
        → elements f'.chunks ≡ []
        → (wait f.sem n expired).0 ≡ timed_out
        → FifoPopped expired f n (returned (false, [])) f'
    at_end :
        {f' : Fifo A}
        → elements f.chunks ≡ []
        → terminated_fifo f ≡ true
        → elements f'.chunks ≡ []
        → FifoPopped expired f n (returned (true, [])) f'
    taken :
        {f' : Fifo A} {range : List A} {more : List (List A)}
        → elements f.chunks ≢ []
        → 0 < length range
        → concat (range ∷ more) ≡ take n (elements f.chunks)
        → elements f'.chunks ≡ drop n (elements f.chunks)
        → FifoPopped expired f n (returned (true, range ∷ more)) f'

  waited_lem :
      (expired : Bool) (f : Fifo A) (n : ℕ) (count : Waited) (f' : Fifo A)
      → (wait f.sem n expired).0 ≡ count
      → elements f.chunks ≡ []
      → terminated_fifo f ≡ false
      → elements f'.chunks ≡ []
      → FifoPopped expired f n (semaphore_waited count) f'
  unfolding semaphore_waited
  waited_lem expired f n again f' e h more h' = must_wait h more h' (λ q. cc (e, q))
  waited_lem expired f n (got k) f' e h more h' = must_wait h more h' (λ q. cc (e, q))
  waited_lem expired f n timed_out f' e h more h' = given_up h more h' e

  -- One attempt of `pop` for `n` elements, at least one, under its mutex. If the chain holds no
  -- element and a producer has not ended, it returns false if the semaphore reports that the timeout
  -- has passed, and waits otherwise; if all producers have ended, it returns no ranges. If it holds some, the ranges
  -- returned are its first `n` elements in order, or all if there are fewer, the first range is not
  -- empty, and the other elements stay.
  pub pop_fifo_lem :
      (expired : Bool) (f : Fifo A) (n : ℕ)
      → f.chunks ≢ []
      → 0 < n
      → FifoPopped expired f n (pop_fifo true expired f n).0 (pop_fifo true expired f n).1
  unfolding pop_fifo
  pop_fifo_lem expired f n chain pos = elim (List-cases (skip_empty f.chunks)) [
    | inl e ↦ absurd (chain (skip_empty_some f.chunks e))
    | inr (c, rest, e) ↦
        (let same = skip_empty_lem f.chunks in
          let last = skip_empty_last f.chunks c rest e in
          let (front, back) = pop_ranges_lem (skip_empty f.chunks) n in
          elim (Bool-cases (empty_chunk c)) [
            | inl t ↦ elim (Bool-cases (terminated_fifo f)) [
              | inl over ↦ rw (e, t, over) (at_end (last t) over (same ∙ last t))
              | inr more ↦
                  rw (e, t, more) (waited_lem expired f n _ _ refl (last t) more (same ∙ last t))
            ]
            | inr t ↦
                (let (range, more, first, some_range) = pop_ranges_first c rest n pos t in
                  let ranges : (pop_ranges (skip_empty f.chunks) n).0 ≡ range ∷ more =
                    ap (λ xs. (pop_ranges xs n).0) e ∙ first in
                  rw (e, t, ranges)
                    (taken (first_not_empty f.chunks c rest e t) some_range
                      (ap (λ xs. concat xs) (sym ranges) ∙ front ∙ ap (take n) same)
                      (back ∙ ap (drop n) same)))
          ])
  ]

  -- `push_chunk` puts the elements of the chunk and of the one that follows it behind those of the
  -- chain, whatever was frozen or copied.
  pub push_chunk_lem :
      (f : Fifo A) (chunk : Chunk A) (next : Option (Chunk A)) (n : ℕ)
      → elements (push_chunk f chunk next n).chunks
        ≡ elements f.chunks ++ elements (chunk ∷ (elim next [ none ↦ [] | some d ↦ d ∷ [] ]))
  unfolding push_chunk elements copy_chunk
  push_chunk_lem f chunk next n =
      link_lem f.chunks (copy_chunk chunk ∷ (elim next [ none ↦ [] | some d ↦ d ∷ [] ]))
