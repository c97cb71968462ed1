-- ===== src/NaiveQueue/Transfer.antt =====
-- What the loops of `enqueue` and `dequeue` move between a local ring and the shared one.
use native.Mathlib.Nat.{zero-add}
use npb_sync.Prelude.{
  ℕ, zero, suc, ◌+◌, ◌-◌, ◌<◌, ◌≡◌, refl, sym, ap, ◌∙◌, true, false, ◌||◌, none, some, List, [],
  inl, inr, Option-cases, ◌∷◌, ◌++◌, append-nil, append_assoc, arith, ◌==◌, if◌then◌else◌, length,
  take, drop, min,
}
use npb_sync.Ring.{Ring, empty, full, pop, push}
use npb_sync.Ring.Shape.{IsValid, contents, length-contents, empty_iff, full_iff}
use npb_sync.Ring.Fifo.{
  bounded_push, bounded_pop, push-IsValid, pop-IsValid, push_refines, pop_refines,
}
use npb_sync.NaiveQueue.Local.{
  empty_local-eq-empty, full_local, pop_local-eq-pop, push_local-eq-push,
}
use npb_sync.NaiveQueue.Master.{fill_local, drain_local}

module _ {A : Type 0} where
  -- the loop that both are: from `src` to `dst`, while the one has elements and the other room
  move : ℕ → ℕ → Ring A → Ring A → ℕ × Ring A × Ring A
  move zero i src dst = (i, src, dst)
  move (suc k) i src dst =
      let (taken, src') = pop src in
      let dst' : Ring A = elim taken [ none ↦ dst | some v ↦ (push dst v).1 ] in
      let rest = move k (i + 1) src' dst' in if empty src || full dst then (i, src, dst) else rest

  fill_local-eq-move :
      (k i : ℕ) (buf local : Ring A) → fill_local k i buf local ≡ move k i buf local
  unfolding fill_local move full_local full
  fill_local-eq-move zero i buf local = refl
  fill_local-eq-move (suc k) i buf local = elim (Option-cases (pop buf).0) [
    | inl e ↦ rw (e, fill_local-eq-move k (i + 1) (pop buf).1 local) refl
    | inr (v, e) ↦
        rw
          (e, push_local-eq-push local v, fill_local-eq-move k (i + 1) (pop buf).1 (push local v).1)
          refl
  ]

  abbrev swapped : ℕ × Ring A × Ring A → ℕ × Ring A × Ring A
  swapped (i, a, b) = (i, b, a)

  drain_local-eq-move :
      (k i : ℕ) (buf local : Ring A) → drain_local k i buf local ≡ swapped (move k i local buf)
  unfolding drain_local move
  drain_local-eq-move zero i buf local = refl
  drain_local-eq-move (suc k) i buf local = elim (Option-cases (pop local).0) [
    | inl e ↦ ground (
      arith,
      e,
      pop_local-eq-pop local,
      empty_local-eq-empty local,
      drain_local-eq-move k (i + 1) buf (pop local).1,
    )
    | inr (v, e) ↦ ground (
      arith,
      e,
      pop_local-eq-pop local,
      empty_local-eq-empty local,
      drain_local-eq-move k (i + 1) (push buf v).1 (pop local).1,
    )
  ]

  -- `c` elements went over, oldest first.
  pub record Moved (c : ℕ) (src dst src' dst' : Ring A) : Type 0 where
    pub left : contents src' ≡ drop c (contents src)
    pub added : contents dst' ≡ contents dst ++ take c (contents src)
    pub src_valid : IsValid src'
    pub dst_valid : IsValid dst'
    pub src_size : src'.size ≡ src.size
    pub dst_size : dst'.size ≡ dst.size
    pub src_allocated : src'.allocated ≡ src.allocated
    pub dst_allocated : dst'.allocated ≡ dst.allocated

  pub pop-some :
      (r : Ring A)
      → IsValid r
      → 0 < r.n_elements
      → (v : A) × ((pop r).0 ≡ some v) × (contents r ≡ v ∷ contents (pop r).1)
  unfolding bounded_pop
  pop-some r h pos = go (contents r) refl
    where
      go :
          (xs : List A)
          → contents r ≡ xs
          → (v : A) × ((pop r).0 ≡ some v) × (contents r ≡ v ∷ contents (pop r).1)
      go [] e = absurd (omega (arith, ap length e, length-contents r))
      go (v ∷ xs) e =
          let q : ((pop r).0, contents (pop r).1) ≡ (some v, xs) = rw e at (pop_refines r h) in
          (v, ap (λ p. p.0) q, e ∙ ap (λ p. v ∷ p.1) (sym q))

  pub push_room :
      (r : Ring A) (v : A)
      → IsValid r
      → r.n_elements + 1 < r.size
      → contents (push r v).1 ≡ contents r ++ v ∷ []
  unfolding bounded_push
  push_room r v h room = ground (arith, push_refines r v h, length-contents r)

  -- `pop` and `push` leave the size and the array alone.
  pub size-pop : (r : Ring A) → ((pop r).1.size ≡ r.size) × ((pop r).1.allocated ≡ r.allocated)
  unfolding pop
  size-pop r = ground arith

  pub size-push :
      (r : Ring A) (v : A) → ((push r v).1.size ≡ r.size) × ((push r v).1.allocated ≡ r.allocated)
  unfolding push
  size-push r v = ground arith

  nothing-Moved : (src dst : Ring A) → IsValid src → IsValid dst → Moved 0 src dst src dst
  nothing-Moved src dst hs hd = record {
    left = refl;
    added = sym (append-nil (contents dst));
    src_valid = hs;
    dst_valid = hd;
    src_size = refl;
    dst_size = refl;
    src_allocated = refl;
    dst_allocated = refl;
  }

  -- a round in front of the others
  Moved-suc :
      (c : ℕ) (v : A) (src dst : Ring A) {s d : Ring A}
      → contents src ≡ v ∷ contents (pop src).1
      → contents (push dst v).1 ≡ contents dst ++ v ∷ []
      → Moved c (pop src).1 (push dst v).1 s d
      → Moved (suc c) src dst s d
  Moved-suc c v src dst {s} {d} e e' m = record {
    left = rw e m.left;
    added = rw e (
        m.added
        ∙ ap (λ xs. xs ++ take c (contents (pop src).1)) e'
        ∙ append_assoc (contents dst) (v ∷ []) _);
    src_valid = m.src_valid;
    dst_valid = m.dst_valid;
    src_size = m.src_size ∙ (size-pop src).0;
    dst_size = m.dst_size ∙ (size-push dst v).0;
    src_allocated = m.src_allocated ∙ (size-pop src).1;
    dst_allocated = m.dst_allocated ∙ (size-push dst v).1;
  }

  pub n_elements-pop :
      (r : Ring A) → IsValid r → 0 < r.n_elements → (pop r).1.n_elements + 1 ≡ r.n_elements
  unfolding pop
  n_elements-pop r h pos = ground (arith, empty_iff r h)

  pub n_elements-push :
      (r : Ring A) (v : A)
      → IsValid r
      → r.n_elements + 1 < r.size
      → (push r v).1.n_elements ≡ r.n_elements + 1
  unfolding push
  n_elements-push r v h room = ground (arith, full_iff r h)

  stops :
      (src dst : Ring A)
      → IsValid src
      → IsValid dst
      → (empty src || full dst) ≡ (min src.n_elements (dst.size - 1 - dst.n_elements) == 0)
  stops src dst hs hd = ground (arith, empty_iff src hs, full_iff dst hd)

  -- The loop makes `c` rounds: as many as are allowed, as there are elements, and as there is room.
  move_lem :
      (k c i : ℕ) (src dst : Ring A)
      → IsValid src
      → IsValid dst
      → c ≡ min k (min src.n_elements (dst.size - 1 - dst.n_elements))
      → let (n, src', dst') = move k i src dst in (n ≡ i + c) × Moved c src dst src' dst'
  unfolding move
  move_lem zero zero i src dst hs hd e = (omega arith, nothing-Moved src dst hs hd)
  move_lem zero (suc c) i src dst hs hd e = absurd (omega arith)
  move_lem (suc k) zero i src dst hs hd e =
      let stop : (empty src || full dst) ≡ true = ground (arith, stops src dst hs hd) in
      rw stop (omega arith, nothing-Moved src dst hs hd)
  move_lem (suc k) (suc c) i src dst hs hd e =
      let stop : (empty src || full dst) ≡ false = ground (arith, stops src dst hs hd) in
      let (v, taken, front) = pop-some src hs (omega arith) in
      let room = push_room dst v hd (omega arith) in
      let (count, m) =
        move_lem k c (i + 1) (pop src).1 (push dst v).1 (pop-IsValid src hs) (push-IsValid dst v hd)
          (omega (arith, n_elements-pop src hs, n_elements-push dst v hd, size-push dst v)) in
      rw (stop, taken) (omega (arith, count), Moved-suc c v src dst front room m)

  -- What `dequeue` moves from the shared ring.
  pub fill_local_lem :
      (k : ℕ) (buf local : Ring A)
      → IsValid buf
      → IsValid local
      → let (n, buf', local') = fill_local k 0 buf local in
        (n ≡ min k (min buf.n_elements (local.size - 1 - local.n_elements)))
        × Moved n buf local buf' local'
  fill_local_lem k buf local hb hl =
      let (count, m) =
        move_lem k (min k (min buf.n_elements (local.size - 1 - local.n_elements))) 0 buf local hb
          hl refl in
      rw (fill_local-eq-move k 0 buf local, count, zero-add) (refl, m)

  -- What `enqueue` moves into it.
  pub drain_local_lem :
      (k : ℕ) (buf local : Ring A)
      → IsValid buf
      → IsValid local
      → let (n, buf', local') = drain_local k 0 buf local in
        (n ≡ min k (min local.n_elements (buf.size - 1 - buf.n_elements)))
        × Moved n local buf local' buf'
  drain_local_lem k buf local hb hl =
      let (count, m) =
        move_lem k (min k (min local.n_elements (buf.size - 1 - buf.n_elements))) 0 local buf hl hb
          refl in
      rw (drain_local-eq-move k 0 buf local, count, zero-add) (refl, m)
