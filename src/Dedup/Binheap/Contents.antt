-- ===== src/Dedup/Binheap/Contents.antt =====
-- Insert and DeleteMin of src/dedup/binheap.cpp neither lose nor double a chunk: what the cells of the
-- heap hold, summed up by any weight.
use npb_sync.Prelude.{
  ℕ, zero, suc, ◌+◌, ◌*◌, ◌/◌, ◌≤◌, ◌<◌, ◌≡◌, refl, ap, ◌∙◌, subst, arith, true, false, Option,
  none, some, ltb, ◌==◌, Bool-cases, Option-cases, inl, inr,
}
use npb_sync.Memory.{Memory, store}
use npb_sync.Dedup.Chunk.{Chunk}
use npb_sync.Dedup.Binheap.{
  PriorityQueue, is_above, insert_loop, insert, is_smaller, smaller_child, delete_loop, find_min,
  is_empty,
}
use npb_sync.Dedup.Binheap.Order.{parent_pos, dec_eq}

some_injective : {A : Type 0} (a b : A) → some a ≡ some b → a ≡ b
some_injective a b e = cc

module _ (weight : Option Chunk → ℕ) where
  -- the weights of the cells from 1 to `size`
  abbrev pub sum : ℕ → Memory (Option Chunk) → ℕ
  sum zero m = 0
  sum (suc n) m = sum n m + weight (m (suc n))

  sum-last : (n : ℕ) (m : Memory (Option Chunk)) → sum (n + 1) m ≡ sum n m + weight (m (n + 1))
  sum-last n m = let e : n + 1 ≡ suc n = omega arith in rw e refl

  sum-behind :
      (n i : ℕ) (m : Memory (Option Chunk)) (v : Option Chunk)
      → n < i
      → sum n (store m i v) ≡ sum n m
  sum-behind zero i m v h = refl
  sum-behind (suc n) i m v h = ground (arith, sum-behind n i m v (omega arith))

  sum-store :
      (n i : ℕ) (m : Memory (Option Chunk)) (v : Option Chunk)
      → 0 < i
      → i ≤ n
      → sum n (store m i v) + weight (m i) ≡ sum n m + weight v
  sum-store zero i m v pos h = absurd (omega arith)
  sum-store (suc n) i m v pos h = elim (dec_eq i (suc n)) [
    | inl e ↦
        let before = sum-behind n i m v (omega arith) in
        let last : store m i v (suc n) ≡ v = ground arith in rw (before, last, ap m e) (omega arith)
    | inr other ↦
        let before = sum-store n i m v pos (omega arith) in
        let last : store m i v (suc n) ≡ m (suc n) = ground arith in rw last (omega arith)
  ]

  sum-insert_loop :
      (fuel : ℕ) (x : Chunk) (n i : ℕ) (m : Memory (Option Chunk))
      → m 0 ≡ none
      → 0 < i
      → i ≤ n
      → sum n (insert_loop fuel x i m) + weight (m i) ≡ sum n m + weight (some x)
  unfolding insert_loop is_above
  sum-insert_loop zero x n i m s pos b = sum-store n i m (some x) pos b
  sum-insert_loop (suc fuel) x n i m s pos b = elim (Option-cases (m (i / 2))) [
    | inl e ↦ rw e (sum-store n i m (some x) pos b)
    | inr (c, e) ↦ elim (Bool-cases (ltb x.sequence.l2num c.sequence.l2num)) [
      | inr small ↦ rw (e, small) (sum-store n i m (some x) pos b)
      | inl larger ↦
          let half : 0 < i / 2 = parent_pos i c m s e in
          let m' = store m i (m (i / 2)) in
          let s' : m' 0 ≡ none = ground arith in
          let same : m' (i / 2) ≡ m (i / 2) = ground arith in
          let t : is_above x (m (i / 2)) ≡ true = rw e larger in
          let up = sum-insert_loop fuel x n (i / 2) m' s' half (omega arith) in
          let moved = sum-store n i m (m (i / 2)) pos b in
          let up' = rw same at up in rw t (omega (arith, up', moved))
    ]
  ]

  pub sum-insert :
      (x : Chunk) (h : PriorityQueue)
      → h.elements 0 ≡ none
      → sum (insert x h).size (insert x h).elements ≡ sum h.size h.elements + weight (some x)
  unfolding insert
  sum-insert x h s = elim (dec_eq h.size 0) [
    | inl z ↦
        let t : (h.size == 0) ≡ true = ground arith in
        let one : sum 1 (store h.elements 1 (some x)) ≡ weight (some x) = ground arith in
        rw (t, z) (omega (arith, one))
    | inr n ↦
        let t : (h.size == 0) ≡ false = ground arith in
        let loop =
          sum-insert_loop (h.size + 1) x (h.size + 1) (h.size + 1) h.elements s (omega arith)
            (omega arith) in
        let more' = sum-last h.size h.elements in rw t (omega (arith, loop, more'))
  ]

  child_range :
      (size i c : ℕ) (m : Memory (Option Chunk))
      → 0 < i
      → i * 2 ≤ size
      → smaller_child size i m ≡ some c
      → (c ≤ size) × (i < c)
  unfolding smaller_child
  child_range size i c m pos b e = elim (dec_eq (i * 2) size) [
    | inl s ↦
        let t : (i * 2 == size) ≡ true = ground arith in
        let k : i * 2 ≡ c = some_injective _ c (rw t at e) in (omega arith, omega arith)
    | inr s ↦
        let t : (i * 2 == size) ≡ false = ground arith in
        elim (Option-cases (is_smaller (m (i * 2)) (m (i * 2 + 1)))) [
          | inl n ↦ let e' = rw (t, n) at e in absurd (cc e')
          | inr (right, n) ↦ elim (Bool-cases right) [
            | inl r ↦
                let k : i * 2 + 1 ≡ c = some_injective _ c (rw (t, n, r) at e) in
                (omega arith, omega arith)
            | inr r ↦
                let k : i * 2 ≡ c = some_injective _ c (rw (t, n, r) at e) in
                (omega arith, omega arith)
          ]
        ]
  ]

  sum-delete_loop :
      (fuel n i : ℕ) (last : Option Chunk) (m m' : Memory (Option Chunk))
      → 0 < i
      → i ≤ n
      → delete_loop fuel n last i m ≡ some m'
      → sum n m' + weight (m i) ≡ sum n m + weight last
  unfolding delete_loop
  sum-delete_loop zero n i last m m' pos b e =
      subst (λ k. sum n k + weight (m i) ≡ sum n m + weight last) (some_injective _ m' e)
        (sum-store n i m last pos b)
  sum-delete_loop (suc fuel) n i last m m' pos b e =
      let stop : (store m i last ≡ m') → sum n m' + weight (m i) ≡ sum n m + weight last = λ same.
        subst (λ k. sum n k + weight (m i) ≡ sum n m + weight last) same
          (sum-store n i m last pos b) in
      elim (Bool-cases (ltb n (i * 2))) [
        | inl t ↦ stop (some_injective _ m' (rw t at e))
        | inr t ↦ elim (Option-cases (smaller_child n i m)) [
          | inl none_there ↦ let e' = rw (t, none_there) at e in absurd (cc e')
          | inr (c, found) ↦ elim (Option-cases (is_smaller last (m c))) [
            | inl none_there ↦ let e' = rw (t, found, none_there) at e in absurd (cc e')
            | inr (below, test) ↦ elim (Bool-cases below) [
              | inr f ↦
                  let test' : is_smaller last (m c) ≡ some false = test ∙ ap some f in
                  stop (some_injective _ m' (rw (t, found, test') at e))
              | inl f ↦
                  let test' : is_smaller last (m c) ≡ some true = test ∙ ap some f in
                  let (in_range, behind) = child_range n i c m pos (ground (arith, t)) found in
                  let same : store m i (m c) c ≡ m c = ground arith in
                  let down =
                    sum-delete_loop fuel n c last (store m i (m c)) m' (omega arith) in_range
                      (rw (t, found, test') at e) in
                  let down' = rw same at down in
                  let moved = sum-store n i m (m c) pos b in omega (arith, down', moved)
            ]
          ]
        ]
      ]

  pub sum-delete_min :
      (n : ℕ) (h : PriorityQueue) (m : Memory (Option Chunk))
      → h.size ≡ n + 1
      → delete_loop (n + 1) n (h.elements (n + 1)) 1 h.elements ≡ some m
      → sum n m + weight (find_min h) ≡ sum h.size h.elements
  unfolding find_min is_empty delete_loop
  sum-delete_min n h m e loop =
      let some_left : (h.size == 0) ≡ false = ground arith in
      let last = sum-last n h.elements in
      elim (dec_eq n 0) [
        | inl z ↦ rw (some_left, e, z) refl
        | inr k ↦
            let gone =
              sum-delete_loop (n + 1) n 1 (h.elements (n + 1)) h.elements m (omega arith)
                (omega arith) loop in
            rw (some_left, e) (omega (arith, gone, last))
      ]
