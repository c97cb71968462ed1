-- ===== src/Dedup/Binheap/Removal.antt =====
-- FindMin and DeleteMin of src/dedup/binheap.cpp: the first element is the least one, and without it
-- the heap order is kept.
use npb_sync.Prelude.{
  ℕ, zero, suc, ◌+◌, ◌-◌, ◌*◌, ◌/◌, ◌≤◌, ◌<◌, ◌≡◌, refl, ap, ◌∙◌, arith, true, false, Option, none,
  some, ltb, ◌==◌, dec_lt, inl, inr, ◌⊎◌,
}
use npb_sync.Memory.{Memory, store}
use npb_sync.Dedup.Chunk.{Chunk}
use npb_sync.Dedup.Binheap.{
  PriorityQueue, is_empty, insert, find_min, is_smaller, smaller_child, delete_loop, delete_min,
}
use npb_sync.Dedup.Binheap.Contents.{sum, sum-insert, sum-delete_min}
use npb_sync.Dedup.Binheap.Order.{dec_eq, key, is_there, IsHeap, half_pos, half_le, insert_cells}

least :
    (k size : ℕ) (elements : Memory (Option Chunk))
    → IsHeap size elements
    → (j : ℕ) → 0 < j
    → j ≤ size
    → j ≤ k
    → key (elements 1) ≤ key (elements j)
least zero size elements h j a b c = absurd (omega arith)
least (suc k) size elements h j a b c = elim (dec_eq j 1) [
  | inl e ↦ rw e (omega arith)
  | inr n ↦
      let up = h.ordered j a b in
      let ih = least k size elements h (j / 2) (half_pos j a n) (omega arith) (half_le j k a c) in
      omega arith
]

-- a smaller chunk moves up over `i`
move_down :
    (size i c : ℕ) (elements : Memory (Option Chunk))
    → 0 < i
    → c ≤ size
    → c / 2 ≡ i
    → IsHeap size elements
    → ((j : ℕ) → 0 < j → j ≤ size → j / 2 ≡ i → key (elements c) ≤ key (elements j))
    → IsHeap size (store elements i (elements c))
move_down size i c elements pos b child h smaller =
    let t0 = h.there c (omega arith) b in
    let o0 = h.ordered c (omega arith) b in
    let s = h.sentinel in
    record {
      sentinel = ground arith;
      there = λ j a d. let t = h.there j a d in ground arith;
      ordered = λ j a d. elim (dec_eq j i) [
        | inl e ↦
            let o = h.ordered i pos (omega arith) in let o1 = rw child at o0 in rw e (ground arith)
        | inr n ↦ elim (dec_eq (j / 2) i) [
          | inl e ↦ let t = smaller j a d e in ground arith
          | inr m ↦ let o = h.ordered j a d in ground arith
        ]
      ];
    }

-- and the last chunk takes the place `i`
close_down :
    (size i : ℕ) (x : Chunk) (elements : Memory (Option Chunk))
    → 0 < i
    → IsHeap size elements
    → key (elements i) ≤ x.sequence.l2num
    → i ≤ size
    → ((j : ℕ) → 0 < j → j ≤ size → j / 2 ≡ i → x.sequence.l2num ≤ key (elements j))
    → IsHeap size (store elements i (some x))
close_down size i x elements pos h le b below =
    let s = h.sentinel in
    let o0 = h.ordered i pos b in
    record {
      sentinel = ground arith;
      there = λ j a d. let t = h.there j a d in ground arith;
      ordered = λ j a d. elim (dec_eq j i) [
        | inl e ↦ ground arith
        | inr n ↦ elim (dec_eq (j / 2) i) [
          | inl e ↦ let t = below j a d e in ground arith
          | inr m ↦ let o = h.ordered j a d in ground arith
        ]
      ];
    }

-- the child that the loop compares with
record IsSmallerChild (size i c : ℕ) (elements : Memory (Option Chunk)) : Type 0 where
  found : smaller_child size i elements ≡ some c
  in_range : c ≤ size
  child : c / 2 ≡ i
  least_child : (j : ℕ) → 0 < j → j ≤ size → j / 2 ≡ i → key (elements c) ≤ key (elements j)

there_some : (o : Option Chunk) → is_there o ≡ true → (c : Chunk) × (o ≡ some c)
there_some none h = absurd (cc h)
there_some (some c) h = (c, refl)

child_cases : (j i : ℕ) → j / 2 ≡ i → (j ≡ i * 2) ⊎ (j ≡ i * 2 + 1)
child_cases j i e = elim (dec_eq j (i * 2)) [ inl p ↦ inl p | inr n ↦ inr (omega arith) ]

smaller_child_lem :
    (size i : ℕ) (elements : Memory (Option Chunk))
    → 0 < i
    → i * 2 ≤ size
    → IsHeap size elements
    → (c : ℕ) × IsSmallerChild size i c elements
unfolding smaller_child is_smaller
smaller_child_lem size i elements pos b h = elim (dec_eq (i * 2) size) [
  | inl e ↦ (
    i * 2,
    record {
      found = ground arith;
      in_range = b;
      child = omega arith;
      least_child = λ j a d k. elim (child_cases j i k) [
        | inl p ↦ rw p (omega arith)
        | inr p ↦ absurd (omega arith)
      ];
    },
  )
  | inr n ↦
      let l = there_some (elements (i * 2)) (h.there (i * 2) (omega arith) b) in
      let r = there_some (elements (i * 2 + 1)) (h.there (i * 2 + 1) (omega arith) (omega arith)) in
      let t : (i * 2 == size) ≡ false = ground arith in
      elim (dec_lt r.0.sequence.l2num l.0.sequence.l2num) [
        | yes p ↦
            let q : ltb r.0.sequence.l2num l.0.sequence.l2num ≡ true = ground arith in
            (
              i * 2 + 1,
              record {
                found = rw (t, l.1, r.1, q) refl;
                in_range = omega arith;
                child = omega arith;
                least_child = λ j a d k. elim (child_cases j i k) [
                  | inl e ↦ rw (e, l.1, r.1) (omega arith)
                  | inr e ↦ rw e (omega arith)
                ];
              },
            )
        | no p ↦
            let q : ltb r.0.sequence.l2num l.0.sequence.l2num ≡ false = ground arith in
            (
              i * 2,
              record {
                found = rw (t, l.1, r.1, q) refl;
                in_range = b;
                child = omega arith;
                least_child = λ j a d k. elim (child_cases j i k) [
                  | inl e ↦ rw e (omega arith)
                  | inr e ↦ rw (e, l.1, r.1) (omega arith)
                ];
              },
            )
      ]
]

child_pos : (c i : ℕ) → c / 2 ≡ i → 0 < i → 0 < c
child_pos c i e p = omega arith

child_fuel : (c i size fuel : ℕ) → c / 2 ≡ i → 0 < i → size < i + suc fuel → size < c + fuel
child_fuel c i size fuel e p f = omega arith

moved_key :
    (elements : Memory (Option Chunk)) (i c : ℕ) (y x : Chunk)
    → elements c ≡ some y
    → y.sequence.l2num < x.sequence.l2num
    → key (store elements i (elements c) c) ≤ x.sequence.l2num
moved_key elements i c y x e h =
    let k : key (elements c) ≡ y.sequence.l2num = ap key e in ground arith

delete_more :
    (fuel size i c : ℕ) (x y : Chunk) (elements m : Memory (Option Chunk))
    → ltb size (i * 2) ≡ false
    → smaller_child size i elements ≡ some c
    → elements c ≡ some y
    → y.sequence.l2num < x.sequence.l2num
    → delete_loop fuel size (some x) c (store elements i (elements c)) ≡ some m
    → delete_loop (suc fuel) size (some x) i elements ≡ some m
unfolding delete_loop is_smaller
delete_more fuel size i c x y elements m t found e h next =
    let u : ltb y.sequence.l2num x.sequence.l2num ≡ true = ground arith in rw (t, found, e, u) next

delete_stops :
    (fuel size i c : ℕ) (x y : Chunk) (elements : Memory (Option Chunk))
    → ltb size (i * 2) ≡ false
    → smaller_child size i elements ≡ some c
    → elements c ≡ some y
    → ¬ (y.sequence.l2num < x.sequence.l2num)
    → delete_loop (suc fuel) size (some x) i elements ≡ some (store elements i (some x))
unfolding delete_loop is_smaller
delete_stops fuel size i c x y elements t found e h =
    let u : ltb y.sequence.l2num x.sequence.l2num ≡ false = ground arith in rw (t, found, e, u) refl

delete_loop-IsHeap :
    (fuel size i : ℕ) (x : Chunk) (elements : Memory (Option Chunk))
    → 0 < i
    → i ≤ size
    → size < i + fuel
    → IsHeap size elements
    → key (elements i) ≤ x.sequence.l2num
    → (m : Memory (Option Chunk)) × (delete_loop fuel size (some x) i elements ≡ some m)
      × IsHeap size m
unfolding delete_loop is_smaller
delete_loop-IsHeap zero size i x elements pos b f h le = absurd (omega arith)
delete_loop-IsHeap (suc fuel) size i x elements pos b f h le = elim (dec_lt size (i * 2)) [
  | yes p ↦ (
    store elements i (some x),
    ground arith,
    close_down size i x elements pos h le b λ j a d e. absurd (omega arith),
  )
  | no p ↦
      let t : ltb size (i * 2) ≡ false = ground arith in
      let s = smaller_child_lem size i elements pos (omega arith) h in
      let c = s.0 in
      let is = s.1 in
      let y = there_some (elements c) (h.there c (child_pos c i is.child pos) is.in_range) in
      elim (dec_lt y.0.sequence.l2num x.sequence.l2num) [
        | yes q ↦
            let ih =
              delete_loop-IsHeap fuel size c x (store elements i (elements c))
                (child_pos c i is.child pos) is.in_range (child_fuel c i size fuel is.child pos f)
                (move_down size i c elements pos is.in_range is.child h is.least_child)
                (moved_key elements i c y.0 x y.1 q) in
            (ih.0, delete_more fuel size i c x y.0 elements ih.0 t is.found y.1 q ih.1, ih.2)
        | no q ↦
            let k : key (elements c) ≡ y.0.sequence.l2num = ap key y.1 in
            (
              store elements i (some x),
              delete_stops fuel size i c x y.0 elements t is.found y.1 q,
              close_down size i x elements pos h le b
                  λ j a d e. let l = is.least_child j a d e in omega arith,
            )
      ]
]

-- the last cell is given up
shrink :
    (size : ℕ) (elements : Memory (Option Chunk))
    → IsHeap (size + 1) elements
    → IsHeap size elements
shrink size elements h = record {
  sentinel = h.sentinel;
  there = λ j a b. h.there j a (omega arith);
  ordered = λ j a b. h.ordered j a (omega arith);
}

-- a heap without chunks
empty-IsHeap :
    (elements : Memory (Option Chunk)) (o : Option Chunk)
    → elements 0 ≡ none
    → IsHeap 0 (store elements 1 o)
empty-IsHeap elements o s = record {
  sentinel = ground arith;
  there = λ j a b. absurd (omega arith);
  ordered = λ j a b. absurd (omega arith);
}

delete_cells :
    (size : ℕ) (x : Chunk) (elements : Memory (Option Chunk))
    → elements (size + 1) ≡ some x
    → IsHeap (size + 1) elements
    → (m : Memory (Option Chunk)) × (delete_loop (size + 1) size (some x) 1 elements ≡ some m)
      × IsHeap size m
unfolding delete_loop
delete_cells zero x elements e h =
    (store elements 1 (some x), refl, empty-IsHeap elements (some x) h.sentinel)
delete_cells (suc n) x elements e h =
    let l =
      least (suc n + 1) (suc n + 1) elements h (suc n + 1) (omega arith) (omega arith)
        (omega arith) in
    let k : key (elements (suc n + 1)) ≡ x.sequence.l2num = ap key e in
    delete_loop-IsHeap (suc n + 1) (suc n) 1 x elements (omega arith) (omega arith) (omega arith)
      (shrink (suc n) elements h) (omega arith)

-- the least chunk leaves the queue, and the others stay: by any weight of the chunks
pub record Deleted (h : PriorityQueue) : Type 0 where
  pub left : PriorityQueue
  pub is_left : delete_min h ≡ some (find_min h, left)
  pub size : left.size + 1 ≡ h.size
  pub heap : IsHeap left.size left.elements
  pub others_stay :
      (weight : Option Chunk → ℕ)
      → sum weight left.size left.elements + weight (find_min h) ≡ sum weight h.size h.elements

delete_min-eq :
    (n : ℕ) (h : PriorityQueue) (y : Chunk) (m : Memory (Option Chunk))
    → h.size ≡ n + 1
    → h.elements (n + 1) ≡ some y
    → delete_loop (n + 1) n (some y) 1 h.elements ≡ some m
    → delete_min h ≡ some (find_min h, record h { size = n; elements = m })
unfolding delete_min find_min
delete_min-eq n h y m e last loop =
    let less : h.size - 1 ≡ n = omega arith in
    let some_left : (h.size == 0) ≡ false = ground arith in
    rw (some_left, less) (rw e (rw (last, loop) (rw less refl)))

delete_min-Deleted :
    (n : ℕ) (h : PriorityQueue) → h.size ≡ n + 1 → IsHeap h.size h.elements → Deleted h
unfolding delete_min find_min
delete_min-Deleted n h e v =
    let v' = rw e at v in
    let y = there_some (h.elements (n + 1)) (v'.there (n + 1) (omega arith) (omega arith)) in
    let m = delete_cells n y.0 h.elements y.1 v' in
    record {
      left = record h { size = n; elements = m.0 };
      is_left = delete_min-eq n h y.0 m.0 e y.1 m.1;
      size = omega (arith, e);
      heap = m.2;
      others_stay = λ weight.
          sum-delete_min weight n h m.0 e
            (ap (λ o. delete_loop (n + 1) n o 1 h.elements) y.1 ∙ m.1);
    }

-- what the operations do to a queue that is not empty
pub record Operations (h : PriorityQueue) (x : Chunk) : Type 0 where
  pub inserted : IsHeap (insert x h).size (insert x h).elements
  pub grown : (insert x h).size ≡ h.size + 1
  pub added :
      (weight : Option Chunk → ℕ)
      → sum weight (insert x h).size (insert x h).elements
        ≡ sum weight h.size h.elements + weight (some x)
  pub deleted : Deleted h
  pub least_first : (j : ℕ) → 0 < j → j ≤ h.size → key (find_min h) ≤ key (h.elements j)

-- On a queue in heap order that is not empty, Insert keeps the order and adds its chunk to those
-- that are there; FindMin gives a chunk whose key no other one is below; DeleteMin gives that chunk,
-- without an exit or an access through NULL, and leaves a queue in heap order with all the others.
-- Which chunks a queue holds is said by the sums of their weights, for any weight: a weight of one
-- for the chunks of a kind counts them.
pub operations_lem :
    (n : ℕ) (h : PriorityQueue) (x : Chunk)
    → h.size ≡ n + 1
    → IsHeap h.size h.elements
    → Operations h x
unfolding find_min is_empty insert
operations_lem n h x e v = record {
  inserted = insert_cells x h v;
  grown = let some_left : (h.size == 0) ≡ false = ground arith in rw some_left refl;
  added = λ weight. sum-insert weight x h v.sentinel;
  deleted = delete_min-Deleted n h e v;
  least_first = λ j a b.
      let l = least h.size h.size h.elements v j a b b in
      let some_left : (h.size == 0) ≡ false = ground arith in rw some_left l;
}
