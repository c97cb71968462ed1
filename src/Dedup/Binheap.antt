-- ===== src/Dedup/Binheap.antt =====
-- The priority queue of src/dedup/binheap.cpp: a binary heap of chunks by the second part of their
-- sequence numbers. `elements` is the array, whose cell 0 holds NULL; a result `none` is an access
-- through NULL. Memory is taken to be there when it is asked for.
pub mod Contents
pub mod Order
pub mod Removal
use npb_sync.Prelude.{
  ℕ, zero, suc, ◌+◌, ◌-◌, ◌*◌, ◌/◌, Bool, true, false, Option, none, some, ltb, ◌==◌, if◌then◌else◌,
}
use npb_sync.Memory.{Memory, store}
use npb_sync.Dedup.Chunk.{Chunk}

pub record PriorityQueue : Type 0 where
  pub capacity : ℕ
  pub size : ℕ
  pub elements : Memory (Option Chunk)

abbrev pub min_pq_size : ℕ
min_pq_size = 16

-- the memory from `malloc`; `none` is the exit on a capacity that is too small
unfoldable pub initialize : Memory (Option Chunk) → ℕ → Option PriorityQueue
initialize memory init_capacity =
    if ltb init_capacity min_pq_size
    then none
    else some (record { capacity = init_capacity; size = 0; elements = store memory 0 none })

unfoldable pub is_empty : PriorityQueue → Bool
is_empty h = h.size == 0

unfoldable pub is_full : PriorityQueue → Bool
is_full h = h.size == h.capacity

-- the parent is there and is larger than `x`
unfoldable pub is_above : Chunk → Option Chunk → Bool
is_above x none = false
is_above x (some p) = ltb x.sequence.l2num p.sequence.l2num

-- the loop: `i` moves up to the place of `x`; it is halved, so that `i` rounds are enough
unfoldable pub insert_loop : ℕ → Chunk → ℕ → Memory (Option Chunk) → Memory (Option Chunk)
insert_loop zero x i elements = store elements i (some x)
insert_loop (suc fuel) x i elements =
    let next = insert_loop fuel x (i / 2) (store elements i (elements (i / 2))) in
    if is_above x (elements (i / 2)) then next else store elements i (some x)

unfoldable pub insert : Chunk → PriorityQueue → PriorityQueue
unfolding is_full insert_loop
insert x h =
    let capacity = if is_full h then 2 * h.capacity else h.capacity in
    if h.size == 0
    then record { capacity = capacity; size = 1; elements = store h.elements 1 (some x) }
    else record {
      capacity = capacity;
      size = h.size + 1;
      elements = insert_loop (h.size + 1) x (h.size + 1) h.elements;
    }

unfoldable pub find_min : PriorityQueue → Option Chunk
unfolding is_empty
find_min h = if is_empty h then none else h.elements 1

-- whether the second of two elements is the smaller one
unfoldable pub is_smaller : Option Chunk → Option Chunk → Option Bool
is_smaller none b = none
is_smaller (some a) none = none
is_smaller (some a) (some b) = some (ltb b.sequence.l2num a.sequence.l2num)

-- the smaller child of `i`; it has one
unfoldable pub smaller_child : ℕ → ℕ → Memory (Option Chunk) → Option ℕ
unfolding is_smaller
smaller_child size i elements =
    if i * 2 == size
    then some (i * 2)
    else elim (is_smaller (elements (i * 2)) (elements (i * 2 + 1))) [
      | none ↦ none
      | some right ↦ some (if right then i * 2 + 1 else i * 2)
    ]

-- the loop: `i` moves down to the place of `last`; it is doubled, so that `size` rounds are enough
unfoldable pub delete_loop :
    ℕ → ℕ → Option Chunk → ℕ → Memory (Option Chunk) → Option (Memory (Option Chunk))
delete_loop zero size last i elements = some (store elements i last)
delete_loop (suc fuel) size last i elements =
    if ltb size (i * 2)
    then some (store elements i last)
    else elim (smaller_child size i elements) [
      | none ↦ none
      | some child ↦ elim (is_smaller last (elements child)) [
        | none ↦ none
        | some below ↦ elim below [
          | true ↦ delete_loop fuel size last child (store elements i (elements child))
          | false ↦ some (store elements i last)
        ]
      ]
    ]

-- the element and the queue; the other `none` is the exit on an empty queue
unfoldable pub delete_min : PriorityQueue → Option (Option Chunk × PriorityQueue)
unfolding is_empty delete_loop
delete_min h =
    if is_empty h
    then none
    else elim (delete_loop h.size (h.size - 1) (h.elements h.size) 1 h.elements) [
      | none ↦ none
      | some elements ↦ some (h.elements 1, record h { size = h.size - 1; elements = elements })
    ]
