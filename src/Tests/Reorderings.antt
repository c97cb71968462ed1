-- ===== src/Tests/Reorderings.antt =====
-- The stage Reorder on two chunks that arrive in the wrong order, and the priority queue.
use npb_sync.Prelude.{ℕ, ◌≡◌, refl, Bool, true, false, Option, none, some, [], ◌∷◌, arith}
use npb_sync.Memory.{Memory, store}
use npb_sync.Dedup.Binheap.{
  PriorityQueue, initialize, insert, find_min, delete_min, is_above, smaller_child,
}
use npb_sync.Dedup.Binheap.Order.{IsHeap}
use npb_sync.Dedup.Binheap.Removal.{Operations, operations_lem}
use npb_sync.Dedup.Chunk.{Chunk, uncompressed}
use npb_sync.Dedup.Sequence.{sequence_eq, sequence_inc_l2}
use npb_sync.Dedup.Tree.{tree_find, tree_find_min, tree_insert, tree_delete}
use npb_sync.Dedup.Reorder
use npb_sync.Dedup.Reorder.{Reordering, receive, write_round}

abbrev piece : ℕ → ℕ → Bool → Chunk
piece l1 l2 last = record {
  is_duplicate = false;
  state = uncompressed;
  sha1 = [];
  uncompressed_data = [];
  compressed_data = [];
  compressed_data_ref = 0;
  sequence = record { l1num = l1; l2num = l2 };
  is_last_l2_chunk = last;
}

abbrev after : {A : Type 0} → A → Option A → A
after a none = a
after a (some b) = b

abbrev unset : Memory (Option Chunk)
unset = λ _. none

abbrev no_queues : Memory PriorityQueue
no_queues = λ _. record { capacity = 0; size = 0; elements = unset }

-- the queue gives its elements in their order
abbrev queue : Option PriorityQueue
queue = elim (initialize unset 16) [
  | none ↦ none
  | some h ↦ some (insert (piece 0 1 false) (insert (piece 0 2 false) (insert (piece 0 3 false) h)))
]

abbrev least : Option PriorityQueue → Option Chunk
least none = none
least (some h) = find_min h

abbrev rest : Option PriorityQueue → Option PriorityQueue
rest none = none
rest (some h) = elim (delete_min h) [ none ↦ none | some r ↦ some r.1 ]

first_out : least queue ≡ some (piece 0 1 false)
unfolding initialize insert find_min is_above
first_out = refl

second_out : least (rest queue) ≡ some (piece 0 2 false)
unfolding initialize insert find_min delete_min smaller_child is_above
second_out = refl

third_out : least (rest (rest queue)) ≡ some (piece 0 3 false)
unfolding initialize insert find_min delete_min smaller_child is_above
third_out = refl

abbrev s0 : Reordering
s0 = Reorder.start no_queues

-- the last piece of the first coarse chunk comes first
abbrev s1 : Reordering
s1 = after s0 (receive unset (piece 0 1 true) s0)

abbrev s2 : Reordering
s2 = after s1 (receive unset (piece 0 0 false) s1)

abbrev s3 : Reordering
s3 = after s2 (write_round (piece 0 0 false) s2)

abbrev s4 : Reordering
s4 = after s3 (write_round (piece 0 1 true) s3)

both_written : s4.written ≡ piece 0 1 true ∷ piece 0 0 false ∷ []
unfolding receive write_round sequence_inc_l2 sequence_eq Reorder.start tree_find initialize
    tree_find_min tree_insert find_min insert delete_min tree_delete
both_written = refl

-- a queue with one chunk
abbrev single : PriorityQueue
single = record { capacity = 16; size = 1; elements = store unset 1 (some (piece 0 3 false)) }

single-IsHeap : IsHeap single.size single.elements
single-IsHeap = record {
  sentinel = refl;
  there = λ j a b. ground arith;
  ordered = λ j a b. ground arith;
}

operations_lem_example : Operations single (piece 0 2 false)
operations_lem_example = operations_lem 0 single (piece 0 2 false) refl single-IsHeap
