-- ===== src/Dedup/Reorder.antt =====
-- The stage Reorder: ReorderDefault of src/dedup/encode_default.cpp, which the other encoders
-- repeat, as the rounds of its loops. A result `none` is a failed assertion, an exit, or an access
-- through NULL or out of bounds. The priority queues are cells of a memory, which the elements of
-- the search tree point to.
pub mod Order
use npb_sync.Prelude.{
  ℕ, ◌+◌, ◌*◌, ◌%◌, ◌^◌, true, ◌&&◌, Option, none, some, not, List, [], ◌∷◌, ltb, leb, ◌==◌,
  if◌then◌else◌, ◌≡◌,
}
use npb_sync.Memory.{Memory, store}
use npb_sync.Dedup.Binheap.{PriorityQueue, initialize, insert, find_min, delete_min, is_empty}
use npb_sync.Dedup.Chunk.{Chunk}
use npb_sync.Dedup.Sequence.{Sequence, sequence_eq, sequence_inc_l1, sequence_inc_l2}
use npb_sync.Dedup.Tree.{
  TreeElement, SearchTree, leaf, tree_find, tree_find_min, tree_insert, tree_delete,
}

abbrev pub initial_search_tree_size : ℕ
initial_search_tree_size = 4096

-- the variables of the thread: `allocated` counts the queues that were created, `chunk` is the one
-- to be written next, and `written` are those that write_chunk_to_file was called with, the latest
-- first
pub record Reordering : Type 0 where
  pub t : SearchTree ℕ
  pub queues : Memory PriorityQueue
  pub allocated : ℕ
  pub next : Sequence
  pub chunks_per_anchor : Memory ℕ
  pub chunks_per_anchor_max : ℕ
  pub pos : Option (TreeElement ℕ)
  pub chunk : Option Chunk
  pub written : List Chunk

-- the array, doubled if the chunk's number is behind it
unfoldable pub grow : Chunk → Reordering → Reordering
grow c s =
    if leb s.chunks_per_anchor_max c.sequence.l1num
    then record s {
      chunks_per_anchor = λ i. if ltb i s.chunks_per_anchor_max then s.chunks_per_anchor i else 0;
      chunks_per_anchor_max = 2 * s.chunks_per_anchor_max % 2 ^ 32;
    }
    else s

-- the number of chunks of a coarse chunk, which its last one tells
unfoldable pub count_chunks : Chunk → Reordering → Option Reordering
count_chunks c s =
    if not c.is_last_l2_chunk
    then some s
    else if ltb c.sequence.l1num s.chunks_per_anchor_max
        && (s.chunks_per_anchor c.sequence.l1num == 0)
    then some (record s {
      chunks_per_anchor =
          store s.chunks_per_anchor c.sequence.l1num ((c.sequence.l2num + 1) % 2 ^ 32);
    })
    else none

-- a chunk that is not next goes into the queue for its first number; `memory` is that of a new queue
unfoldable pub keep_chunk : Memory (Option Chunk) → Chunk → Reordering → Option Reordering
keep_chunk memory c s = elim (tree_find c.sequence.l1num s.t) [
  | none ↦ elim (initialize memory initial_search_tree_size) [
    | none ↦ none
    | some h ↦ some (record s {
      t = tree_insert true (record { l1num = c.sequence.l1num; queue = s.allocated }) s.t;
      queues = store s.queues s.allocated (insert c h);
      allocated = s.allocated + 1;
    })
  ]
  | some pos ↦ some (record s { queues = store s.queues pos.queue (insert c (s.queues pos.queue)) })
]

-- from the chunk received to the `continue`, or to the loop that writes
unfoldable pub receive : Memory (Option Chunk) → Chunk → Reordering → Option Reordering
unfolding grow count_chunks keep_chunk
receive memory c s = elim (count_chunks c (grow c s)) [
  | none ↦ none
  | some s' ↦
      if not (sequence_eq c.sequence s'.next)
      then keep_chunk memory c s'
      else some (record s' { pos = tree_find_min s'.t; chunk = some c })
]

-- the number behind `next`
unfoldable pub advance : Reordering → Option Sequence
advance s =
    let n = sequence_inc_l2 s.next in
    if ltb n.l1num s.chunks_per_anchor_max
    then some (
        if not (s.chunks_per_anchor n.l1num == 0) && (n.l2num == s.chunks_per_anchor n.l1num)
        then sequence_inc_l1 n
        else n)
    else none

-- the least chunk at `pos` leaves its queue, and an empty queue the tree
unfoldable pub take_least : TreeElement ℕ → Chunk → Reordering → Option Reordering
take_least pos c s = elim (delete_min (s.queues pos.queue)) [
  | none ↦ none
  | some r ↦
      if is_empty r.1
      then (let t = tree_delete pos s.t in
          some (record s {
            queues = store s.queues pos.queue r.1;
            t = t;
            pos = tree_find_min t;
            chunk = some c;
          }))
      else some (record s { queues = store s.queues pos.queue r.1; chunk = some c })
]

-- whether more can be written from the cache
unfoldable pub look_up : Reordering → Option Reordering
unfolding take_least
look_up s = elim s.pos [
  | none ↦ some (record s { chunk = none })
  | some pos ↦
      if pos.l1num == s.next.l1num
      then elim (find_min (s.queues pos.queue)) [
        | none ↦ none
        | some c ↦
            if sequence_eq c.sequence s.next
            then take_least pos c s
            else some (record s { chunk = none })
      ]
      else some (record s { chunk = none })
]

-- the call of write_chunk_to_file, and the number behind it
unfoldable pub write_next : Chunk → Reordering → Option Reordering
unfolding advance
write_next c s = elim (advance s) [
  | none ↦ none
  | some n ↦ some (record s { next = n; written = c ∷ s.written; chunk = none })
]

-- one round of the loop that writes, on the chunk `c`
unfoldable pub write_round : Chunk → Reordering → Option Reordering
unfolding write_next look_up
write_round c s = elim (write_next c s) [ none ↦ none | some s' ↦ look_up s' ]

-- one round of the loop behind the last chunk received, with the least element of the tree
unfoldable pub flush_round : TreeElement ℕ → Reordering → Option Reordering
unfolding take_least write_next
flush_round pos s =
    if pos.l1num == s.next.l1num
    then elim (find_min (s.queues pos.queue)) [
      | none ↦ none
      | some c ↦
          if sequence_eq c.sequence s.next
          then elim (take_least pos c s) [ none ↦ none | some s' ↦ write_next c s' ]
          else none
    ]
    else none

-- the variables at the start
unfoldable pub start : Memory PriorityQueue → Reordering
start queues = record {
  t = leaf;
  queues = queues;
  allocated = 0;
  next = record { l1num = 0; l2num = 0 };
  chunks_per_anchor = λ _. 0;
  chunks_per_anchor_max = 1024;
  pos = none;
  chunk = none;
  written = [];
}

-- a round of one of the loops: a chunk arrives, one is written, or the cache is flushed at the end;
-- the second loop sets `pos` where the first one leaves it, to the least element
pub data Round (s : Reordering) : Reordering → Type 0 where
  received :
      (memory : Memory (Option Chunk)) (c : Chunk) (s' : Reordering)
      → s.chunk ≡ none
      → receive memory c s ≡ some s'
      → Round s s'
  wrote : (c : Chunk) (s' : Reordering) → s.chunk ≡ some c → write_round c s ≡ some s' → Round s s'
  ends : s.chunk ≡ none → Round s (record s { pos = tree_find_min s.t })
  flushed :
      (pos : TreeElement ℕ) (s' : Reordering)
      → s.chunk ≡ none
      → s.pos ≡ some pos
      → flush_round pos s ≡ some s'
      → Round s s'

pub data Rounds (s : Reordering) : Reordering → Type 0 where
  none_yet : Rounds s s
  one_more : (s' s'' : Reordering) → Rounds s s' → Round s' s'' → Rounds s s''
