-- ===== src/Dedup/Reorder/Order.antt =====
-- The chunks that ReorderDefault of src/dedup/encode_default.cpp writes stand in the order of their
-- sequence numbers, in whatever order they arrive.
use npb_sync.Prelude.{
  ◌+◌, ◌%◌, ◌^◌, if◌then◌else◌, ℕ, ◌≡◌, ◌⊎◌, none, some, List, [], ◌∷◌, not, ◌&&◌, ◌==◌,
}
use npb_sync.Memory.{Memory}
use npb_sync.Dedup.Chunk.{Chunk}
use npb_sync.Dedup.Sequence.{Sequence}
use npb_sync.Dedup.Reorder.{
  Reordering, Round, received, wrote, ends, flushed, Rounds, none_yet, one_more,
}

-- the number behind `n`, if the array `told` has the numbers of chunks of the coarse chunks as far as
-- they are known, and 0 for the others: the next one in its coarse chunk, or behind the last one of it
-- the first one of the next coarse chunk
unfoldable pub successor : Memory ℕ → Sequence → Sequence
successor told n =
    let l2 = (n.l2num + 1) % 2 ^ 32 in
    if not (told n.l1num == 0) && (l2 == told n.l1num)
    then record { l1num = (n.l1num + 1) % 2 ^ 32; l2num = 0 }
    else record { l1num = n.l1num; l2num = l2 }

-- The chunks, the latest first, count from (0, 0) to the number before `n`: each number is followed by
-- its successor by the array as it is when the chunk is written, `tables` being these arrays.
abbrev pub IsChain : List (Memory ℕ) → Sequence → List Chunk → Type 0
IsChain [] n [] = n ≡ record { l1num = 0; l2num = 0 }
IsChain [] n (c ∷ cs) = ⊥
IsChain (told ∷ tables) n [] = ⊥
IsChain (told ∷ tables) n (c ∷ cs) = (n ≡ successor told c.sequence) × IsChain tables c.sequence cs

pub record Ordered (tables : List (Memory ℕ)) (s : Reordering) : Type 0 where
  pub chain : IsChain tables s.next s.written
  pub head : (c : Chunk) → s.chunk ≡ some c → c.sequence ≡ s.next

-- what the steps leave alone
record Same (s s' : Reordering) : Type 0 where
  next : s'.next ≡ s.next
  written : s'.written ≡ s.written

-- the chunk taken out of the cache is the next one
Taken : Reordering → Reordering → Type 0
Taken s s' = (s'.chunk ≡ none) ⊎ ((c : Chunk) × (s'.chunk ≡ some c) × (c.sequence ≡ s.next))

-- the arrays at the rounds that write a chunk, the latest first
abbrev pub after_round : {s s' : Reordering} → List (Memory ℕ) → Round s s' → List (Memory ℕ)
after_round tables (received memory c s' idle h) = tables
after_round {s} tables (wrote c s' now h) = s.chunks_per_anchor ∷ tables
after_round tables (ends idle) = tables
after_round {s} tables (flushed pos s' idle at h) = s.chunks_per_anchor ∷ tables

abbrev pub tables_of : {s s' : Reordering} → Rounds s s' → List (Memory ℕ)
tables_of none_yet = []
tables_of (one_more s' s'' before last) = after_round (tables_of before) last
