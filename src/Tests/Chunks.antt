-- ===== src/Tests/Chunks.antt =====
-- The FIFO of src/smart_fifo.h on concrete inputs.
use npb_sync.Prelude.{ℕ, ◌≡◌, ◌≢◌, true, false, some, List, [], ◌∷◌, ◌++◌, arith}
use npb_sync.SmartFifo.Semaphore.{Semaphore}
use npb_sync.SmartFifo.Chunk.{Chunk}
use npb_sync.SmartFifo.Chain.{Fifo, pop_fifo}
use npb_sync.SmartFifo.Chain.Order.{FifoPopped, pop_fifo_lem}
use npb_sync.SmartFifo.Elements.{Elements, set_ranges, IsReady, set_ranges_lem}
use npb_sync.SmartFifo.Proxy.{pop_proxy, Proxy, push_proxy}
use npb_sync.SmartFifo.Proxy.Consumption.{ProxyPopped, pop_proxy_lem}
use npb_sync.SmartFifo.Proxy.Delivery.{IsFilling, sent, push_proxy_lem}

abbrev five : Semaphore
five = record { value = 5; finished = false }

abbrev chunk : List ℕ → Chunk ℕ
chunk xs = record { size = 2; nb_elements = 2; available = xs }

-- an empty chunk, one with two elements, and one with one
abbrev chain : Fifo ℕ
chain = record {
  chunks = chunk [] ∷ chunk (1 ∷ 2 ∷ []) ∷ chunk (3 ∷ []) ∷ [];
  nb_producers_done = 1;
  sem = five;
}

chain_some : chain.chunks ≢ []
chain_some h = absurd (ground (arith, h))

pop_fifo_lem_example :
    FifoPopped true chain 3 (pop_fifo true true chain 3).0 (pop_fifo true true chain 3).1
pop_fifo_lem_example = pop_fifo_lem true chain 3 chain_some (omega arith)

abbrev ranges : Elements ℕ
ranges = record {
  ranges = (1 ∷ 2 ∷ []) ∷ [] ∷ (3 ∷ []) ∷ [];
  rest = (1 ∷ 2 ∷ []) ∷ [] ∷ (3 ∷ []) ∷ [];
  index = 0;
}

ranges-IsReady : IsReady ranges
unfolding set_ranges
ranges-IsReady = (set_ranges_lem (1 ∷ 2 ∷ []) ([] ∷ (3 ∷ []) ∷ []) (omega arith)).0

-- a producer with a step of 2 that will be changed to 4, and a full chunk
abbrev producer : Proxy ℕ
producer = record {
  step = 2;
  elements = ranges;
  chunk = chunk (7 ∷ 8 ∷ []);
  over = false;
  reconfigure = true;
  change_after = 3;
  new_step = 4;
  inserted = 0;
  removed = 0;
  changed = false;
}

producer-IsFilling : IsFilling producer
producer-IsFilling = ground arith

push_proxy_lem_example :
    (n : ℕ) × (p' : Proxy ℕ) × (f' : Fifo ℕ) × (push_proxy producer chain 9 ≡ some (n, p', f'))
    × IsFilling p'
    × (sent p' f' ≡ sent producer chain ++ 9 ∷ [])
push_proxy_lem_example = push_proxy_lem producer chain 9 producer-IsFilling

pop_proxy_lem_example :
    let (result, p', f') = pop_proxy true true true producer chain in
    ProxyPopped true producer chain result p' f'
pop_proxy_lem_example =
    pop_proxy_lem true true producer chain ranges-IsReady (omega arith) chain_some
