-- ===== src/Tests/Workers.antt =====
-- The threads Deduplicate and Compress on two equal chunks, which wait in the local ring of the input
-- view; the only producer of the stage before has ended.
use npb_sync.Prelude.{List, ℕ, zero, suc, ◌≡◌, refl, Bool, true, false, [], ◌∷◌, arith}
use npb_sync.Ring.{Ring, empty, full, pop as pop_ring, push as push_ring}
use npb_sync.NaiveQueue.Local.{empty_local, full_local, push_local, pop_local, resize}
use npb_sync.NaiveQueue.Master.{
  Master, Attempt, waits, returned, terminated, terminate, fill_local, drain_local,
  enqueue_no_timing, dequeue_no_timing, timed_dequeue_no_timing,
}
use npb_sync.NaiveQueue.Client.{
  Impl, pop, pop_end, pop_filled, push_begin, push_end, push_handed, force_push, force_pushed,
  terminate_round, reconfigure, cross_pop_no_timing,
}
use npb_sync.NaiveQueue.Views.{HasRoom}
use npb_sync.Dedup.Chunk.{compress_gzip}
use npb_sync.Dedup.Files.{number_of}
use npb_sync.Dedup.HashTable.{hashtable_search, hashtable_insert, mix}
use npb_sync.Dedup.EncodeCommon.{
  Encoder, hash_from_key_fn, keys_equal_fn, sub_deduplicate, sub_compress,
}
use npb_sync.Dedup.Archive.{loaded}
use npb_sync.Dedup.Workers.{
  Lane, put, flush, force, close, Deduplicator, popping, ended, count_row, send_chunk,
  deduplicate_popped, deduplicate_step,
}
use npb_sync.Dedup.Workers.Lanes.{IsLane}
use npb_sync.Dedup.Workers.Deduplicating.{chosen, history}
use npb_sync.Dedup.Workers.Deduplicating.Delivered
use npb_sync.Dedup.Workers.Deduplicating.Delivered.{deduplicated_lem}
use npb_sync.Dedup.Workers.Deduplicating.Waiting.{WaitsFor, waits_lem}
use npb_sync.Dedup.Workers.Compress.{
  CompressWorker, compressed_chunk, compress_popped, compress_step,
}
use npb_sync.Dedup.Workers.Compress
use npb_sync.Dedup.Workers.Compressing
use npb_sync.Dedup.Workers.Compressing.{compressed_all_lem}
use npb_sync.Tests.Archives.{libraries, pieces_of, unset, cache, header}

-- a ring with the numbers from 0 on
abbrev ring : ℕ → ℕ → Ring ℕ
ring cells n = record {
  memory = λ i. i;
  allocated = cells;
  n_elements = n;
  size = 4;
  head = n;
  tail = 0;
}

abbrev view : ℕ → Bool → Impl ℕ
view n producer = record {
  ring = ring 1_000_000 n;
  producer = producer;
  new_step = 3;
  need_reconfigure = false;
  reconfigured = false;
}

abbrev master : ℕ → Master ℕ
master terminated = record {
  buf = ring 4 0;
  n_producers = 1;
  n_consumers = 1;
  n_terminated = terminated;
}

abbrev lane : Lane
lane = record { master = master 0; view = view 0 true; given = [] }

lane-IsLane : IsLane lane []
lane-IsLane = record { all = refl; sound = ground arith; valid = ground arith; roomy = omega arith }

lane-HasRoom : HasRoom lane.view
lane-HasRoom = omega arith

abbrev encoder : Encoder
encoder = record { chunks = loaded pieces_of (λ _. unset); cache = cache; out = header }

abbrev deduplicator : Deduplicator
deduplicator = record {
  input = master 1;
  input_view = view 2 false;
  output = lane;
  extra = lane;
  in_a_row = 0;
  last_was_compressed = false;
  task = popping;
}

settle : {A : Type 0} → A → Attempt A → A
settle a waits = a
settle a (returned b) = b

logged_step : {A B : Type 0} → A → A → Attempt B → A
logged_step old new waits = old
logged_step old new (returned b) = new

deduplicate_run : ℕ → Encoder × Deduplicator
unfolding settle
deduplicate_run zero = (encoder, deduplicator)
deduplicate_run (suc n) =
    let p = deduplicate_run n in settle p (deduplicate_step libraries p.0 p.1 p.1.task)

deduplicate_log : ℕ → List (ℕ × Bool)
unfolding settle
deduplicate_log zero = []
deduplicate_log (suc n) =
    let p = deduplicate_run n in
    logged_step (deduplicate_log n) (history libraries p.0 p.1 (deduplicate_log n) p.1.task)
      (deduplicate_step libraries p.0 p.1 p.1.task)

abbrev Reaches : List (ℕ × Bool) → Encoder × Deduplicator → Type 0
Reaches log p = Delivered.Reach libraries encoder deduplicator log p.0 p.1

deduplicate_reach : (n : ℕ) → Reaches (deduplicate_log n) (deduplicate_run n)
unfolding deduplicate_run deduplicate_log settle logged_step
deduplicate_reach zero = Delivered.start
deduplicate_reach (suc n) = go (deduplicate_reach n) _ refl
  where
    go :
        Reaches (deduplicate_log n) (deduplicate_run n)
        → (a : Attempt (Encoder × Deduplicator))
        → deduplicate_step libraries
            (deduplicate_run n).0
            (deduplicate_run n).1
            (deduplicate_run n).1.task
          ≡ a
        → Reaches
            (logged_step
              (deduplicate_log n)
              (history libraries
                (deduplicate_run n).0
                (deduplicate_run n).1
                (deduplicate_log n)
                (deduplicate_run n).1.task)
              a)
            (settle (deduplicate_run n) a)
    go r waits e = r
    go r (returned b) e = Delivered.thread r e

deduplicate_ends : (deduplicate_run 9).1.task ≡ ended
unfolding deduplicate_run settle deduplicate_step deduplicate_popped send_chunk count_row put flush
    force close sub_deduplicate hashtable_search hashtable_insert mix hash_from_key_fn number_of
    keys_equal_fn pop pop_end pop_filled push_begin push_end push_handed force_push force_pushed
    terminate_round reconfigure empty_local full_local push_local pop_local resize terminated
    terminate fill_local drain_local enqueue_no_timing dequeue_no_timing empty full pop_ring
    push_ring loaded
deduplicate_ends = refl

-- The first chunk is new, and the second one a duplicate of it.
deduplicated_run :
    ((deduplicate_run 9).1.output.given ≡ 0 ∷ []) × ((deduplicate_run 9).1.extra.given ≡ 1 ∷ [])
unfolding deduplicate_run settle deduplicate_step deduplicate_popped send_chunk count_row put flush
    force close sub_deduplicate hashtable_search hashtable_insert mix hash_from_key_fn number_of
    keys_equal_fn pop pop_end pop_filled push_begin push_end push_handed force_push force_pushed
    terminate_round reconfigure empty_local full_local push_local pop_local resize terminated
    terminate fill_local drain_local enqueue_no_timing dequeue_no_timing empty full pop_ring
    push_ring loaded
deduplicated_run = (refl, refl)

deduplicated_lem_example :
    ((deduplicate_run 9).1.output.given ≡ chosen false (deduplicate_log 9))
    × ((deduplicate_run 9).1.extra.given ≡ chosen true (deduplicate_log 9))
deduplicated_lem_example =
    deduplicated_lem libraries encoder deduplicator refl lane-IsLane lane-IsLane lane-HasRoom
      lane-HasRoom (deduplicate_reach 9) deduplicate_ends

-- The thread has come to its first `terminate`, and others have filled the shared ring to Compress.
abbrev blocked : Encoder × Deduplicator
blocked =
    let p = deduplicate_run 5 in
    (
      p.0,
      record p.1 {
        input = master 1;
        input_view = view 0 false;
        output = record p.1.output { master = record (master 0) { buf = ring 4 3 } };
        extra = record p.1.extra { master = master 0 };
      },
    )

blocked_reach : Reaches (deduplicate_log 5) blocked
blocked_reach =
    let p = deduplicate_run 5 in
    Delivered.others p.0 (master 1) (record (master 0) { buf = ring 4 3 }) (master 0) (view 0 false)
      (deduplicate_reach 5) (ground arith) (ground arith)

waits_lem_example : WaitsFor blocked.1 blocked.1.task
unfolding deduplicate_run settle deduplicate_step deduplicate_popped send_chunk count_row put flush
    force close sub_deduplicate hashtable_search hashtable_insert mix hash_from_key_fn number_of
    keys_equal_fn pop pop_end pop_filled push_begin push_end push_handed force_push force_pushed
    terminate_round reconfigure empty_local full_local push_local pop_local resize terminated
    terminate fill_local drain_local enqueue_no_timing dequeue_no_timing empty full pop_ring
    push_ring loaded
waits_lem_example =
    waits_lem libraries encoder deduplicator refl lane-IsLane lane-IsLane lane-HasRoom lane-HasRoom
      blocked_reach (ground arith) (ground arith) refl

abbrev compressor : CompressWorker
compressor = record {
  input = master 1;
  input_view = view 2 false;
  output = lane;
  task = Compress.popping;
}

compress_run : ℕ → Encoder × CompressWorker
unfolding settle
compress_run zero = (encoder, compressor)
compress_run (suc n) =
    let p = compress_run n in settle p (compress_step libraries compress_gzip true p.0 p.1 p.1.task)

compress_log : ℕ → List ℕ
compress_log zero = []
compress_log (suc n) =
    let p = compress_run n in
    logged_step (compress_log n) (Compressing.history true p.1 (compress_log n) p.1.task)
      (compress_step libraries compress_gzip true p.0 p.1 p.1.task)

abbrev Comes : List ℕ → Encoder × CompressWorker → Type 0
Comes log p = Compressing.Reach libraries compress_gzip encoder compressor log p.0 p.1

compress_reach : (n : ℕ) → Comes (compress_log n) (compress_run n)
unfolding compress_run compress_log settle logged_step
compress_reach zero = Compressing.start
compress_reach (suc n) = go (compress_reach n) _ refl
  where
    go :
        Comes (compress_log n) (compress_run n)
        → (a : Attempt (Encoder × CompressWorker))
        → compress_step libraries compress_gzip true
            (compress_run n).0
            (compress_run n).1
            (compress_run n).1.task
          ≡ a
        → Comes
            (logged_step
              (compress_log n)
              (Compressing.history true (compress_run n).1 (compress_log n) (compress_run n).1.task)
              a)
            (settle (compress_run n) a)
    go r waits e = r
    go r (returned b) e = Compressing.thread true r e

compress_ends :
    ((compress_run 7).1.task ≡ Compress.ended) × ((compress_run 7).1.output.given ≡ 0 ∷ 1 ∷ [])
unfolding compress_run settle compress_step compress_popped compressed_chunk put flush force close
    sub_compress cross_pop_no_timing pop pop_end pop_filled push_begin push_end push_handed
    force_push force_pushed terminate_round reconfigure empty_local full_local push_local pop_local
    resize terminated terminate fill_local drain_local enqueue_no_timing dequeue_no_timing
    timed_dequeue_no_timing empty full pop_ring push_ring loaded
compress_ends = (refl, refl)

compressed_all_lem_example : (compress_run 7).1.output.given ≡ compress_log 7
compressed_all_lem_example =
    compressed_all_lem libraries compress_gzip encoder compressor refl lane-IsLane lane-HasRoom
      (compress_reach 7) compress_ends.0
