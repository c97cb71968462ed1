-- ===== src/Tests/Layers.antt =====
-- The queues of a layer Deduplicate of two threads and of a layer Compress of one: the queue 3 goes to
-- Compress, and the queue 5 to Reorder.
use npb_sync.Prelude.{ℕ, ◌+◌, ◌≡◌, refl, not, ◌==◌, [], ◌∷◌, some, arith}
use npb_sync.NaiveQueue.Master.{Master, create, terminated}
use npb_sync.Ring.{init}
use npb_sync.Dedup.Layers.{
  ThreadData, LayerData, assign, has, push_input, push_output, push_extra, push_thread, add_one,
  insert_id, insert_keys, insert_each, get_total_threads, producing_loop, get_producing_threads,
  interacting_loop, get_interacting_threads, compute_fifo_ids_for_layer,
  compute_fifo_ids_for_reorder, nb_producers_for_fifo, nb_producers_for_reorder_fifo,
}
use npb_sync.Dedup.Layers.Producers.{member, n_outputs, n_extras, ends, queues_lem, closed_lem}

abbrev idle : ThreadData ℕ
idle = record { inputs = []; outputs = []; extras = [] }

abbrev thread : ThreadData ℕ
thread = record idle { inputs = (1, 10) ∷ []; outputs = (3, 10) ∷ []; extras = (5, 10) ∷ [] }

abbrev deduplicate : LayerData ℕ
deduplicate = record { thread_data = thread ∷ thread ∷ [] }

abbrev compress : LayerData ℕ
compress = record { thread_data = record idle { outputs = (5, 10) ∷ [] } ∷ [] }

built :
    push_thread thread (
      push_thread
        (push_extra 5 10 (push_output 3 10 (push_output 3 11 (push_input 1 10 idle))))
        (record { thread_data = [] }))
    ≡ deduplicate
unfolding push_thread push_extra push_output push_input assign
built = refl

layers_run :
    (compute_fifo_ids_for_layer [] deduplicate ≡ 3 ∷ [])
    × (compute_fifo_ids_for_reorder (7 ∷ []) deduplicate compress ≡ 5 ∷ 7 ∷ [])
    × (get_producing_threads 5 deduplicate ≡ 2)
    × (get_interacting_threads 1 deduplicate ≡ 2)
    × (get_total_threads deduplicate ≡ 2)
unfolding compute_fifo_ids_for_layer compute_fifo_ids_for_reorder get_producing_threads
    producing_loop get_interacting_threads interacting_loop insert_each insert_keys insert_id has
    add_one get_total_threads
layers_run = (refl, refl, refl, refl, refl)

queues_lem_example :
    let made = nb_producers_for_reorder_fifo 5 deduplicate compress in
    (member 5 (compute_fifo_ids_for_layer [] deduplicate)
      ≡ not (nb_producers_for_fifo 5 deduplicate == 0))
    × (member 5 (compute_fifo_ids_for_reorder [] deduplicate compress) ≡ not (made == 0))
    × (made ≡ n_extras 5 deduplicate + n_outputs 5 compress)
    × (get_producing_threads 5 deduplicate ≡ n_outputs 5 deduplicate + n_extras 5 deduplicate)
queues_lem_example = queues_lem 5 deduplicate compress (omega arith)

abbrev created : Master ℕ
created = record {
  buf = record { memory = λ i. 0; allocated = 4; n_elements = 0; size = 4; head = 0; tail = 0 };
  n_producers = 2;
  n_consumers = 0;
  n_terminated = 0;
}

-- two threads put duplicates into the queue 5
closed_lem_example :
    terminated (ends 2 created) ≡ (n_outputs 5 deduplicate + n_extras 5 deduplicate == 2)
unfolding create init get_producing_threads producing_loop has add_one
closed_lem_example = closed_lem 5 2 deduplicate (some (λ i. 0)) 3 created (omega arith) refl
