-- ===== src/Dedup/Layers/Producers.antt =====
-- The queues of a layer of src/dedup/encode_naive_queue.cpp, which are made for the ids that
-- src/dedup/encode_common.cpp computes, and the number of producers with which they are made.
use npb_sync.Prelude.{
  ℕ, zero, suc, ◌+◌, ◌*◌, ◌^◌, ◌≤◌, ◌<◌, ◌≡◌, refl, Bool, true, false, not, ◌||◌, Option, some,
  List, [], ◌∷◌, length, ◌==◌, if◌then◌else◌, arith,
}
use npb_sync.Memory.{Memory}
use npb_sync.NaiveQueue.Master.{Master, create, terminate, terminated}
use npb_sync.Dedup.Layers.{
  ThreadData, LayerData, insert_id, add_one, has, producing_loop, get_producing_threads,
  insert_keys, insert_each, compute_fifo_ids_for_layer, compute_fifo_ids_for_reorder, count_each,
  nb_producers_for_fifo, nb_producers_for_reorder_fifo,
}

-- whether a set has the id
abbrev pub member : ℕ → List ℕ → Bool
member id [] = false
member id (x ∷ xs) = (id == x) || member id xs

-- the number of elements that pass the test
abbrev pub count {ℓ} : {A : Type ℓ} → (A → Bool) → List A → ℕ
count p [] = 0
count p (x ∷ xs) = if p x then count p xs + 1 else count p xs

count_le {ℓ} : {A : Type ℓ} (p : A → Bool) (xs : List A) → count p xs ≤ length xs
count_le p [] = omega arith
count_le p (x ∷ xs) = ground (arith, count_le p xs)

or_assoc : (a b c : Bool) → (a || b) || c ≡ a || (b || c)
or_assoc true b c = refl
or_assoc false b c = refl

member-insert_id :
    (id x : ℕ) (ids : List ℕ) → member id (insert_id x ids) ≡ member id ids || (id == x)
unfolding insert_id
member-insert_id id x [] = ground arith
member-insert_id id x (y ∷ ids) = ground (arith, member-insert_id id x ids)

module _ {ℓ} {A : Type ℓ} where
  member-insert_keys :
      (id : ℕ) (m : List (ℕ × A)) (ids : List ℕ)
      → member id (insert_keys ids m) ≡ member id ids || has id m
  unfolding insert_keys has
  member-insert_keys id [] ids = ground arith
  member-insert_keys id ((x, fifo_data) ∷ m) ids =
      rw (member-insert_keys id m (insert_id x ids), member-insert_id id x ids) (ground arith)

  member-insert_each :
      (id : ℕ) (side : ThreadData A → List (ℕ × A)) (ts : List (ThreadData A)) (ids : List ℕ)
      → member id (insert_each side ids ts)
        ≡ member id ids || not (count (λ t. has id (side t)) ts == 0)
  unfolding insert_each
  member-insert_each id side [] ids = ground arith
  member-insert_each id side (t ∷ ts) ids =
      rw
        (
          member-insert_each id side ts (insert_keys ids (side t)),
          member-insert_keys id (side t) ids,
        )
        (ground arith)

  count_each_lem :
      (id : ℕ) (side : ThreadData A → List (ℕ × A)) (ts : List (ThreadData A)) (total : ℕ)
      → total + length ts < 2 ^ 32
      → count_each id side ts total ≡ total + count (λ t. has id (side t)) ts
  unfolding count_each add_one
  count_each_lem id side [] total h = omega arith
  count_each_lem id side (t ∷ ts) total h =
      ground (arith, count_each_lem id side ts (add_one (has id (side t)) total))

  producing_loop_lem :
      (id : ℕ) (ts : List (ThreadData A)) (total : ℕ)
      → total + 2 * length ts < 2 ^ 32
      → producing_loop id ts total
        ≡ total + count (λ t. has id t.outputs) ts + count (λ t. has id t.extras) ts
  unfolding producing_loop add_one
  producing_loop_lem id [] total h = omega arith
  producing_loop_lem id (t ∷ ts) total h = ground (
    arith,
    producing_loop_lem id ts (add_one (has id t.extras) (add_one (has id t.outputs) total)),
  )

  -- the threads of a layer that have the queue as an output, and those that have it as an extra
  abbrev pub n_outputs : ℕ → LayerData A → ℕ
  n_outputs id layer = count (λ t. has id t.outputs) layer.thread_data

  abbrev pub n_extras : ℕ → LayerData A → ℕ
  n_extras id layer = count (λ t. has id t.extras) layer.thread_data

  -- Of two layers that have fewer than 2^31 threads together: the computed ids of a layer are exactly
  -- those for which it has a producer, the computed ids of the queues to the stage Reorder are exactly
  -- those into which a thread puts duplicates or compressed chunks, and such a queue has as many
  -- producers as there are threads of either kind. `get_producing_threads` counts a thread of a layer
  -- once if it has the queue as an output, and once more if it has it as an extra.
  pub queues_lem :
      (id : ℕ) (deduplicate compress : LayerData A)
      → length deduplicate.thread_data + length compress.thread_data < 2 ^ 31
      → let made = nb_producers_for_reorder_fifo id deduplicate compress in
        (member id (compute_fifo_ids_for_layer [] deduplicate)
          ≡ not (nb_producers_for_fifo id deduplicate == 0))
        × (member id (compute_fifo_ids_for_reorder [] deduplicate compress) ≡ not (made == 0))
        × (made ≡ n_extras id deduplicate + n_outputs id compress)
        × (get_producing_threads id deduplicate
            ≡ n_outputs id deduplicate + n_extras id deduplicate)
  unfolding compute_fifo_ids_for_layer compute_fifo_ids_for_reorder nb_producers_for_reorder_fifo
      nb_producers_for_fifo get_producing_threads
  queues_lem id d c h =
      let extras = count_le (λ t. has id t.extras) d.thread_data in
      let outputs = count_le (λ t. has id t.outputs) c.thread_data in
      let e : count_each id (λ t. t.extras) d.thread_data 0 ≡ n_extras id d =
        ground (arith, count_each_lem id (λ t. t.extras) d.thread_data 0 (omega arith)) in
      let o : count_each id (λ t. t.outputs) c.thread_data 0 ≡ n_outputs id c =
        ground (arith, count_each_lem id (λ t. t.outputs) c.thread_data 0 (omega arith)) in
      let own : count_each id (λ t. t.outputs) d.thread_data 0 ≡ n_outputs id d =
        ground (arith, count_each_lem id (λ t. t.outputs) d.thread_data 0 (omega arith)) in
      let made : nb_producers_for_reorder_fifo id d c ≡ n_extras id d + n_outputs id c =
        ground (arith, e, o, extras, outputs) in
      (
        rw (member-insert_each id (λ t. t.outputs) d.thread_data [], own) refl,
        rw
            (
              made,
              member-insert_each id (λ t. t.outputs) c.thread_data
                  (insert_each (λ t. t.extras) [] d.thread_data),
              member-insert_each id (λ t. t.extras) d.thread_data [],
            )
            (ground arith),
        made,
        ground (arith, producing_loop_lem id d.thread_data 0 (omega arith)),
      )

  -- `terminate` has been called `k` times
  abbrev pub ends : ℕ → Master A → Master A
  ends zero m = m
  ends (suc k) m = (terminate (ends k m)).1

  ends_lem :
      (k : ℕ) (m : Master A)
      → ((ends k m).n_producers ≡ m.n_producers) × ((ends k m).n_terminated ≡ m.n_terminated + k)
  unfolding terminate
  ends_lem zero m = (refl, omega arith)
  ends_lem (suc k) m = ground (arith, ends_lem k m)

  create_lem :
      (array : Option (Memory A)) (size producers : ℕ) (m : Master A)
      → create array size producers ≡ some m
      → (m.n_producers ≡ producers) × (m.n_terminated ≡ 0)
  unfolding create
  create_lem array size producers m e = ground arith

  -- A queue that is created for a layer of fewer than 2^31 threads, and on which `terminate` has been
  -- called `k` times, counts as terminated exactly if `k` is the number of threads of the layer that
  -- have it as an output plus that of those that have it as an extra.
  pub closed_lem :
      (id k : ℕ) (layer : LayerData A) (array : Option (Memory A)) (size : ℕ) (m : Master A)
      → length layer.thread_data < 2 ^ 31
      → create array size (get_producing_threads id layer) ≡ some m
      → terminated (ends k m) ≡ (n_outputs id layer + n_extras id layer == k)
  unfolding create terminated get_producing_threads
  closed_lem id k layer array size m h e =
      let made = create_lem array size (get_producing_threads id layer) m e in
      let all = producing_loop_lem id layer.thread_data 0 (omega arith) in
      let over = ends_lem k m in ground (arith, made, all, over)
