-- ===== src/Dedup/Layers.antt =====
-- The description of the threads of the program, of src/dedup/lua_core.h and lua_core.cpp, and the
-- functions of src/dedup/encode_common.cpp that find the queues of a layer. The ids of queues are 0 and
-- above here; what is configured of a queue, `FIFOData`, is a type that these functions do not look
-- into. A `std::map` is the list of its entries by ascending keys, a `std::set` that of its elements.
pub mod Producers
use npb_sync.Prelude.{
  ℕ, ◌+◌, ◌%◌, ◌^◌, Bool, true, false, List, [], ◌∷◌, ◌++◌, length, ltb, ◌==◌, if◌then◌else◌,
}

pub record ThreadData {ℓ} (A : Type ℓ) : Type ℓ where
  pub inputs : List (ℕ × A)
  pub outputs : List (ℕ × A)
  pub extras : List (ℕ × A)

pub record LayerData {ℓ} (A : Type ℓ) : Type ℓ where
  pub thread_data : List (ThreadData A)

-- `insert` of a set
unfoldable pub insert_id : ℕ → List ℕ → List ℕ
insert_id id [] = id ∷ []
insert_id id (x ∷ xs) =
    let rest = insert_id id xs in
    if ltb id x then id ∷ x ∷ xs else (if id == x then x ∷ xs else x ∷ rest)

-- `total` with one added if the flag is set, an `unsigned int`
unfoldable pub add_one : Bool → ℕ → ℕ
add_one flag total = if flag then (total + 1) % 2 ^ 32 else total

module _ {ℓ} {A : Type ℓ} where
  -- `m.find(id) != m.end()`
  unfoldable pub has : ℕ → List (ℕ × A) → Bool
  has id [] = false
  has id ((x, fifo_data) ∷ m) = let rest = has id m in if id == x then true else rest

  -- `m[id] = data`
  unfoldable pub assign : ℕ → A → List (ℕ × A) → List (ℕ × A)
  assign id fifo_data [] = (id, fifo_data) ∷ []
  assign id fifo_data ((x, old) ∷ m) =
      let rest = assign id fifo_data m in
      if ltb id x
      then (id, fifo_data) ∷ (x, old) ∷ m
      else (if id == x then (x, fifo_data) ∷ m else (x, old) ∷ rest)

  unfoldable pub push_input : ℕ → A → ThreadData A → ThreadData A
  push_input id fifo_data t = record t { inputs = assign id fifo_data t.inputs }

  unfoldable pub push_output : ℕ → A → ThreadData A → ThreadData A
  push_output id fifo_data t = record t { outputs = assign id fifo_data t.outputs }

  unfoldable pub push_extra : ℕ → A → ThreadData A → ThreadData A
  push_extra id fifo_data t = record t { extras = assign id fifo_data t.extras }

  unfoldable pub push_thread : ThreadData A → LayerData A → LayerData A
  push_thread t layer = record { thread_data = layer.thread_data ++ t ∷ [] }

  unfoldable pub get_total_threads : LayerData A → ℕ
  get_total_threads layer = length layer.thread_data % 2 ^ 32

  unfoldable pub producing_loop : ℕ → List (ThreadData A) → ℕ → ℕ
  unfolding add_one has
  producing_loop id [] total = total
  producing_loop id (t ∷ ts) total =
      producing_loop id ts (add_one (has id t.extras) (add_one (has id t.outputs) total))

  unfoldable pub get_producing_threads : ℕ → LayerData A → ℕ
  unfolding producing_loop
  get_producing_threads id layer = producing_loop id layer.thread_data 0

  unfoldable pub interacting_loop : ℕ → List (ThreadData A) → ℕ → ℕ
  unfolding add_one has
  interacting_loop id [] total = total
  interacting_loop id (t ∷ ts) total =
      interacting_loop id ts
        (add_one (has id t.extras) (add_one (has id t.outputs) (add_one (has id t.inputs) total)))

  unfoldable pub get_interacting_threads : ℕ → LayerData A → ℕ
  unfolding interacting_loop
  get_interacting_threads id layer = interacting_loop id layer.thread_data 0

  -- the inner loop, over one map
  unfoldable pub insert_keys : List ℕ → List (ℕ × A) → List ℕ
  unfolding insert_id
  insert_keys ids [] = ids
  insert_keys ids ((id, fifo_data) ∷ m) = insert_keys (insert_id id ids) m

  -- The loops of the following functions run over the outputs or the extras of each thread.
  unfoldable pub insert_each : (ThreadData A → List (ℕ × A)) → List ℕ → List (ThreadData A) → List ℕ
  unfolding insert_keys
  insert_each side ids [] = ids
  insert_each side ids (t ∷ ts) = insert_each side (insert_keys ids (side t)) ts

  unfoldable pub compute_fifo_ids_for_layer : List ℕ → LayerData A → List ℕ
  unfolding insert_each
  compute_fifo_ids_for_layer ids layer = insert_each (λ t. t.outputs) ids layer.thread_data

  unfoldable pub compute_fifo_ids_for_reorder : List ℕ → LayerData A → LayerData A → List ℕ
  unfolding insert_each
  compute_fifo_ids_for_reorder ids deduplicate compress =
      insert_each (λ t. t.outputs) (insert_each (λ t. t.extras) ids deduplicate.thread_data)
        compress.thread_data

  unfoldable pub count_each : ℕ → (ThreadData A → List (ℕ × A)) → List (ThreadData A) → ℕ → ℕ
  unfolding add_one has
  count_each id side [] total = total
  count_each id side (t ∷ ts) total = count_each id side ts (add_one (has id (side t)) total)

  unfoldable pub nb_producers_for_fifo : ℕ → LayerData A → ℕ
  unfolding count_each
  nb_producers_for_fifo id layer = count_each id (λ t. t.outputs) layer.thread_data 0

  unfoldable pub nb_producers_for_reorder_fifo : ℕ → LayerData A → LayerData A → ℕ
  unfolding count_each nb_producers_for_fifo
  nb_producers_for_reorder_fifo id deduplicate compress =
      (count_each id (λ t. t.extras) deduplicate.thread_data 0 + nb_producers_for_fifo id compress)
      % 2 ^ 32

  -- The sums of the class DedupData, over the layers in the order of their map.
  unfoldable pub add_layers : (LayerData A → ℕ) → List (LayerData A) → ℕ → ℕ
  add_layers of_layer [] total = total
  add_layers of_layer (layer ∷ layers) total =
      add_layers of_layer layers ((total + of_layer layer) % 2 ^ 32)

  unfoldable pub all_threads : List (LayerData A) → ℕ
  unfolding add_layers get_total_threads
  all_threads layers = add_layers get_total_threads layers 0

  unfoldable pub all_producing_threads : ℕ → List (LayerData A) → ℕ
  unfolding add_layers get_producing_threads
  all_producing_threads id layers = add_layers (get_producing_threads id) layers 0

  unfoldable pub all_interacting_threads : ℕ → List (LayerData A) → ℕ
  unfolding add_layers get_interacting_threads
  all_interacting_threads id layers = add_layers (get_interacting_threads id) layers 0
