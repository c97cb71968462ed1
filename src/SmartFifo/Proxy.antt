-- ===== src/SmartFifo/Proxy.antt =====
-- `SmartFIFO<T>` of src/smart_fifo.h, the end of a FIFO that one thread uses: a producer fills
-- `_chunk` before it is appended to the shared chain, a consumer goes through `_elements`.
-- The field `_nb_elements` is never used.
pub mod Delivery
pub mod Consumption
use npb_sync.Prelude.{
  ℕ, ◌+◌, ◌%◌, ◌^◌, Bool, true, false, ◌&&◌, not, Option, none, some, List, [], leb, ◌==◌,
  if◌then◌else◌, length, concat,
}
use npb_sync.NaiveQueue.Master.{Attempt, waits, returned}
use npb_sync.SmartFifo.Chunk.{Chunk, new_chunk, freeze, unsafe_push}
use npb_sync.SmartFifo.Chain.{Fifo, push_chunk, terminate_producer, pop_fifo}
use npb_sync.SmartFifo.Elements.{Elements, set_ranges, empty_elements, has_next, next}

pub record Proxy {ℓ} (A : Type ℓ) : Type ℓ where
  pub step : ℕ
  pub elements : Elements A
  pub chunk : Chunk A
  pub over : Bool
  pub reconfigure : Bool
  pub change_after : ℕ
  pub new_step : ℕ
  pub inserted : ℕ
  pub removed : ℕ
  pub changed : Bool

-- how a round of `pop` ends: the mutex was not obtained in time, and the call begins again after
-- it has pushed what its target holds; or with the number of elements at hand
pub data Prepared : Type 0 where
  late : Prepared
  prepared : Bool → ℕ → Bool → Prepared

module _ {ℓ} {A : Type ℓ} where
  unfoldable pub create_proxy : ℕ → Bool → ℕ → ℕ → Proxy A
  create_proxy step reconfigure change_after new_step = record {
    step = step;
    elements = set_ranges [];
    chunk = new_chunk step;
    over = false;
    reconfigure = reconfigure;
    change_after = change_after;
    new_step = new_step;
    inserted = 0;
    removed = 0;
    changed = false;
  }

  unfoldable pub reconfigure_step_push : Proxy A → ℕ → Proxy A
  reconfigure_step_push p added =
      let inserted' = (p.inserted + added) % 2 ^ 32 in
      if leb p.change_after inserted' && not p.changed
      then record p { inserted = inserted'; step = p.new_step; changed = true }
      else record p { inserted = inserted' }

  unfoldable pub reconfigure_step_pop : Proxy A → ℕ → Proxy A
  reconfigure_step_pop p taken =
      let removed' = (p.removed + taken) % 2 ^ 32 in
      if leb p.change_after removed' && not p.changed
      then record p { removed = removed'; step = p.new_step; changed = true }
      else record p { removed = removed' }

  -- what follows `push_chunk` of `n` elements: the step may change, and the chunk begins again
  unfoldable pub begin_chunk : Proxy A → ℕ → Proxy A
  unfolding reconfigure_step_push
  begin_chunk p n =
      let p' = if p.reconfigure then reconfigure_step_push p n else p in
      record p' { chunk = new_chunk p'.step }

  -- `none`: the FIFO is terminated, and `push` throws, or the size of the chunk is 0
  unfoldable pub push_proxy : Proxy A → Fifo A → A → Option (ℕ × Proxy A × Fifo A)
  unfolding begin_chunk
  push_proxy p f value =
      let filled : Option (ℕ × Proxy A × Fifo A) = elim (unsafe_push p.chunk value) [
        | none ↦ none
        | some (chunk, follower) ↦ elim follower [
          | none ↦ some (0, record p { chunk = chunk }, f)
          | some n ↦ some (
            p.step + 1,
            begin_chunk (record p { chunk = chunk }) (p.step + 1),
            push_chunk f chunk (some n) (p.step + 1),
          )
        ]
      ] in
      if p.over then none else filled

  unfoldable pub push_immediate : Proxy A → Fifo A → Proxy A × Fifo A
  unfolding begin_chunk
  push_immediate p f = (begin_chunk p p.step, push_chunk f p.chunk none p.step)

  unfoldable pub safe_push_immediate : Proxy A → Fifo A → Proxy A × Fifo A
  unfolding push_immediate
  safe_push_immediate p f = if p.chunk.nb_elements == 0 then (p, f) else push_immediate p f

  unfoldable pub terminate_proxy : Proxy A → Fifo A → Proxy A × Fifo A
  terminate_proxy p f = (
    record p { chunk = new_chunk p.step; over = true },
    terminate_producer (push_chunk f (freeze p.chunk) none p.chunk.nb_elements),
  )

  unfoldable pub elements_size : Elements A → ℕ
  elements_size e = length (concat e.ranges)

  -- `prepare_elements` after its call of `SmartFIFOImpl::pop`; `linked` as in `empty_elements`
  unfoldable pub refilled :
      Bool → Proxy A → Attempt (Bool × List (List A)) → Attempt Prepared × Proxy A
  unfolding reconfigure_step_pop elements_size
  refilled linked p waits = (waits, p)
  refilled linked p (returned (false, ranges)) = (returned late, p)
  refilled linked p (returned (true, ranges)) =
      let p' = record p { elements = set_ranges ranges } in
      let p'' = if p.reconfigure then reconfigure_step_pop p' p.step else p' in
      if empty_elements linked p''.elements
      then (returned (prepared true 0 false), p'')
      else (returned (prepared true (elements_size p''.elements) true), p'')

  unfoldable pub prepare_elements :
      Bool → Bool → Bool → Proxy A → Fifo A → Attempt Prepared × Proxy A × Fifo A
  unfolding refilled elements_size
  prepare_elements linked locked expired p f =
      let (result, f') = pop_fifo locked expired f p.step in
      let (ready, p') = refilled linked p result in
      if has_next linked p.elements
      then (returned (prepared false (elements_size p.elements) true), p, f)
      else (ready, p', f')

  -- `pop` after `prepare_elements`: the element, and the pair that is returned
  unfoldable pub take_prepared :
      Bool → Attempt Prepared → Proxy A → Attempt (Option (Option A × Bool × ℕ)) × Proxy A
  take_prepared linked waits p = (waits, p)
  take_prepared linked (returned late) p = (returned none, p)
  take_prepared linked (returned (prepared valid n false)) p =
      (returned (some (none, valid && not (n == 0), n)), p)
  take_prepared linked (returned (prepared valid n true)) p =
      let (taken, e) = next linked p.elements in
      (returned (some (taken, valid && not (n == 0), n)), record p { elements = e })

  -- One attempt of `pop`. `none` in the result: the timeout has passed, and the call begins again
  -- without one after `safe_push_immediate` on its target.
  unfoldable pub pop_proxy :
      Bool
      → Bool
      → Bool
      → Proxy A
      → Fifo A
      → Attempt (Option (Option A × Bool × ℕ)) × Proxy A × Fifo A
  unfolding prepare_elements take_prepared
  pop_proxy linked locked expired p f =
      let (ready, p', f') = prepare_elements linked locked expired p f in
      let (result, p'') = take_prepared linked ready p' in (result, p'', f')
