-- ===== src/Dedup/Workers.antt =====
-- The threads Deduplicate and Compress of src/dedup/encode_naive_queue.cpp: the loops around the
-- kernels, with the views of the queues between the stages. As in
-- src/dedup/encode_naive_queue_conf.h, DEDUP_TO_REORDER, DEDUP_TO_COMPRESS and COMPRESS_CROSS_POP
-- are 1. A thread is a machine whose step is one attempt of the call that it stands at. TIMED_PUSH is
-- 1 there: `generic_push` does what `push` does from a view whose announced step the observer has
-- changed (NaiveQueue/Observer/Delivery), and such changes are steps of the surroundings here; the
-- calls of `add_work_time`, which touch the observer alone, are left out.

pub mod Lanes
pub mod Deduplicating
pub mod Compress
pub mod Compressing
use npb_sync.Prelude.{
  ℕ, ◌+◌, ◌-◌, Bool, true, false, ◌==◌, if◌then◌else◌, List, ◌++◌, length, take, Option, none, some,
  not,
}
use npb_sync.NaiveQueue.Master.{Master, Attempt, waits, returned}
use npb_sync.NaiveQueue.Client.{Impl, pop, push_begin, push_end, force_push, terminate_round}
use npb_sync.NaiveQueue.Views.{held}
use npb_sync.Dedup.EncodeCommon.{Libraries, Encoder, sub_deduplicate}

abbrev pub row_limit : ℕ
row_limit = 100

-- A queue to a later stage and the view of this thread. `given` is a history variable, which the
-- program does not have: the chunks that have left the view for the shared ring, in their order.
pub record Lane : Type 0 where
  pub master : Master ℕ
  pub view : Impl ℕ
  pub given : List ℕ

-- what of the local ring has been handed over, after a call that only takes from its front
abbrev pub hand : Lane → Master ℕ → Impl ℕ → Lane
hand l m q = record {
  master = m;
  view = q;
  given = l.given ++ take (length (held l.view) - length (held q)) (held l.view);
}

abbrev pub hand_over : Lane → Attempt (Master ℕ × Impl ℕ) → Attempt Lane
hand_over l waits = waits
hand_over l (returned (m, q)) = returned (hand l m q)

-- `push`: the element in the local ring, and the rest of the call
unfoldable pub put : Lane → ℕ → Lane
put l chunk = record l { view = push_begin l.view chunk }

unfoldable pub flush : Lane → Attempt Lane
flush l = hand_over l (push_end l.master l.view)

unfoldable pub force : Lane → Attempt Lane
force l = hand_over l (force_push l.master l.view)

-- a round of `terminate`, and whether the loop has ended
unfoldable pub close : Lane → Attempt (Bool × Lane)
close l = elim (terminate_round l.master l.view) [
  | waits ↦ waits
  | returned (closed, m, q) ↦ returned (closed, hand l m q)
]

-- where DeduplicateNaiveQueue stands: at `pop`, at a `force_push` with the chunk that is pushed next,
-- in the second part of a `push`, or in a `terminate`
pub data Task : Type 0 where
  popping : Task
  forcing_output : ℕ → Task
  forcing_extra : ℕ → Task
  pushing_output : Task
  pushing_extra : Task
  closing_output : Task
  closing_extra : Task
  ended : Task

-- the thread Deduplicate
pub record Deduplicator : Type 0 where
  pub input : Master ℕ
  pub input_view : Impl ℕ
  pub output : Lane
  pub extra : Lane
  pub in_a_row : ℕ
  pub last_was_compressed : Bool
  pub task : Task

-- `in_a_row` after one chunk more, which goes where the last one went or not, and whether the other
-- queue is forced
unfoldable pub count_row : Bool → ℕ → ℕ × Bool
count_row same in_a_row =
    if same
    then (if in_a_row + 1 == row_limit then (0, true) else (in_a_row + 1, false))
    else (1, false)

-- the branches behind `sub_Deduplicate`
unfoldable pub send_chunk : Bool → ℕ → Deduplicator → Deduplicator
unfolding count_row put
send_chunk false chunk w =
    let (row, forced) = count_row w.last_was_compressed w.in_a_row in
    let w' = record w { in_a_row = row; last_was_compressed = true } in
    if forced
    then record w' { task = forcing_extra chunk }
    else record w' { output = put w.output chunk; task = pushing_output }
send_chunk true chunk w =
    let (row, forced) = count_row (not w.last_was_compressed) w.in_a_row in
    let w' = record w { in_a_row = row; last_was_compressed = false } in
    if forced
    then record w' { task = forcing_output chunk }
    else record w' { extra = put w.extra chunk; task = pushing_extra }

-- `pop` has returned
unfoldable pub deduplicate_popped :
    Libraries
    → Encoder
    → Deduplicator
    → Attempt (Option ℕ × Master ℕ × Impl ℕ)
    → Attempt (Encoder × Deduplicator)
unfolding send_chunk
deduplicate_popped lib s w waits = waits
deduplicate_popped lib s w (returned (none, m, q)) =
    returned (s, record w { input = m; input_view = q; task = closing_output })
deduplicate_popped lib s w (returned (some chunk, m, q)) =
    let (is_duplicate, s') = sub_deduplicate lib chunk s in
    returned (s', send_chunk is_duplicate chunk (record w { input = m; input_view = q }))

abbrev pub with_output : Deduplicator → Task → Lane → Deduplicator
with_output w next l = record w { output = l; task = next }

abbrev pub with_extra : Deduplicator → Task → Lane → Deduplicator
with_extra w next l = record w { extra = l; task = next }

abbrev pub after : {A B : Type 0} → (A → B) → Attempt A → Attempt B
after f waits = waits
after f (returned a) = returned (f a)

-- one attempt of the call that the thread stands at
unfoldable pub deduplicate_step :
    Libraries → Encoder → Deduplicator → Task → Attempt (Encoder × Deduplicator)
unfolding deduplicate_popped flush force close put
deduplicate_step lib s w popping = deduplicate_popped lib s w (pop w.input w.input_view)
deduplicate_step lib s w (forcing_output chunk) =
    after (λ l. (s, record w { output = l; extra = put w.extra chunk; task = pushing_extra }))
      (force w.output)
deduplicate_step lib s w (forcing_extra chunk) =
    after (λ l. (s, record w { extra = l; output = put w.output chunk; task = pushing_output }))
      (force w.extra)
deduplicate_step lib s w pushing_output = after (λ l. (s, with_output w popping l)) (flush w.output)
deduplicate_step lib s w pushing_extra = after (λ l. (s, with_extra w popping l)) (flush w.extra)
deduplicate_step lib s w closing_output =
    after (λ r. (s, with_output w (if r.0 then closing_extra else closing_output) r.1))
      (close w.output)
deduplicate_step lib s w closing_extra =
    after (λ r. (s, with_extra w (if r.0 then ended else closing_extra) r.1)) (close w.extra)
deduplicate_step lib s w ended = returned (s, record w { task = ended })
