-- ===== src/Dedup/Workers/Deduplicating.antt =====
-- The thread Deduplicate of src/dedup/encode_naive_queue.cpp among the other threads: every chunk that
-- it takes goes to one of the two later stages.
pub mod Delivered
pub mod Waiting
use npb_sync.Prelude.{
  ℕ, ◌≡◌, refl, sym, ap, ◌∙◌, subst, Bool, true, false, not, List, [], ◌∷◌, ◌++◌, append-nil,
  Bool-cases, inl, inr, Option, none, some, if◌then◌else◌,
}
use npb_sync.NaiveQueue.Master.{Master, Attempt, waits, returned}
use npb_sync.NaiveQueue.Client.{Impl, pop}
use npb_sync.NaiveQueue.Views.{HasRoom}
use npb_sync.Dedup.EncodeCommon.{Libraries, Encoder, sub_deduplicate}
use npb_sync.Dedup.Workers.{
  Lane, put, flush, force, close, Task, popping, forcing_output, forcing_extra, pushing_output,
  pushing_extra, closing_output, closing_extra, ended, Deduplicator, count_row, send_chunk,
  deduplicate_popped, with_output, with_extra, after, deduplicate_step,
}
use npb_sync.Dedup.Workers.Lanes.{
  IsLane, Stays, Flushes, Closes, flush_lem, force_lem, close_lem, put_lem,
}

-- the chunks of which sub_Deduplicate has said `kind`, in their order
abbrev pub chosen : Bool → List (ℕ × Bool) → List ℕ
chosen kind [] = []
chosen true ((chunk, true) ∷ rest) = chunk ∷ chosen true rest
chosen true ((chunk, false) ∷ rest) = chosen true rest
chosen false ((chunk, true) ∷ rest) = chosen false rest
chosen false ((chunk, false) ∷ rest) = chunk ∷ chosen false rest

chosen-append :
    (kind : Bool) (xs ys : List (ℕ × Bool))
    → chosen kind (xs ++ ys) ≡ chosen kind xs ++ chosen kind ys
chosen-append kind [] ys = refl
chosen-append true ((chunk, true) ∷ xs) ys = ap (◌∷◌ chunk) (chosen-append true xs ys)
chosen-append true ((chunk, false) ∷ xs) ys = chosen-append true xs ys
chosen-append false ((chunk, true) ∷ xs) ys = chosen-append false xs ys
chosen-append false ((chunk, false) ∷ xs) ys = ap (◌∷◌ chunk) (chosen-append false xs ys)

-- The chunks of each kind have entered their lane, but for one that waits for a `force_push` of the
-- other lane; a lane has room unless its `push` is not complete; and a lane that is closed has
-- handed over all of its chunks.
abbrev pub Keeps : Deduplicator → List (ℕ × Bool) → Task → Type 0
Keeps w log popping =
    IsLane w.output (chosen false log)
    × IsLane w.extra (chosen true log)
    × HasRoom w.output.view
    × HasRoom w.extra.view
Keeps w log (forcing_output chunk) =
    (entered : List ℕ) × (chosen true log ≡ entered ++ chunk ∷ [])
    × IsLane w.output (chosen false log)
    × IsLane w.extra entered
    × HasRoom w.output.view
    × HasRoom w.extra.view
Keeps w log (forcing_extra chunk) =
    (entered : List ℕ) × (chosen false log ≡ entered ++ chunk ∷ [])
    × IsLane w.output entered
    × IsLane w.extra (chosen true log)
    × HasRoom w.output.view
    × HasRoom w.extra.view
Keeps w log pushing_output =
    IsLane w.output (chosen false log) × IsLane w.extra (chosen true log) × HasRoom w.extra.view
Keeps w log pushing_extra =
    IsLane w.output (chosen false log) × IsLane w.extra (chosen true log) × HasRoom w.output.view
Keeps w log closing_output = IsLane w.output (chosen false log) × IsLane w.extra (chosen true log)
Keeps w log closing_extra = (w.output.given ≡ chosen false log) × IsLane w.extra (chosen true log)
Keeps w log ended = (w.output.given ≡ chosen false log) × (w.extra.given ≡ chosen true log)

-- what a step of the thread leaves
abbrev pub Continues : List (ℕ × Bool) → Attempt (Encoder × Deduplicator) → Type 0
Continues log waits = Unit
Continues log (returned (s, w)) = Keeps w log w.task

-- The history of the thread: the chunks that its calls of `pop` have returned, in their order, and
-- what sub_Deduplicate says of each.
abbrev pub logged :
    Libraries → Encoder → List (ℕ × Bool) → Attempt (Option ℕ × Master ℕ × Impl ℕ) → List (ℕ × Bool)
logged lib s log waits = log
logged lib s log (returned (none, m, q)) = log
logged lib s log (returned (some chunk, m, q)) =
    log ++ (chunk, (sub_deduplicate lib chunk s).0) ∷ []

abbrev pub history : Libraries → Encoder → Deduplicator → List (ℕ × Bool) → Task → List (ℕ × Bool)
history lib s w log popping = logged lib s log (pop w.input w.input_view)
history lib s w log (forcing_output chunk) = log
history lib s w log (forcing_extra chunk) = log
history lib s w log pushing_output = log
history lib s w log pushing_extra = log
history lib s w log closing_output = log
history lib s w log closing_extra = log
history lib s w log ended = log

send_lem :
    (is_duplicate : Bool) (chunk : ℕ) (w : Deduplicator) (log : List (ℕ × Bool))
    → Keeps w log popping
    → Keeps
        (send_chunk is_duplicate chunk w)
        (log ++ (chunk, is_duplicate) ∷ [])
        (send_chunk is_duplicate chunk w).task
unfolding send_chunk
send_lem false chunk w log (out, extra, room, room') =
    let passed = log ++ (chunk, false) ∷ [] in
    let here = chosen-append false log ((chunk, false) ∷ []) in
    let there : chosen true passed ≡ chosen true log =
      chosen-append true log ((chunk, false) ∷ []) ∙ append-nil _ in
    let extra' = subst (IsLane w.extra) (sym there) extra in
    elim (Bool-cases (count_row w.last_was_compressed w.in_a_row).1) [
      | inl e ↦ rw e (chosen false log, here, out, extra', room, room')
      | inr e ↦ rw e (
        subst (IsLane (put w.output chunk)) (sym here)
            (put_lem w.output chunk (chosen false log) out room),
        extra',
        room',
      )
    ]
send_lem true chunk w log (out, extra, room, room') =
    let passed = log ++ (chunk, true) ∷ [] in
    let here = chosen-append true log ((chunk, true) ∷ []) in
    let there : chosen false passed ≡ chosen false log =
      chosen-append false log ((chunk, true) ∷ []) ∙ append-nil _ in
    let out' = subst (IsLane w.output) (sym there) out in
    elim (Bool-cases (count_row (not w.last_was_compressed) w.in_a_row).1) [
      | inl e ↦ rw e (chosen true log, here, out', extra, room, room')
      | inr e ↦ rw e (
        out',
        subst (IsLane (put w.extra chunk)) (sym here)
            (put_lem w.extra chunk (chosen true log) extra room'),
        room,
      )
    ]

popped_lem :
    (lib : Libraries) (s : Encoder) (w : Deduplicator) (log : List (ℕ × Bool))
    (a : Attempt (Option ℕ × Master ℕ × Impl ℕ))
    → Keeps w log popping
    → Continues (logged lib s log a) (deduplicate_popped lib s w a)
unfolding deduplicate_popped
popped_lem lib s w log waits k = tt
popped_lem lib s w log (returned (none, m, q)) (out, extra, _, _) = (out, extra)
popped_lem lib s w log (returned (some chunk, m, q)) k =
    send_lem (sub_deduplicate lib chunk s).0 chunk (record w { input = m; input_view = q }) log k

-- A step of the thread keeps the invariant, whatever it meets.
pub step_lem :
    (lib : Libraries) (s : Encoder) (w : Deduplicator) (log : List (ℕ × Bool)) (t : Task)
    → Keeps w log t
    → Continues (history lib s w log t) (deduplicate_step lib s w t)
unfolding deduplicate_step
step_lem lib s w log popping k = popped_lem lib s w log (pop w.input w.input_view) k
step_lem lib s w log (forcing_output chunk) (entered, e, out, extra, room, room') =
    go (force w.output) (force_lem w.output (chosen false log) out)
  where
    go :
        (a : Attempt Lane)
        → Stays w.output (chosen false log) a
        → Continues log (
            after
              (λ l. (s, record w { output = l; extra = put w.extra chunk; task = pushing_extra }))
              a)
    go waits h = tt
    go (returned l) (out', keeps) = (
      out',
      subst (IsLane (put w.extra chunk)) (sym e) (put_lem w.extra chunk entered extra room'),
      keeps room,
    )
step_lem lib s w log (forcing_extra chunk) (entered, e, out, extra, room, room') =
    go (force w.extra) (force_lem w.extra (chosen true log) extra)
  where
    go :
        (a : Attempt Lane)
        → Stays w.extra (chosen true log) a
        → Continues log (
            after
              (λ l. (s, record w { extra = l; output = put w.output chunk; task = pushing_output }))
              a)
    go waits h = tt
    go (returned l) (extra', keeps) = (
      subst (IsLane (put w.output chunk)) (sym e) (put_lem w.output chunk entered out room),
      extra',
      keeps room',
    )
step_lem lib s w log pushing_output (out, extra, room') =
    go (flush w.output) (flush_lem w.output (chosen false log) out)
  where
    go :
        (a : Attempt Lane)
        → Flushes (chosen false log) a
        → Continues log (after (λ l. (s, with_output w popping l)) a)
    go waits h = tt
    go (returned l) (out', room) = (out', extra, room, room')
step_lem lib s w log pushing_extra (out, extra, room) =
    go (flush w.extra) (flush_lem w.extra (chosen true log) extra)
  where
    go :
        (a : Attempt Lane)
        → Flushes (chosen true log) a
        → Continues log (after (λ l. (s, with_extra w popping l)) a)
    go waits h = tt
    go (returned l) (extra', room') = (out, extra', room, room')
step_lem lib s w log closing_output (out, extra) =
    go (close w.output) (close_lem w.output (chosen false log) out)
  where
    go :
        (a : Attempt (Bool × Lane))
        → Closes (chosen false log) a
        → Continues log
            (after (λ r. (s, with_output w (if r.0 then closing_extra else closing_output) r.1)) a)
    go waits h = tt
    go (returned (true, l)) done = (done, extra)
    go (returned (false, l)) out' = (out', extra)
step_lem lib s w log closing_extra (done, extra) =
    go (close w.extra) (close_lem w.extra (chosen true log) extra)
  where
    go :
        (a : Attempt (Bool × Lane))
        → Closes (chosen true log) a
        → Continues log
            (after (λ r. (s, with_extra w (if r.0 then ended else closing_extra) r.1)) a)
    go waits h = tt
    go (returned (true, l)) done' = (done, done')
    go (returned (false, l)) extra' = (done, extra')
step_lem lib s w log ended k = k
