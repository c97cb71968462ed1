-- ===== src/Dedup/Workers/Lanes.antt =====
-- What the calls on one `Lane` keep: the chunks that have entered it are those handed over, and behind
-- them those in the local ring of the view.
use npb_sync.Prelude.{
  ℕ, ◌+◌, ◌-◌, ◌≤◌, ◌≡◌, refl, sym, ap, ◌∙◌, Bool, true, false, List, [], ◌∷◌, ◌++◌, append_assoc,
  length, length-append, take, drop, drop-append, drop_all, take_all, take-append-drop, Bool-cases,
  inl, inr, arith,
}
use npb_sync.Ring.{Ring, full, empty}
use npb_sync.Ring.Shape.{IsValid, contents, length-contents}
use npb_sync.NaiveQueue.Local.{empty_local-eq-empty, full_local-eq-full}
use npb_sync.NaiveQueue.Master.{Master, Reply, over, moved, Attempt, waits, returned}
use npb_sync.NaiveQueue.Calls.{Enqueued, enqueue_lem}
use npb_sync.NaiveQueue.Client.{
  Impl, push_end, push_handed, force_push, force_pushed, terminate_round,
}
use npb_sync.NaiveQueue.Views.{
  IsSound, held, HasRoom, Flushed, push_begin_lem, push_end_lem, reconfigure_lem, n_elements-Moved,
  IsSound-ring,
}
use npb_sync.NaiveQueue.Takes.{Handed, force_push_lem, Ended, terminate_round_lem}
use npb_sync.Dedup.Workers.{Lane, hand, hand_over, put, flush, force, close}

-- If two concatenations agree and the second part has not grown, it has lost its front to the first.
suffix_lem {ℓ} :
    {A : Type ℓ} (xs ys xs' ys' : List A)
    → xs' ++ ys' ≡ xs ++ ys
    → length ys' ≤ length ys
    → take (length ys - length ys') ys ++ ys' ≡ ys
suffix_lem xs ys xs' ys' e h =
    let n = length ys - length ys' in
    let lengths : length xs' + length ys' ≡ length xs + length ys =
      sym (length-append xs' ys') ∙ ap length e ∙ length-append xs ys in
    let count : length xs' - length xs ≡ n = omega arith in
    let none_left : length xs' - length xs' ≡ 0 = omega arith in
    let rest : ys' ≡ drop n ys =
      sym (
        drop-append (length xs') xs' ys'
        ∙ rw (drop_all (length xs') xs' (omega arith), none_left) refl)
      ∙ ap (drop (length xs')) e
      ∙ drop-append (length xs') xs ys
      ∙ rw (drop_all (length xs') xs (omega arith), count) refl in
    ap (λ zs. take n ys ++ zs) rest ∙ take-append-drop n ys

-- A lane into which the chunks `entered` have been put.
pub record IsLane (l : Lane) (entered : List ℕ) : Type 0 where
  pub all : l.given ++ held l.view ≡ entered
  pub sound : IsSound l.view
  pub valid : IsValid l.master.buf
  pub roomy : 2 ≤ l.master.buf.size

-- what is left of the local ring after a call
abbrev Shrinks : Impl ℕ → Attempt (Master ℕ × Impl ℕ) → Type 0
Shrinks q waits = Unit
Shrinks q (returned (m, q')) = length (held q') ≤ length (held q)

handed-Shrinks :
    (m : Master ℕ) (q : Impl ℕ) (a : Attempt (Reply × Master ℕ × Ring ℕ))
    → IsSound q
    → Enqueued m q.ring (q.ring.size - 1) a
    → Shrinks q (push_handed q a)
unfolding push_handed
handed-Shrinks m q waits s h = tt
handed-Shrinks m q (returned (over, m', r)) s h = absurd h
handed-Shrinks m q (returned (moved n, m', r)) s (room, count, went, kept) =
    let sound = IsSound-ring q r s went.src_valid went.src_size went.src_allocated in
    let (same, _, _) = reconfigure_lem (record q { ring = r }) sound in
    omega
      (arith, ap length same, n_elements-Moved n went, length-contents r, length-contents q.ring)

push_end-Shrinks :
    (m : Master ℕ) (q : Impl ℕ) → IsValid m.buf → IsSound q → Shrinks q (push_end m q)
unfolding push_end
push_end-Shrinks m q hm s = elim (Bool-cases (full q.ring)) [
  | inl e ↦
      rw (full_local-eq-full q.ring, e)
        (handed-Shrinks m q _ s (enqueue_lem m q.ring (q.ring.size - 1) hm s.ring_valid))
  | inr e ↦
      let (same, _, _) = reconfigure_lem q s in
      rw (full_local-eq-full q.ring, e) (omega (arith, ap length same))
]

-- a call that does not change the size of the local ring
abbrev KeepsRoom : Impl ℕ → Attempt (Master ℕ × Impl ℕ) → Type 0
KeepsRoom q waits = Unit
KeepsRoom q (returned (m, q')) = HasRoom q → HasRoom q'

forced-Shrinks :
    (m : Master ℕ) (q : Impl ℕ) (limit : ℕ) (a : Attempt (Reply × Master ℕ × Ring ℕ))
    → Enqueued m q.ring limit a
    → Shrinks q (force_pushed q a) × KeepsRoom q (force_pushed q a)
unfolding force_pushed
forced-Shrinks m q limit waits h = (tt, tt)
forced-Shrinks m q limit (returned (over, m', r)) h = absurd h
forced-Shrinks m q limit (returned (moved n, m', r)) (room, count, went, kept) =
    let fewer = n_elements-Moved n went in
    let l = length-contents r in
    let l' = length-contents q.ring in
    (omega (arith, fewer, l, l'), λ h. omega (arith, fewer, went.src_size))

force_push-Shrinks :
    (m : Master ℕ) (q : Impl ℕ)
    → IsValid m.buf
    → IsSound q
    → Shrinks q (force_push m q) × KeepsRoom q (force_push m q)
unfolding force_push
force_push-Shrinks m q hm s = elim (Bool-cases (empty q.ring)) [
  | inl e ↦ rw (empty_local-eq-empty q.ring, e) (omega arith, λ h. h)
  | inr e ↦
      rw (empty_local-eq-empty q.ring, e)
        (forced-Shrinks m q q.ring.n_elements _
          (enqueue_lem m q.ring q.ring.n_elements hm s.ring_valid))
]

-- a round of `terminate`
abbrev RoundShrinks : Impl ℕ → Attempt (Bool × Master ℕ × Impl ℕ) → Type 0
RoundShrinks q waits = Unit
RoundShrinks q (returned (closed, m, q')) = length (held q') ≤ length (held q)

round_shrinks :
    (q : Impl ℕ) (a : Attempt (Master ℕ × Impl ℕ))
    → Shrinks q a
    → RoundShrinks q (elim a [ waits ↦ waits | returned (m', q') ↦ returned (false, m', q') ])
round_shrinks q waits h = tt
round_shrinks q (returned (m, q')) h = h

terminate_round_shrinks :
    (m : Master ℕ) (q : Impl ℕ) → IsValid m.buf → IsSound q → RoundShrinks q (terminate_round m q)
unfolding terminate_round
terminate_round_shrinks m q hm s = elim (Bool-cases (empty q.ring)) [
  | inl e ↦ rw (empty_local-eq-empty q.ring, e) (omega arith)
  | inr e ↦
      rw (empty_local-eq-empty q.ring, e)
        (round_shrinks q _
          (forced-Shrinks m q (q.ring.size - 1) _
            (enqueue_lem m q.ring (q.ring.size - 1) hm s.ring_valid)).0)
]

-- What is handed over joins what has been handed over.
hand-IsLane :
    (l : Lane) (m : Master ℕ) (q : Impl ℕ) (entered : List ℕ)
    → IsLane l entered
    → contents m.buf ++ held q ≡ contents l.master.buf ++ held l.view
    → length (held q) ≤ length (held l.view)
    → IsSound q
    → IsValid m.buf
    → m.buf.size ≡ l.master.buf.size
    → IsLane (hand l m q) entered
hand-IsLane l m q entered h same fewer sound valid size = record {
  all =
      append_assoc l.given (take (length (held l.view) - length (held q)) (held l.view)) (held q)
      ∙ ap (λ xs. l.given ++ xs)
          (suffix_lem (contents l.master.buf) (held l.view) (contents m.buf) (held q) same fewer)
      ∙ h.all;
  sound = sound;
  valid = valid;
  roomy = omega (arith, h.roomy, size);
}

-- how a call on a lane ends
abbrev pub Stays : Lane → List ℕ → Attempt Lane → Type 0
Stays l entered waits = Unit
Stays l entered (returned l') = IsLane l' entered × (HasRoom l.view → HasRoom l'.view)

abbrev pub Flushes : List ℕ → Attempt Lane → Type 0
Flushes entered waits = Unit
Flushes entered (returned l') = IsLane l' entered × HasRoom l'.view

pub flush_lem : (l : Lane) (entered : List ℕ) → IsLane l entered → Flushes entered (flush l)
unfolding flush
flush_lem l entered h =
    go (push_end l.master l.view) (push_end_lem l.master l.view h.valid h.roomy h.sound)
      (push_end-Shrinks l.master l.view h.valid h.sound)
  where
    go :
        (a : Attempt (Master ℕ × Impl ℕ))
        → Flushed l.master l.view a
        → Shrinks l.view a
        → Flushes entered (hand_over l a)
    go waits f s = tt
    go (returned (m, q)) (same, valid, size, kept, sound, room) fewer =
        (hand-IsLane l m q entered h same fewer sound valid size, room)

pub force_lem : (l : Lane) (entered : List ℕ) → IsLane l entered → Stays l entered (force l)
unfolding force
force_lem l entered h =
    let (fewer, room) = force_push-Shrinks l.master l.view h.valid h.sound in
    go (force_push l.master l.view) (force_push_lem l.master l.view h.valid h.sound) fewer room
  where
    go :
        (a : Attempt (Master ℕ × Impl ℕ))
        → Handed l.master l.view a
        → Shrinks l.view a
        → KeepsRoom l.view a
        → Stays l entered (hand_over l a)
    go waits f s r = tt
    go (returned (m, q)) (same, valid, size, kept, sound, less) fewer room =
        (hand-IsLane l m q entered h same fewer sound valid size, room)

-- the end of a lane: all that has entered it is handed over
abbrev pub Closes : List ℕ → Attempt (Bool × Lane) → Type 0
Closes entered waits = Unit
Closes entered (returned (false, l)) = IsLane l entered
Closes entered (returned (true, l)) = l.given ≡ entered

pub close_lem : (l : Lane) (entered : List ℕ) → IsLane l entered → Closes entered (close l)
unfolding close
close_lem l entered h =
    go (terminate_round l.master l.view) (terminate_round_lem l.master l.view h.valid h.sound)
      (terminate_round_shrinks l.master l.view h.valid h.sound)
  where
    go :
        (a : Attempt (Bool × Master ℕ × Impl ℕ))
        → Ended l.master l.view a
        → RoundShrinks l.view a
        → Closes entered
            (elim a [ waits ↦ waits | returned (closed, m, q) ↦ returned (closed, hand l m q) ])
    go waits f s = tt
    go (returned (false, m, q)) ((same, valid, size, kept, sound, less), some_held) fewer =
        hand-IsLane l m q entered h same fewer sound valid size
    go (returned (true, m, q)) (none_held, ending, same) fewer =
        ap (λ xs. l.given ++ xs)
          (take_all (length (held l.view) - length (held q)) (held l.view)
            (omega (arith, length-contents l.view.ring)))
        ∙ h.all

-- A lane with room takes one chunk more.
pub put_lem :
    (l : Lane) (chunk : ℕ) (entered : List ℕ)
    → IsLane l entered
    → HasRoom l.view
    → IsLane (put l chunk) (entered ++ chunk ∷ [])
unfolding put
put_lem l chunk entered h room =
    let (same, sound) = push_begin_lem l.view chunk h.sound room in
    record {
      all =
          ap (λ xs. l.given ++ xs) same
          ∙ sym (append_assoc l.given (held l.view) (chunk ∷ []))
          ∙ ap (λ xs. xs ++ chunk ∷ []) h.all;
      sound = sound;
      valid = h.valid;
      roomy = h.roomy;
    }
