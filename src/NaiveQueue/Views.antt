-- ===== src/NaiveQueue/Views.antt =====
-- What the calls of one view do to the elements: `push`, `pop`, `force_push` and `terminate` of
-- `NaiveQueueImpl<T>`, with reconfigurations between them.
use npb_sync.Prelude.{
  ℕ, ◌+◌, ◌-◌, ◌≤◌, ◌<◌, ◌^◌, ◌≡◌, refl, ap, ◌∙◌, List, [], ◌∷◌, ◌++◌, append_assoc, take, drop,
  take-append-drop, length, length-drop, arith, Bool-cases, inl, inr,
}
use npb_sync.Ring.{Ring, full}
use npb_sync.Ring.Shape.{IsValid, contents, length-contents, full_iff}
use npb_sync.Ring.Fifo.{push-IsValid}
use npb_sync.NaiveQueue.Local.{resize, push_local-eq-push, full_local-eq-full}
use npb_sync.NaiveQueue.Resize.{resize_lem, allocated-resize}
use npb_sync.NaiveQueue.Master.{Master, Reply, over, moved, Attempt, waits, returned}
use npb_sync.NaiveQueue.Transfer.{Moved, push_room, size-push}
use npb_sync.NaiveQueue.Calls.{Enqueued, enqueue_lem}
use npb_sync.NaiveQueue.Client.{Impl, reconfigure, push_begin, push_handed, push_end}

-- A view whose ring is valid and has room for one element at least, and whose next step fits the
-- array.
pub record IsSound {A : Type 0} (q : Impl A) : Type 0 where
  pub ring_valid : IsValid q.ring
  pub roomy : 2 ≤ q.ring.size
  pub step_fits : q.new_step + 1 ≤ q.ring.allocated
  pub step_small : q.new_step + 1 < 2 ^ 31

module _ {A : Type 0} where
  abbrev pub held : Impl A → List A
  held q = contents q.ring

  -- the view can take one more element
  abbrev pub HasRoom : Impl A → Type 0
  HasRoom q = q.ring.n_elements + 1 < q.ring.size

  pub reconfigure_lem :
      (q : Impl A)
      → IsSound q
      → let q' = reconfigure q in (held q' ≡ held q) × IsSound q' × (HasRoom q → HasRoom q')
  unfolding reconfigure
  reconfigure_lem q s =
      let (same, valid, size, refused) =
        resize_lem q.ring q.new_step s.ring_valid s.step_fits s.step_small in
      ground (
        arith,
        same,
        valid,
        size,
        refused,
        allocated-resize q.ring q.new_step,
        length-contents q.ring,
        length-contents (resize q.ring q.new_step).1,
      )

  -- What is moved stays in order: behind the destination, in front of the rest of the source.
  pub Moved-append :
      (c : ℕ) {src dst src' dst' : Ring A}
      → Moved c src dst src' dst'
      → contents dst' ++ contents src' ≡ contents dst ++ contents src
  Moved-append c {src} {dst} m =
      rw (m.added, m.left)
        (append_assoc (contents dst) (take c (contents src)) (drop c (contents src))
          ∙ ap (λ xs. contents dst ++ xs) (take-append-drop c (contents src)))

  -- The source has `c` elements fewer.
  pub n_elements-Moved :
      (c : ℕ) {src dst src' dst' : Ring A}
      → Moved c src dst src' dst'
      → src'.n_elements ≡ src.n_elements - c
  n_elements-Moved c {src} {dst} {src'} {dst'} m = omega (
    arith,
    length-contents src',
    length-contents src,
    ap length m.left,
    length-drop c (contents src),
  )

  -- A view whose ring is replaced by one of the same size and array stays sound.
  pub IsSound-ring :
      (q : Impl A) (r : Ring A)
      → IsSound q
      → IsValid r
      → r.size ≡ q.ring.size
      → r.allocated ≡ q.ring.allocated
      → IsSound (record q { ring = r })
  IsSound-ring q r s v e e' = ground arith

  -- `push` adds at the end of the local ring: it never meets a full ring, where the element would
  -- be dropped.
  pub push_begin_lem :
      (q : Impl A) (v : A)
      → IsSound q
      → HasRoom q
      → (held (push_begin q v) ≡ held q ++ v ∷ []) × IsSound (push_begin q v)
  unfolding push_begin
  push_begin_lem q v s room = rw (push_local-eq-push q.ring v) (
    push_room q.ring v s.ring_valid room,
    IsSound-ring q _ s (push-IsValid q.ring v s.ring_valid) (size-push q.ring v).0
        (size-push q.ring v).1,
  )

  -- how the rest of `push` ends, from the shared ring and the view that it meets
  abbrev pub Flushed : Master A → Impl A → Attempt (Master A × Impl A) → Type 0
  Flushed m q waits = (m.buf.n_elements + 1 ≡ m.buf.size) × (q.ring.n_elements + 1 ≡ q.ring.size)
  Flushed m q (returned (m', q')) =
      (contents m'.buf ++ held q' ≡ contents m.buf ++ held q)
      × IsValid m'.buf
      × (m'.buf.size ≡ m.buf.size)
      × (m' ≡ record m { buf = m'.buf })
      × IsSound q'
      × HasRoom q'

  push_handed_lem :
      (m : Master A) (q : Impl A) (a : Attempt (Reply × Master A × Ring A))
      → 2 ≤ m.buf.size
      → IsSound q
      → q.ring.n_elements + 1 ≡ q.ring.size
      → Enqueued m q.ring (q.ring.size - 1) a
      → Flushed m q (push_handed q a)
  unfolding push_handed
  push_handed_lem m q waits two s e h = (h, e)
  push_handed_lem m q (returned (over, m', r)) two s e h = absurd h
  push_handed_lem m q (returned (moved n, m', r)) two s e (room, count, went, kept) =
      let sound = IsSound-ring q r s went.src_valid went.src_size went.src_allocated in
      let (same, sound', has_room) = reconfigure_lem (record q { ring = r }) sound in
      (
        rw same (Moved-append n went),
        went.dst_valid,
        went.dst_size,
        kept,
        sound',
        has_room (omega (arith, count, n_elements-Moved n went, went.src_size)),
      )

  -- The end of `push` waits exactly if both rings are full. Else it moves elements from the local
  -- ring to the shared one, keeping their order over both, and leaves the local ring with room.
  pub push_end_lem :
      (m : Master A) (q : Impl A)
      → IsValid m.buf
      → 2 ≤ m.buf.size
      → IsSound q
      → Flushed m q (push_end m q)
  unfolding push_end
  push_end_lem m q hm two s = elim (Bool-cases (full q.ring)) [
    | inl e ↦
        rw (full_local-eq-full q.ring, e)
          (push_handed_lem m q _ two s (ground (arith, full_iff q.ring s.ring_valid))
            (enqueue_lem m q.ring (q.ring.size - 1) hm s.ring_valid))
    | inr e ↦
        let (same, sound, has_room) = reconfigure_lem q s in
        let room : HasRoom q = ground (arith, full_iff q.ring s.ring_valid) in
        rw (full_local-eq-full q.ring, e)
          (ap (λ xs. contents m.buf ++ xs) same, hm, refl, refl, sound, has_room room)
  ]
