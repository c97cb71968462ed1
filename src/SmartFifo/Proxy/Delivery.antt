-- ===== src/SmartFifo/Proxy/Delivery.antt =====
-- The order of the elements through `SmartFIFO<T>` of src/smart_fifo.h: `push` adds to the end of
-- what a producer has handed over or still holds, the other calls of a
-- producer hand all of it over.
use npb_sync.Prelude.{
  ℕ, ◌+◌, ◌<◌, ◌≤◌, ◌≡◌, refl, ap, sym, ◌∙◌, true, false, none, some, List, [], ◌∷◌, ◌++◌,
  append-nil, append_assoc, arith, ◌==◌, length, length-append, Bool-cases, length_zero, inl, inr,
}
use npb_sync.SmartFifo.Chunk.{Chunk, new_chunk, freeze, unsafe_push}
use npb_sync.SmartFifo.Chain.{Fifo, push_chunk, terminate_producer}
use npb_sync.SmartFifo.Chain.Order.{elements, push_chunk_lem}
use npb_sync.SmartFifo.Proxy.{
  Proxy, reconfigure_step_push, begin_chunk, push_proxy, push_immediate, safe_push_immediate,
  terminate_proxy,
}

module _ {A : Type 0} where
  -- The chunk of a producer that is not over holds what was put into it and is not too large.
  pub record IsFilling (p : Proxy A) : Type 0 where
    pub counted : p.chunk.nb_elements ≡ length p.chunk.available
    pub bounded : p.chunk.nb_elements ≤ p.chunk.size
    pub some_step : 0 < p.step
    pub some_new_step : 0 < p.new_step
    pub some_size : 0 < p.chunk.size
    pub open_end : p.over ≡ false

  -- what a producer has handed over, and what it still holds
  unfoldable pub sent : Proxy A → Fifo A → List A
  sent p f = elements f.chunks ++ p.chunk.available

  pub begin_chunk_lem :
      (p : Proxy A) (n : ℕ)
      → IsFilling p
      → IsFilling (begin_chunk p n) × ((begin_chunk p n).chunk.available ≡ [])
  unfolding begin_chunk reconfigure_step_push new_chunk
  begin_chunk_lem p n h = ground (arith, h)

  pub elements_two :
      (c : Chunk A) (value : A) (d : Chunk A)
      → d.available ≡ value ∷ []
      → elements (c ∷ d ∷ []) ≡ c.available ++ value ∷ []
  unfolding elements
  elements_two c value d h = rw (h, append-nil) refl

  pub elements_one : (c : Chunk A) → elements (c ∷ []) ≡ c.available
  unfolding elements
  elements_one c = append-nil c.available

  pub terminate-chunks : (f : Fifo A) → (terminate_producer f).chunks ≡ f.chunks
  unfolding terminate_producer
  terminate-chunks f = ground arith

  -- For a producer that is not over, with steps and a chunk of a size of at least 1: `push` does not
  -- throw, and the element comes behind all those that this producer or any other has put into the
  -- chain or this producer still holds, whether it begins a new chunk and changes its step or not.
  pub push_proxy_lem :
      (p : Proxy A) (f : Fifo A) (value : A)
      → IsFilling p
      → (n : ℕ) × (p' : Proxy A) × (f' : Fifo A) × (push_proxy p f value ≡ some (n, p', f'))
        × IsFilling p'
        × (sent p' f' ≡ sent p f ++ value ∷ [])
  unfolding push_proxy unsafe_push sent
  push_proxy_lem p f value h =
      let filled : Chunk A = record {
        size = p.chunk.size;
        nb_elements = p.chunk.nb_elements + 1;
        available = p.chunk.available ++ value ∷ [];
      } in
      let follower : Chunk A = record {
        size = p.chunk.size;
        nb_elements = 1;
        available = value ∷ [];
      } in
      let (begun, fresh) = begin_chunk_lem p (p.step + 1) h in
      elim (Bool-cases (p.chunk.size == p.chunk.nb_elements)) [
        | inl full ↦ (
          p.step + 1,
          begin_chunk p (p.step + 1),
          push_chunk f p.chunk (some follower) (p.step + 1),
          ground (arith, full, h),
          begun,
          rw
              (
                fresh,
                push_chunk_lem f p.chunk (some follower) (p.step + 1),
                elements_two p.chunk value follower refl,
                append-nil,
              )
              (sym (append_assoc (elements f.chunks) p.chunk.available (value ∷ []))),
        )
        | inr room ↦ (
          0,
          record p { chunk = filled },
          f,
          ground (arith, room, h),
          ground (arith, room, h, length-append p.chunk.available (value ∷ [])),
          sym (append_assoc (elements f.chunks) p.chunk.available (value ∷ [])),
        )
      ]

  -- `safe_push_immediate` and `terminate_producer` of a producer that is not over put all that it
  -- holds behind the elements of the chain and leave it with nothing; the second ends it.
  pub flush_lem :
      (p : Proxy A) (f : Fifo A)
      → IsFilling p
      → let (p', f') = safe_push_immediate p f in
        let (p'', f'') = terminate_proxy p f in
        (IsFilling p' × (elements f'.chunks ≡ sent p f) × (p'.chunk.available ≡ []))
        × ((elements f''.chunks ≡ sent p f) × (p''.chunk.available ≡ []) × (p''.over ≡ true))
  unfolding safe_push_immediate push_immediate terminate_proxy sent new_chunk freeze
  flush_lem p f h =
      let (begun, fresh) = begin_chunk_lem p p.step h in
      let one : elements (p.chunk ∷ []) ≡ p.chunk.available = elements_one p.chunk in
      let ended : elements (terminate_proxy p f).1.chunks ≡ sent p f =
        ap elements (terminate-chunks (push_chunk f (freeze p.chunk) none p.chunk.nb_elements))
        ∙ push_chunk_lem f (freeze p.chunk) none p.chunk.nb_elements
        ∙ ap (◌++◌ (elements f.chunks)) (elements_one (freeze p.chunk)) in
      (
        elim (Bool-cases (p.chunk.nb_elements == 0)) [
          | inl z ↦
              (let nil = length_zero p.chunk.available (ground (arith, z, h)) in
                rw z (
                  h,
                  sym (append-nil (elements f.chunks)) ∙ ap (◌++◌ (elements f.chunks)) (sym nil),
                  nil,
                ))
          | inr nz ↦ rw nz (
            begun,
            push_chunk_lem f p.chunk none p.step ∙ ap (◌++◌ (elements f.chunks)) one,
            fresh,
          )
        ],
        (ended, refl, refl),
      )
