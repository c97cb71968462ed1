-- ===== src/Dedup/Refine.antt =====
-- The cutting of the stage FragmentRefine: the `do` loop of FragmentRefineDefault of
-- src/dedup/encode_default.cpp on one coarse chunk, which the other encoders repeat, to the chunks
-- that it pushes into `send_buf`, in their order.
use npb_sync.Prelude.{
  ℕ, zero, suc, ◌+◌, ◌%◌, ◌^◌, ◌≤◌, ◌<◌, ◌≡◌, refl, ap, ◌∙◌, arith, true, false, List, [], ◌∷◌,
  ◌++◌, ltb, if◌then◌else◌, length, take, drop, take-append-drop, length-drop, length-take,
  append-nil, dec_lt,
}
use npb_sync.Memory.{Memory}
use npb_sync.Dedup.Chunk.{Bytes, Chunk}
use npb_sync.Dedup.Rabin.{as_size, rabinseg, converted_bounds}
use npb_sync.Dedup.Sequence.{Sequence}

-- the bytes of a buffer, behind which nothing is read
abbrev pub byte_at : Bytes → Memory ℕ
byte_at [] i = 0
byte_at (x ∷ xs) zero = x
byte_at (x ∷ xs) (suc i) = byte_at xs i

-- the contents, one after the other
abbrev pub contents : List Chunk → Bytes
contents [] = []
contents (c ∷ cs) = c.uncompressed_data ++ contents cs

-- the pieces are not empty
abbrev pub AllSome : List Chunk → Type 0
AllSome [] = Unit {0}
AllSome (c ∷ cs) = (0 < length c.uncompressed_data) × AllSome cs

-- the second parts of the sequence numbers count from `k` on, and the first part is `l1`
abbrev pub IsNumbered : ℕ → ℕ → List Chunk → Type 0
IsNumbered l1 k [] = Unit {0}
IsNumbered l1 k (c ∷ cs) =
    (c.sequence.l1num ≡ l1) × (c.sequence.l2num ≡ k) × IsNumbered l1 (k + 1) cs

-- there is a last piece, and it alone is marked
abbrev pub OnlyLast : List Chunk → Type 0
OnlyLast [] = ⊥
OnlyLast (c ∷ []) = c.is_last_l2_chunk ≡ true
OnlyLast (c ∷ c' ∷ cs) = (c.is_last_l2_chunk ≡ false) × OnlyLast (c' ∷ cs)

module _ (rabintab rabinwintab : Memory ℕ) (fresh : Chunk) where
  -- `fresh` is the memory of a new chunk, `chcount` a 32-bit number; each round cuts off a byte at
  -- least, so that as many rounds as there are bytes are enough
  unfoldable pub refine_loop : ℕ → Chunk → ℕ → List Chunk
  refine_loop zero chunk chcount = []
  refine_loop (suc fuel) chunk chcount =
      let xs = chunk.uncompressed_data in
      let offset = as_size (rabinseg (byte_at xs) (length xs % 2 ^ 32) rabintab rabinwintab) in
      let temp = record fresh {
        state = chunk.state;
        sequence = record { l1num = chunk.sequence.l1num; l2num = fresh.sequence.l2num };
        uncompressed_data = drop offset xs;
      } in
      let numbered : Sequence = record { l1num = chunk.sequence.l1num; l2num = chcount } in
      let rest = refine_loop fuel temp ((chcount + 1) % 2 ^ 32) in
      if ltb offset (length xs)
      then record chunk {
        uncompressed_data = take offset xs;
        sequence = numbered;
        is_last_l2_chunk = false;
      }
        ∷ rest
      else record chunk { sequence = numbered; is_last_l2_chunk = true } ∷ []

  unfoldable pub refine : Chunk → List Chunk
  unfolding refine_loop
  refine chunk = refine_loop (length chunk.uncompressed_data) chunk 0

  -- what the pieces of a chunk are
  pub record Refined (chunk : Chunk) (k : ℕ) (pieces : List Chunk) : Type 0 where
    pub whole : contents pieces ≡ chunk.uncompressed_data
    pub some_bytes : AllSome pieces
    pub numbered : IsNumbered chunk.sequence.l1num k pieces
    pub only_last : OnlyLast pieces

  OnlyLast-cons :
      (c : Chunk) (cs : List Chunk) → c.is_last_l2_chunk ≡ false → OnlyLast cs → OnlyLast (c ∷ cs)
  OnlyLast-cons c [] h l = absurd l
  OnlyLast-cons c (c' ∷ cs) h l = (h, l)

  refine_loop_lem :
      (fuel : ℕ) (chunk : Chunk) (k : ℕ)
      → 0 < length chunk.uncompressed_data
      → length chunk.uncompressed_data ≤ fuel
      → length chunk.uncompressed_data < 2 ^ 31
      → k + length chunk.uncompressed_data < 2 ^ 32
      → Refined chunk k (refine_loop fuel chunk k)
  unfolding refine_loop
  refine_loop_lem zero chunk k a b small c = absurd (omega arith)
  refine_loop_lem (suc fuel) chunk k a b small c =
      let xs = chunk.uncompressed_data in
      let offset = as_size (rabinseg (byte_at xs) (length xs % 2 ^ 32) rabintab rabinwintab) in
      let bounds = converted_bounds (byte_at xs) (length xs) rabintab rabinwintab a small in
      let temp = record fresh {
        state = chunk.state;
        sequence = record { l1num = chunk.sequence.l1num; l2num = fresh.sequence.l2num };
        uncompressed_data = drop offset xs;
      } in
      let piece = record chunk {
        uncompressed_data = take offset xs;
        sequence = record { l1num = chunk.sequence.l1num; l2num = k };
        is_last_l2_chunk = false;
      } in
      let left = length-drop offset xs in
      let cut = length-take offset xs in
      elim (dec_lt offset (length xs)) [
        | yes p ↦
            let t : ltb offset (length xs) ≡ true = ground arith in
            let e : (k + 1) % 2 ^ 32 ≡ k + 1 = omega arith in
            let r =
              refine_loop_lem fuel temp (k + 1) (omega arith) (omega arith) (omega arith)
                (omega arith) in
            let all = take-append-drop offset xs in
            rw (t, e)
              (record {
                whole = ap (◌++◌ (take offset xs)) r.whole ∙ all;
                some_bytes = (omega arith, r.some_bytes);
                numbered = (refl, refl, r.numbered);
                only_last = OnlyLast-cons piece (refine_loop fuel temp (k + 1)) refl r.only_last;
              })
        | no p ↦
            let t : ltb offset (length xs) ≡ false = ground arith in
            rw t (record {
              whole = append-nil xs;
              some_bytes = (a, tt);
              numbered = (refl, refl, tt);
              only_last = refl;
            })
      ]

  -- The loop cuts a coarse chunk of at least one byte and fewer than 2 ^ 31 into pieces that
  -- together are the chunk, of which none is empty, whose numbers count from 0 on below the chunk's
  -- number, and of which the last one, and it alone, is marked; whatever the tables hold.
  pub refine_lem :
      (chunk : Chunk)
      → 0 < length chunk.uncompressed_data
      → length chunk.uncompressed_data < 2 ^ 31
      → Refined chunk 0 (refine chunk)
  unfolding refine
  refine_lem chunk a b =
      refine_loop_lem (length chunk.uncompressed_data) chunk 0 a (omega arith) b (omega arith)
