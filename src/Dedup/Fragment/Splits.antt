-- ===== src/Dedup/Fragment/Splits.antt =====
-- The cutting of one buffer by the `do` loop of FragmentDefault of src/dedup/encode_default.cpp.
use npb_sync.Prelude.{
  ℕ, zero, suc, ◌+◌, ◌-◌, ◌%◌, ◌^◌, ◌≤◌, ◌<◌, ◌≡◌, refl, ap, ◌∙◌, sym, arith, true, false, some,
  List, [], ◌∷◌, ◌++◌, ltb, ◌==◌, length, take, drop, take-append-drop, length-drop, length-take,
  append_assoc, dec_lt,
}
use npb_sync.Memory.{Memory}
use npb_sync.Dedup.Chunk.{Bytes, Chunk}
use npb_sync.Dedup.Rabin.{as_size, rabinseg, rabinseg_bounds}
use npb_sync.Dedup.Refine.{byte_at, contents, AllSome}
use npb_sync.Dedup.Fragment.{anchor_jump, Split, with_anchor, split_loop}

-- the first parts of the sequence numbers count from `k` on
abbrev pub IsAnchored : ℕ → List Chunk → Type 0
IsAnchored k [] = Unit {0}
IsAnchored k (c ∷ cs) = (c.sequence.l1num ≡ k) × IsAnchored (k + 1) cs

pub contents-append : (cs ds : List Chunk) → contents (cs ++ ds) ≡ contents cs ++ contents ds
contents-append [] ds = refl
contents-append (c ∷ cs) ds =
    ap (◌++◌ c.uncompressed_data) (contents-append cs ds)
    ∙ sym (append_assoc c.uncompressed_data (contents cs) (contents ds))

pub AllSome-append : (cs ds : List Chunk) → AllSome cs → AllSome ds → AllSome (cs ++ ds)
AllSome-append [] ds h l = l
AllSome-append (c ∷ cs) ds h l = (h.0, AllSome-append cs ds h.1 l)

pub IsAnchored-append :
    (k : ℕ) (cs ds : List Chunk)
    → IsAnchored k cs
    → IsAnchored (k + length cs) ds
    → IsAnchored k (cs ++ ds)
IsAnchored-append k [] ds h l = let e : k + 0 ≡ k = omega arith in rw e at l
IsAnchored-append k (c ∷ cs) ds h l =
    let e : k + suc (length cs) ≡ k + 1 + length cs = omega arith in
    (h.0, IsAnchored-append (k + 1) cs ds h.1 (rw e at l))

-- what the `do` loop makes of a buffer with number `k`
pub record IsSplit (k : ℕ) (xs : Bytes) (s : Split) : Type 0 where
  pub whole : contents s.sent ++ s.temp.uncompressed_data ≡ xs
  pub some_sent : AllSome s.sent
  pub some_left : 0 < length s.temp.uncompressed_data
  pub anchored : IsAnchored k s.sent
  pub anchor : s.temp.sequence.l1num ≡ k + length s.sent
  pub next : s.anchorcount ≡ k + length s.sent + 1
  pub count : length s.sent + length s.temp.uncompressed_data ≤ length xs

module _ (rabintab rabinwintab : Memory ℕ) (fresh : Chunk) where
  abbrev offset_of : Chunk → ℕ
  offset_of chunk =
      let xs = chunk.uncompressed_data in
      rabinseg (λ i. byte_at xs (anchor_jump + i)) ((length xs - anchor_jump) % 2 ^ 32) rabintab
        rabinwintab

  abbrev cut_of : Chunk → ℕ
  cut_of chunk = as_size ((offset_of chunk + anchor_jump) % 2 ^ 32)

  cut_lem :
      (chunk : Chunk)
      → anchor_jump < length chunk.uncompressed_data
      → length chunk.uncompressed_data < 2 ^ 31
      → (0 < offset_of chunk) × (cut_of chunk ≡ offset_of chunk + anchor_jump)
  unfolding as_size
  cut_lem chunk long small =
      let xs = chunk.uncompressed_data in
      let n = length xs - anchor_jump in
      let e : n % 2 ^ 32 ≡ n = omega arith in
      let b =
        rabinseg_bounds (λ i. byte_at xs (anchor_jump + i)) n rabintab rabinwintab (omega arith)
          (omega arith) in
      rw e (ground (arith, b))

  split_more :
      (fuel : ℕ) (chunk : Chunk) (k : ℕ) (s : Split)
      → k + 2 < 2 ^ 32
      → (let xs = chunk.uncompressed_data in
          let cut = cut_of chunk in
          anchor_jump < length xs
          → length xs < 2 ^ 31
          → cut < length xs
          → split_loop rabintab rabinwintab fresh fuel
              (with_anchor rabintab rabinwintab fresh (k + 1) (drop cut xs))
              (k + 1 + 1)
            ≡ some s
          → split_loop rabintab rabinwintab fresh (suc fuel) chunk (k + 1)
            ≡ some (record s { sent = record chunk { uncompressed_data = take cut xs } ∷ s.sent }))
  unfolding split_loop
  split_more fuel chunk k s small q bound r ih =
      let xs = chunk.uncompressed_data in
      let n = length xs in
      let pos = (cut_lem chunk q bound).0 in
      let t1 : ltb anchor_jump n ≡ true = ground arith in
      let t2 : (offset_of chunk == 0) ≡ false = ground arith in
      let t3 : ltb (cut_of chunk) n ≡ true = ground arith in
      let e : (k + 1 + 1) % 2 ^ 32 ≡ k + 1 + 1 = omega arith in rw (t1, t2, t3, e, ih) refl

  pub split_loop_lem :
      (fuel : ℕ) (chunk : Chunk) (k : ℕ)
      → chunk.sequence.l1num ≡ k
      → 0 < length chunk.uncompressed_data
      → length chunk.uncompressed_data < fuel
      → k + length chunk.uncompressed_data < 2 ^ 31
      → (s : Split) × (split_loop rabintab rabinwintab fresh fuel chunk (k + 1) ≡ some s)
        × IsSplit k chunk.uncompressed_data s
  unfolding split_loop
  split_loop_lem zero chunk k l1 a b c = absurd (omega arith)
  split_loop_lem (suc fuel) chunk k l1 a b c =
      let xs = chunk.uncompressed_data in
      let n = length xs in
      let cut = cut_of chunk in
      let temp = with_anchor rabintab rabinwintab fresh (k + 1) (drop cut xs) in
      let first = record chunk { uncompressed_data = take cut xs } in
      let stop : Split = record { sent = []; temp = chunk; anchorcount = k + 1 } in
      let stopped : IsSplit k xs stop = record {
        whole = refl;
        some_sent = tt;
        some_left = a;
        anchored = tt;
        anchor = l1 ∙ omega arith;
        next = omega arith;
        count = omega arith;
      } in
      elim (dec_lt anchor_jump n) [
        | no q ↦ (stop, ground arith, stopped)
        | yes q ↦
            let pos = cut_lem chunk q (omega arith) in
            elim (dec_lt cut n) [
              | no r ↦ (stop, ground arith, stopped)
              | yes r ↦
                  let l = length-drop cut xs in
                  let l' = length-take cut xs in
                  let ih =
                    split_loop_lem fuel temp (k + 1) refl (omega arith) (omega arith)
                      (omega arith) in
                  (
                    record ih.0 { sent = first ∷ ih.0.sent },
                    split_more fuel chunk k ih.0 (omega arith) q (omega arith) r ih.1,
                    record {
                      whole =
                          append_assoc (take cut xs) (contents ih.0.sent)
                            ih.0.temp.uncompressed_data
                          ∙ ap (◌++◌ (take cut xs)) ih.2.whole
                          ∙ take-append-drop cut xs;
                      some_sent = (omega arith, ih.2.some_sent);
                      some_left = ih.2.some_left;
                      anchored = (l1, ih.2.anchored);
                      anchor = omega (arith, ih.2.anchor);
                      next = omega (arith, ih.2.next);
                      count = omega (arith, ih.2.count);
                    },
                  )
            ]
      ]
