-- ===== src/Dedup/Fragment/Whole.antt =====
-- The coarse chunks of FragmentDefault of src/dedup/encode_default.cpp together are the file.
use npb_sync.Prelude.{
  ℕ, zero, suc, ◌+◌, ◌%◌, ◌^◌, ◌<◌, ◌≡◌, refl, ap, ◌∙◌, sym, arith, false, Option, none, some, List,
  [], ◌∷◌, ◌++◌, ◌==◌, if◌then◌else◌, length, take, drop, min, take-append-drop, length-drop,
  length-take, length-append, append-nil, append_assoc,
}
use npb_sync.Memory.{Memory}
use npb_sync.Dedup.Chunk.{Bytes, Chunk}
use npb_sync.Dedup.Refine.{contents, AllSome}
use npb_sync.Dedup.Fragment.{
  maxbuf, Split, left_over, anchor_of, with_anchor, split_loop, fragment_loop, fragment,
}
use npb_sync.Dedup.Fragment.Splits.{
  IsAnchored, contents-append, AllSome-append, IsAnchored-append, split_loop_lem,
}

-- what the stage makes of the bytes `xs`, from the number `k` on
pub record IsFragmented (k : ℕ) (xs : Bytes) (sent : List Chunk) : Type 0 where
  pub whole : contents sent ≡ xs
  pub some_bytes : AllSome sent
  pub anchored : IsAnchored k sent

join-whole :
    (s : Split) (sent : List Chunk) (left input : Bytes) (m : ℕ)
    → contents s.sent ++ s.temp.uncompressed_data ≡ left ++ take m input
    → contents sent ≡ s.temp.uncompressed_data ++ drop m input
    → contents (s.sent ++ sent) ≡ left ++ input
join-whole s sent left input m h h' =
    contents-append s.sent sent
    ∙ ap (◌++◌ (contents s.sent)) h'
    ∙ sym (append_assoc (contents s.sent) s.temp.uncompressed_data (drop m input))
    ∙ ap (λ zs. zs ++ drop m input) h
    ∙ append_assoc left (take m input) (drop m input)
    ∙ ap (◌++◌ left) (take-append-drop m input)

-- `temp` holds bytes and has the number `k`, or there is none and `k` is the next number
abbrev Ready : Option Chunk → ℕ → ℕ → Type 0
Ready none anchorcount k = anchorcount ≡ k
Ready (some t) anchorcount k =
    (t.sequence.l1num ≡ k) × (anchorcount ≡ k + 1) × (0 < length t.uncompressed_data)

Ready-anchor : (temp : Option Chunk) (a k : ℕ) → Ready temp a k → anchor_of temp a ≡ k
Ready-anchor none a k h = h
Ready-anchor (some t) a k h = ground arith

Ready-next :
    (temp : Option Chunk) (a k : ℕ)
    → Ready temp a k
    → k + 1 < 2 ^ 32
    → (if length (left_over temp) == 0 then (a + 1) % 2 ^ 32 else a) ≡ k + 1
Ready-next none a k h small = omega arith
Ready-next (some t) a k h small = ground arith

module _ (rabintab rabinwintab : Memory ℕ) (fresh : Chunk) where
  Result : ℕ → Option Chunk → Bytes → ℕ → ℕ → Type 0
  Result fuel temp input a k =
      (sent : List Chunk) × (fragment_loop rabintab rabinwintab fresh fuel temp input a ≡ some sent)
      × IsFragmented k (left_over temp ++ input) sent

  -- the end of the file, with nothing left over or with a last chunk
  fragment_end :
      (fuel : ℕ) (temp : Option Chunk) (a k : ℕ) → Ready temp a k → Result (suc fuel) temp [] a k
  unfolding fragment_loop Result
  fragment_end fuel none a k h =
      ([], ground arith, record { whole = refl; some_bytes = tt; anchored = tt })
  fragment_end fuel (some t) a k h =
      let left = t.uncompressed_data in
      let chunk = with_anchor rabintab rabinwintab fresh (anchor_of (some t) a) (left ++ []) in
      let l = length-append left [] in
      (
        chunk ∷ [],
        ground arith,
        record {
          whole = append-nil (left ++ []);
          some_bytes = (omega arith, tt);
          anchored = (Ready-anchor (some t) a k h, tt);
        },
      )

  -- a round that reads
  fragment_more :
      (fuel : ℕ) (temp : Option Chunk) (input : Bytes) (a k : ℕ) (s : Split) (sent : List Chunk)
      → Ready temp a k
      → 0 < length input
      → k + 1 < 2 ^ 32
      → (let xs = left_over temp ++ take (min maxbuf (length input)) input in
          split_loop rabintab rabinwintab fresh
            (suc (length xs))
            (with_anchor rabintab rabinwintab fresh k xs)
            (k + 1)
          ≡ some s)
      → fragment_loop rabintab rabinwintab fresh fuel
          (some s.temp)
          (drop (min maxbuf (length input)) input)
          s.anchorcount
        ≡ some sent
      → fragment_loop rabintab rabinwintab fresh (suc fuel) temp input a ≡ some (s.sent ++ sent)
  unfolding fragment_loop
  fragment_more fuel temp input a k s sent h some_input small split rest =
      let left = left_over temp in
      let m = min maxbuf (length input) in
      let l = length-take m input in
      let t1 : (length left + length (take m input) == 0) ≡ false = ground arith in
      let t2 : (length (take m input) == 0) ≡ false = ground arith in
      rw (t1, t2, Ready-anchor temp a k h, Ready-next temp a k h small, split, rest) refl

  fragment_loop_lem :
      (fuel : ℕ) (temp : Option Chunk) (input : Bytes) (a k : ℕ)
      → Ready temp a k
      → length input + 1 < fuel
      → k + length (left_over temp) + length input + 1 < 2 ^ 31
      → Result fuel temp input a k
  unfolding Result
  fragment_loop_lem zero temp input a k h f small = absurd (omega arith)
  fragment_loop_lem (suc fuel) temp [] a k h f small = fragment_end fuel temp a k h
  fragment_loop_lem (suc fuel) temp (x ∷ xs) a k h f small =
      let input = x ∷ xs in
      let left = left_over temp in
      let m = min maxbuf (length input) in
      let l = length-take m input in
      let l' = length-drop m input in
      let l'' = length-append left (take m input) in
      let chunk = with_anchor rabintab rabinwintab fresh k (left ++ take m input) in
      let sp =
        split_loop_lem rabintab rabinwintab fresh (suc (length (left ++ take m input))) chunk k refl
          (omega arith) (omega arith) (omega arith) in
      let s = sp.0 in
      let is = sp.2 in
      let ih =
        fragment_loop_lem fuel (some s.temp) (drop m input) s.anchorcount (k + length s.sent)
          (is.anchor, is.next, is.some_left) (omega arith) (omega (arith, is.count)) in
      (
        s.sent ++ ih.0,
        fragment_more fuel temp input a k s ih.0 h (omega arith) (omega arith) sp.1 ih.1,
        record {
          whole = join-whole s ih.0 left input m is.whole ih.2.whole;
          some_bytes = AllSome-append s.sent ih.0 is.some_sent ih.2.some_bytes;
          anchored = IsAnchored-append k s.sent ih.0 is.anchored ih.2.anchored;
        },
      )

  -- FragmentDefault sends coarse chunks that together are the file, of which none is empty and whose
  -- numbers count from 0 on, whatever the tables of the fingerprints hold, for a file of less than
  -- 2 ^ 31 - 1 bytes: the loops end, and the assertion on the offset does not fail.
  pub fragment_lem :
      (file : Bytes)
      → length file + 1 < 2 ^ 31
      → (sent : List Chunk) × (fragment rabintab rabinwintab fresh file ≡ some sent)
        × IsFragmented 0 file sent
  unfolding fragment Result
  fragment_lem file small =
      fragment_loop_lem (length file + 2) none file 0 0 refl (omega arith) (omega arith)
