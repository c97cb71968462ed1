-- ===== src/Dedup/Archive/Whole.antt =====
-- From a file to its archive and back: the pieces that the stages Fragment and FragmentRefine of
-- src/dedup/encode_default.cpp cut are those that the archive holds.
use npb_sync.Prelude.{
  ℕ, zero, suc, ◌+◌, ◌^◌, ◌<◌, ◌≡◌, refl, ap, ◌∙◌, sym, subst, arith, some, List, [], ◌∷◌, ◌++◌,
  length, append-nil, append_assoc, length-append,
}
use npb_sync.Memory.{Memory}
use npb_sync.Dedup.Archive.{Encoding, Steps, start, input_of, AreLibraries, IsCompression}
use npb_sync.Dedup.Archive.Roundtrip.{decode_lem}
use npb_sync.Dedup.Archive.Written.{ArePieces}
use npb_sync.Dedup.Chunk.{Bytes, Chunk}
use npb_sync.Dedup.Decoder.{decode}
use npb_sync.Dedup.EncodeCommon.{Libraries, ok, hash_from_key_fn, keys_equal_fn, create_output_file}
use npb_sync.Dedup.Files.{IsRegular}
use npb_sync.Dedup.Fragment.{fragment}
use npb_sync.Dedup.Fragment.Splits.{contents-append}
use npb_sync.Dedup.Fragment.Whole.{fragment_lem}
use npb_sync.Dedup.HashTable.{HashTable, hashtable_create}
use npb_sync.Dedup.Refine.{contents, AllSome, refine, refine_lem}

-- the contents of the chunk at a place, or `other` behind the last one
abbrev pub piece_at : List Chunk → Bytes → ℕ → Bytes
piece_at [] other i = other
piece_at (c ∷ cs) other zero = c.uncompressed_data
piece_at (c ∷ cs) other (suc i) = piece_at cs other i

input_of-cons : (f : ℕ → Bytes) (n : ℕ) → input_of f (suc n) ≡ f 0 ++ input_of (λ i. f (suc i)) n
unfolding input_of
input_of-cons f zero = sym (append-nil (f 0))
input_of-cons f (suc n) =
    ap (λ xs. xs ++ f (suc n)) (input_of-cons f n)
    ∙ append_assoc (f 0) (input_of (λ i. f (suc i)) n) (f (suc n))

input_of-pieces :
    (cs : List Chunk) (other : Bytes) → input_of (piece_at cs other) (length cs) ≡ contents cs
unfolding input_of
input_of-pieces [] other = refl
input_of-pieces (c ∷ cs) other =
    input_of-cons (piece_at (c ∷ cs) other) (length cs)
    ∙ ap (◌++◌ c.uncompressed_data) (input_of-pieces cs other)

some_injective : {A : Type 0} (a b : A) → some a ≡ some b → a ≡ b
some_injective a b e = cc

module _ (rabintab rabinwintab : Memory ℕ) (fresh : Chunk) where
  -- the pieces of all coarse chunks, in the order of their sequence numbers
  unfoldable pub refine_all : List Chunk → List Chunk
  refine_all [] = []
  refine_all (c ∷ cs) = refine rabintab rabinwintab fresh c ++ refine_all cs

  refine_all-contents :
      (cs : List Chunk)
      → AllSome cs
      → length (contents cs) < 2 ^ 31
      → contents (refine_all cs) ≡ contents cs
  unfolding refine_all
  refine_all-contents [] h small = refl
  refine_all-contents (c ∷ cs) h small =
      let l = length-append c.uncompressed_data (contents cs) in
      let r = refine_lem rabintab rabinwintab fresh c h.0 (omega arith) in
      contents-append (refine rabintab rabinwintab fresh c) (refine_all cs)
      ∙ ap (λ xs. xs ++ contents (refine_all cs)) r.whole
      ∙ ap (◌++◌ c.uncompressed_data) (refine_all-contents cs h.1 (omega arith))

  pieces-file :
      (file : Bytes) (sent : List Chunk)
      → length file + 1 < 2 ^ 31
      → fragment rabintab rabinwintab fresh file ≡ some sent
      → contents (refine_all sent) ≡ file
  pieces-file file sent small cut =
      let f = fragment_lem rabintab rabinwintab fresh file small in
      let same : f.0 ≡ sent = some_injective f.0 sent (sym f.1 ∙ cut) in
      let whole : contents sent ≡ file = subst (λ cs. contents cs ≡ file) same f.2.whole in
      let all : AllSome sent = subst AllSome same f.2.some_bytes in
      let l = ap length whole in refine_all-contents sent all (omega (arith, l)) ∙ whole

  module _ (lib : Libraries) (type : ℕ) (sys : IsRegular lib.sys) (libs : AreLibraries lib)
      (known : IsCompression type) (file : Bytes) (sent : List Chunk) (other : Bytes)
      (small : length file + 1 < 2 ^ 31)
      (cut : fragment rabintab rabinwintab fresh file ≡ some sent)
      (pieces : ArePieces lib (piece_at (refine_all sent) other)) (cache : HashTable Bytes ℕ)
      (created : hashtable_create 65536 hash_from_key_fn keys_equal_fn ≡ some cache)
      (header : Bytes) (opened : create_output_file lib type ≡ ok header) (unset : ℕ → Chunk)
      (e : Encoding)
      (steps : Steps lib type (start cache header (piece_at (refine_all sent) other) unset) e) where
    -- The decoder gives back the file, if it is cut by Fragment and FragmentRefine, and all its
    -- pieces are written, after steps of the stages in any order; the file has less than 2 ^ 31 - 1
    -- bytes, and the other conditions are those of decode_lem on the pieces.
    pub file_lem :
        (chunk : Chunk) (garbage : ℕ)
        → e.written ≡ length (refine_all sent)
        → decode lib chunk garbage e.s.out ≡ ok file
    file_lem chunk garbage all =
        decode_lem lib type sys libs known (piece_at (refine_all sent) other) pieces cache created
          header opened unset e steps chunk garbage
        ∙ ap ok (
            ap (input_of (piece_at (refine_all sent) other)) all
            ∙ input_of-pieces (refine_all sent) other
            ∙ pieces-file file sent small cut)
