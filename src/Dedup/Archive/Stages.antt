-- ===== src/Dedup/Archive/Stages.antt =====
-- The invariants of the archive under the steps of the stages.
use npb_sync.Prelude.{
  ℕ, ◌+◌, ◌≡◌, inl, inr, refl, ◌∙◌, sym, true, false, some, none, Bool-cases, [], subst, append-nil,
}
use npb_sync.Dedup.Chunk.{Bytes, uncompressed, Chunk}
use npb_sync.Dedup.EncodeCommon.{
  Libraries, keys_equal_fn, hash_from_key_fn, Encoder, ok, write_original, write_chunk_to_file,
  ok-injective,
}
use npb_sync.Dedup.Files.{IsRegular}
use npb_sync.Dedup.HashTable.{HashTable, hashtable_create}
use npb_sync.Dedup.HashTable.Searching.{search_empty, create-fns}
use npb_sync.Dedup.Decoder.{Decoding}
use npb_sync.Dedup.Decoder.Feeding.{feed}
use npb_sync.Dedup.Archive.{
  Encoding, Step, deduplicate, compress, write, Steps, stay, step, start, loaded, input_of,
  AreLibraries, IsCompression,
}
use npb_sync.Dedup.Archive.Sharing.{Original}
use npb_sync.Dedup.Archive.Written.{ArePieces, waits, writes, write_original_lem}
use npb_sync.Dedup.Archive.Kernels.{IsKept, deduplicate-Kept, compress-Kept}

module _ (lib : Libraries) (type : ℕ) (sys : IsRegular lib.sys) (libs : AreLibraries lib)
    (known : IsCompression type) (pieces_of : ℕ → Bytes) (pieces : ArePieces lib pieces_of)
    (header : Bytes) (d0 : Decoding) where
  -- write_chunk_to_file on the next chunk: it waits, or succeeds and keeps the invariant
  pub data WriteOutcome (e : Encoding) : Type 0 where
    waits_for :
        (o : ℕ)
        → e.seen o ≡ true
        → (e.s.chunks o).is_duplicate ≡ false
        → (e.s.chunks o).state ≡ uncompressed
        → write_chunk_to_file lib e.written e.s ≡ none
        → WriteOutcome e
    writes_on :
        (s : Encoder)
        → write_chunk_to_file lib e.written e.s ≡ some (ok s)
        → IsKept lib type sys libs known pieces_of pieces header d0
            (record e { s = s; written = e.written + 1 })
        → WriteOutcome e

  original_written :
      (e : Encoding) (o : ℕ)
      → Original lib type pieces_of e.s.chunks e.seen o (lib.digest (pieces_of e.written))
      → write_chunk_to_file lib e.written e.s ≡ write_original lib o e.s
      → IsKept lib type sys libs known pieces_of pieces header d0 e
      → WriteOutcome e
  unfolding IsKept
  original_written e o orig w k =
      elim (write_original_lem lib type pieces_of header d0 sys libs.digest pieces e.s e.seen
        e.written o k orig) [
          | waits u n ↦ waits_for o orig.is_seen orig.unique u (w ∙ n)
          | writes s r k' ↦ writes_on s (w ∙ r) k'
        ]

  pub write-Kept :
      (e : Encoding)
      → e.seen e.written ≡ true
      → IsKept lib type sys libs known pieces_of pieces header d0 e
      → WriteOutcome e
  unfolding IsKept write_chunk_to_file
  write-Kept e was k = elim (Bool-cases (e.s.chunks e.written).is_duplicate) [
    | inl y ↦
        original_written e (e.s.chunks e.written).compressed_data_ref
          (k.sharing.shared e.written was y) (rw (write_chunk_to_file, y) refl) k
    | inr n ↦
        original_written e e.written (record { is_seen = was; unique = n; of_digest = refl })
          (rw (write_chunk_to_file, n) refl) k
  ]

  Step-Kept :
      (e e' : Encoding)
      → Step lib type e e'
      → IsKept lib type sys libs known pieces_of pieces header d0 e
      → IsKept lib type sys libs known pieces_of pieces header d0 e'
  Step-Kept e _ (deduplicate i new) k =
      deduplicate-Kept lib type sys libs known pieces_of pieces header d0 e i new k
  Step-Kept e _ (compress i s was unique st c) k =
      let r =
        compress-Kept lib type sys libs known pieces_of pieces header d0 e i was unique st k in
      subst (λ t. IsKept lib type sys libs known pieces_of pieces header d0 (record e { s = t }))
        (ok-injective r.0 s (sym r.1 ∙ c)) r.2
  Step-Kept e _ (write s was w) k = elim (write-Kept e was k) [
    | waits_for o _ _ u n ↦ absurd (cc (n, w))
    | writes_on t r kept ↦
        subst
          (λ t.
            IsKept lib type sys libs known pieces_of pieces header d0
              (record e { s = t; written = e.written + 1 }))
          (cc (r, w)) kept
  ]

  pub Steps-Kept :
      (e e' : Encoding)
      → Steps lib type e e'
      → IsKept lib type sys libs known pieces_of pieces header d0 e
      → IsKept lib type sys libs known pieces_of pieces header d0 e'
  Steps-Kept e _ stay k = k
  Steps-Kept e _ (step e1 e2 before last) k = Step-Kept e1 e2 last (Steps-Kept e e1 before k)

  pub start-Kept :
      (cache : HashTable Bytes ℕ) (fresh : ℕ → Chunk)
      → hashtable_create 65536 hash_from_key_fn keys_equal_fn ≡ some cache
      → d0.cache.eqfn ≡ keys_equal_fn
      → d0.out ≡ []
      → IsKept lib type sys libs known pieces_of pieces header d0
          (start cache header pieces_of fresh)
  unfolding IsKept start loaded feed input_of
  start-Kept cache fresh created keys empty = record {
    sharing = record {
      keys = (create-fns 65536 hash_from_key_fn keys_equal_fn cache created).1;
      fresh = λ i _. (refl, refl);
      found = λ j r e. absurd (
          cc (
            search_empty 65536 hash_from_key_fn keys_equal_fn cache (lib.digest (pieces_of j))
                created,
            e,
          ));
      shared = λ i h h'. absurd (cc h);
      hashed = λ i h. absurd (cc h);
      held = λ i h h'. absurd (cc h);
    };
    output = record {
      frames = [];
      is_out = sym (append-nil header);
      fit = tt;
      d = d0;
      fed = refl;
      decoded = empty;
      keys = keys;
      known = λ i h h' h''. absurd (cc h);
    };
  }
