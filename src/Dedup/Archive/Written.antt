-- ===== src/Dedup/Archive/Written.antt =====
-- The output file of src/dedup/encode_common.cpp, as far as it is written: a decoder that has read
-- it has written the contents of the chunks written, and knows those of the chunks that are flushed.
use npb_sync.Prelude.{
  ℕ, ◌+◌, ◌^◌, ◌≤◌, ◌<◌, ◌≡◌, ◌⊎◌, inl, inr, refl, ap, ◌∙◌, sym, arith, ◌==◌, ==_iff, length, true,
  false, Bool, some, none, Bool-cases, List, [], ◌∷◌, ◌++◌, subst, append_assoc,
}
use npb_sync.Memory.{Memory, store}
use npb_sync.Dedup.Chunk.{
  Bytes, ChunkState, uncompressed, compressed, flushed, Chunk, sha1_len, uncompress_bound,
  type_compress, type_fingerprint,
}
use npb_sync.Dedup.EncodeCommon.{Libraries, keys_equal_fn, Encoder, ok, write_original}
use npb_sync.Dedup.Files.{IsRegular, bytes_of}
use npb_sync.Dedup.HashTable.{HashTable, hashtable_search, hashtable_insert}
use npb_sync.Dedup.HashTable.Searching.{search-insert_same}
use npb_sync.Dedup.Decoder.{Decoding, process_chunk}
use npb_sync.Dedup.Decoder.Frames.{Frame, digest, data_of, Fits, frame_bytes, hold, write_file_lem}
use npb_sync.Dedup.Decoder.Feeding.{archive, AllFit, archive-snoc, AllFit-snoc, feed, feed-snoc}
use npb_sync.Dedup.Archive.{input_of, input_of-add}
use npb_sync.Dedup.Archive.Decoded.{
  Packs, after_data, process_data, process_digest, keys_equal_refl,
}
use npb_sync.Dedup.Archive.Sharing.{Sharing, Original, search-insert, insert-eqfn, state-Sharing}

-- the hypotheses on the pieces of the input: they are not empty and small enough to uncompress, and
-- those with the same digest are the same
pub record ArePieces (lib : Libraries) (content : ℕ → Bytes) : Type 0 where
  pub some_bytes : (i : ℕ) → 0 < length (content i)
  pub small : (i : ℕ) → length (content i) ≤ uncompress_bound
  pub collision_free :
      (i j : ℕ) → lib.digest (content i) ≡ lib.digest (content j) → content i ≡ content j

State-cases : (st : ChunkState) → (st ≡ uncompressed) ⊎ ((st ≡ compressed) ⊎ (st ≡ flushed))
State-cases uncompressed = inl refl
State-cases compressed = inr (inl refl)
State-cases flushed = inr (inr refl)

module _ (lib : Libraries) (type : ℕ) (content : ℕ → Bytes) (header : Bytes) (d0 : Decoding) where
  -- the decoder knows the contents of chunk `i`
  abbrev pub Known : HashTable Bytes Chunk → ℕ → Type 0
  Known cache i =
      (entry : Chunk) × (hashtable_search cache (lib.digest (content i)) ≡ some entry)
      × (entry.uncompressed_data ≡ content i)

  pub record Written (chunks : Memory Chunk) (seen : Memory Bool) (out : Bytes) (written : ℕ)
      : Type 0 where
    pub frames : List Frame
    pub is_out : out ≡ header ++ archive frames
    pub fit : AllFit frames
    pub d : Decoding
    pub fed : feed lib type frames d0 ≡ ok d
    pub decoded : d.out ≡ input_of content written
    pub keys : d.cache.eqfn ≡ keys_equal_fn
    pub known :
        (i : ℕ)
        → seen i ≡ true
        → (chunks i).is_duplicate ≡ false
        → (chunks i).state ≡ flushed
        → Known d.cache i

  -- the state of the encoder, and the two invariants
  pub record Kept (s : Encoder) (seen : Memory Bool) (written : ℕ) : Type 0 where
    pub sharing : Sharing lib type content s.chunks s.cache seen
    pub output : Written s.chunks seen s.out written

  module _ (sys : IsRegular lib.sys)
      (digest_length : (xs : Bytes) → length (lib.digest xs) ≡ sha1_len)
      (pieces : ArePieces lib content) where
    -- a frame more
    snoc-Written :
        (chunks chunks' : Memory Chunk) (seen : Memory Bool) (out : Bytes) (n : ℕ)
        (w : Written chunks seen out n) (f : Frame) (d : Decoding)
        → Fits f
        → process_chunk lib type (record w.d { chunk = hold f w.d.chunk }) ≡ ok d
        → d.out ≡ w.d.out ++ content n
        → d.cache.eqfn ≡ keys_equal_fn
        → ((i : ℕ)
            → seen i ≡ true
            → (chunks' i).is_duplicate ≡ false
            → (chunks' i).state ≡ flushed
            → Known d.cache i)
        → Written chunks' seen (out ++ frame_bytes f) (n + 1)
    snoc-Written chunks chunks' seen out n w f d fit step more keys known = record {
      frames = w.frames ++ f ∷ [];
      is_out =
          ap (λ xs. xs ++ frame_bytes f) w.is_out
          ∙ append_assoc header (archive w.frames) (frame_bytes f)
          ∙ ap (◌++◌ header) (sym (archive-snoc w.frames f));
      fit = AllFit-snoc w.frames f w.fit fit;
      d = d;
      fed = feed-snoc lib type w.frames f d0 w.d w.fed ∙ step;
      decoded = more ∙ ap (λ xs. xs ++ content n) w.decoded ∙ sym (input_of-add content n);
      keys = keys;
      known = known;
    }

    module _ (s : Encoder) (seen : Memory Bool) (n o : ℕ) (kept : Kept s seen n)
        (orig : Original lib type content s.chunks seen o (lib.digest (content n))) where
      same_content : content o ≡ content n
      same_content = pieces.collision_free o n orig.of_digest

      small_content : (i : ℕ) → length (content i) < 2 ^ 31
      small_content i = omega (arith, pieces.small i)

      abbrev flush : Chunk
      flush = record (s.chunks o) { compressed_data = []; state = flushed }

      -- what the decoder knows behind a data frame
      Known-data :
          (ys : Bytes) (i : ℕ)
          → seen i ≡ true
          → (store s.chunks o flush i).is_duplicate ≡ false
          → (store s.chunks o flush i).state ≡ flushed
          → Known (after_data lib type sys (content o) ys kept.output.d).cache i
      unfolding after_data
      Known-data ys i was unique is_flushed =
          let d = kept.output.d in
          let key : ℕ → Bytes = λ j. lib.digest (content j) in
          let c = hold (data_of ys) d.chunk in
          let entry = record c {
            uncompressed_data = content o;
            compressed_data = [];
            sha1 = key o;
          } in
          elim (Bool-cases (o == i)) [
            | inl y ↦
                let e = (==_iff o i).0 y in
                subst (λ k. Known (hashtable_insert (key o) entry d.cache) k) e
                  (
                    entry,
                    search-insert_same d.cache (key o) (key o) entry refl
                        (rw kept.output.keys (keys_equal_refl (key o))),
                    refl,
                  )
            | inr n ↦
                let k = kept.output.known i was (rw n at unique) (rw n at is_flushed) in
                elim (search-insert d.cache (key o) (key i) entry kept.output.keys
                  (digest_length (content o)) (digest_length (content i))) [
                    | inl same ↦ (entry, same.1, pieces.collision_free o i (sym same.0))
                    | inr other ↦ (k.0, other ∙ k.1, k.2)
                  ]
          ]

      -- the chunk's data are written
      data-Kept :
          (ys : Bytes)
          → Packs lib type (content o) ys
          → Kept
              (record s {
                chunks = store s.chunks o flush;
                out = s.out ++ frame_bytes (data_of ys);
              })
              seen
              (n + 1)
      unfolding after_data
      data-Kept ys p =
          let d = kept.output.d in
          let key = lib.digest (content o) in
          let entry = record (hold (data_of ys) d.chunk) {
            uncompressed_data = content o;
            compressed_data = [];
            sha1 = key;
          } in
          record {
            sharing =
                state-Sharing lib type content digest_length s.chunks s.cache seen kept.sharing o
                  (s.chunks o).uncompressed_data [] flushed orig.is_seen (λ q. cc q) (λ q. cc q);
            output =
                snoc-Written s.chunks (store s.chunks o flush) seen s.out n kept.output (data_of ys)
                  (after_data lib type sys (content o) ys d) (p.some_bytes, p.fits)
                  (process_data lib type sys (content o) ys d p.undone (pieces.some_bytes o)
                    (small_content o))
                  (ap (◌++◌ d.out) same_content) (insert-eqfn d.cache key entry kept.output.keys)
                  (Known-data ys);
          }

      -- the chunk's digest is written
      digest-Kept :
          (s.chunks o).state ≡ flushed
          → Kept (record s { out = s.out ++ frame_bytes (digest (s.chunks o).sha1) }) seen (n + 1)
      digest-Kept st =
          let w = kept.output in
          let sha1 = (s.chunks o).sha1 in
          let k = w.known o orig.is_seen orig.unique st in
          let h = kept.sharing.hashed o orig.is_seen in
          record {
            sharing = kept.sharing;
            output =
                snoc-Written s.chunks s.chunks seen s.out n w (digest sha1)
                  (record w.d {
                    chunk = hold (digest sha1) w.d.chunk;
                    out = w.d.out ++ k.0.uncompressed_data;
                  })
                  (rw h (digest_length (content o)))
                  (process_digest lib type sys sha1 k.0 w.d (rw h k.1) (rw k.2 (small_content o)))
                  (ap (◌++◌ w.d.out) (k.2 ∙ same_content)) w.keys w.known;
          }

      -- write_original on the original of the next chunk: it waits for the compression, or keeps the
      -- invariants; it does not exit
      pub data Outcome : Type 0 where
        waits : (s.chunks o).state ≡ uncompressed → write_original lib o s ≡ none → Outcome
        writes :
            (s' : Encoder) → write_original lib o s ≡ some (ok s') → Kept s' seen (n + 1) → Outcome

      pub write_original_lem : Outcome
      unfolding write_original frame_bytes
      write_original_lem = elim (State-cases (s.chunks o).state) [
        | inl u ↦ waits u (rw (write_original, u) refl)
        | inr rest ↦ elim rest [
          | inl c ↦
              let ys = (s.chunks o).compressed_data in
              let p = (kept.sharing.held o orig.is_seen orig.unique).1 c in
              writes
                (record s {
                  chunks = store s.chunks o flush;
                  out = s.out ++ frame_bytes (data_of ys);
                })
                (rw (write_original, c, write_file_lem lib sys type_compress ys s.out p.fits) refl)
                (data-Kept ys p)
          | inr f ↦
              let sha1 = (s.chunks o).sha1 in
              let l : length sha1 ≡ sha1_len =
                rw (kept.sharing.hashed o orig.is_seen) (digest_length (content o)) in
              let e = write_file_lem lib sys type_fingerprint sha1 s.out (omega arith) in
              let e' = rw l at e in
              writes (record s { out = s.out ++ frame_bytes (digest sha1) })
                (rw (write_original, f, e')
                  (ap
                    (λ k. some (
                      ok (record s {
                        out = s.out ++ (bytes_of 1 type_fingerprint ++ (bytes_of 8 k ++ sha1));
                      })))
                    (sym l)))
                (digest-Kept f)
        ]
      ]
