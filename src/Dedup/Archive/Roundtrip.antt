-- ===== src/Dedup/Archive/Roundtrip.antt =====
-- The decoder of src/dedup/decoder.cpp on what the encoder of src/dedup/encode_common.cpp wrote.
use npb_sync.Prelude.{ℕ, ◌≡◌, refl, ap, ◌∙◌, sym, true, false, some, none, ◌++◌}
use npb_sync.Dedup.Chunk.{Bytes, uncompressed, Chunk}
use npb_sync.Dedup.EncodeCommon.{
  Libraries, keys_equal_fn, hash_from_key_fn, Encoder, ok, write_chunk_to_file, sub_compress,
  create_output_file, ok-injective,
}
use npb_sync.Dedup.Files.{IsRegular}
use npb_sync.Dedup.HashTable.{HashTable, hashtable_create}
use npb_sync.Dedup.Decoder.{decode}
use npb_sync.Dedup.Decoder.Feeding.{archive}
use npb_sync.Dedup.Archive.{Encoding, Steps, start, input_of, AreLibraries, IsCompression}
use npb_sync.Dedup.Archive.Written.{ArePieces}
use npb_sync.Dedup.Archive.Header.{header_bytes, write_header_lem, first, decode_frames}
use npb_sync.Dedup.Archive.Kernels.{IsKept, compress-Kept}
use npb_sync.Dedup.Archive.Stages.{waits_for, writes_on, write-Kept, Steps-Kept, start-Kept}

module _ (lib : Libraries) (type : ℕ) (sys : IsRegular lib.sys) (libs : AreLibraries lib)
    (known : IsCompression type) (pieces_of : ℕ → Bytes) (pieces : ArePieces lib pieces_of)
    (cache : HashTable Bytes ℕ)
    (created : hashtable_create 65536 hash_from_key_fn keys_equal_fn ≡ some cache) (header : Bytes)
    (opened : create_output_file lib type ≡ ok header) (fresh : ℕ → Chunk) (e : Encoding)
    (steps : Steps lib type (start cache header pieces_of fresh) e) where
  is_header : header ≡ header_bytes lib.sys sys type
  unfolding create_output_file
  is_header = ok-injective header _ (sym opened ∙ rw (write_header_lem lib.sys sys type) refl)

  -- Whatever the order in which the threads deduplicate and compress the chunks, and from any state
  -- that is reached, the decoder gives from the output file exactly the contents of the chunks that
  -- were written, in the order of the input, if the file was created by create_output_file for one
  -- of the three compressions and the database by hashtable_create. The pieces are not empty and at
  -- most as large as UNCOMPRESS_BOUND, and those with the same digest are the same; read and write
  -- may move fewer bytes than asked; zlib, bzip2 and SHA-1 do what their manuals say.
  pub decode_lem :
      (chunk : Chunk) (garbage : ℕ)
      → decode lib chunk garbage e.s.out ≡ ok (input_of pieces_of e.written)
  unfolding IsKept first
  decode_lem chunk garbage =
      let d0 = first chunk in
      let k =
        Steps-Kept lib type sys libs known pieces_of pieces header d0
          (start cache header pieces_of fresh) e steps
          (start-Kept lib type sys libs known pieces_of pieces header d0 cache fresh created refl
            refl) in
      let w = k.output in
      ap (decode lib chunk garbage) (w.is_out ∙ ap (λ h. h ++ archive w.frames) is_header)
      ∙ decode_frames lib type sys known chunk garbage w.frames w.d w.fit w.fed
      ∙ ap ok w.decoded

  -- what a thread can do where the next chunk in the order has been deduplicated
  pub data Progress : Type 0 where
    writes_next : (s : Encoder) → write_chunk_to_file lib e.written e.s ≡ some (ok s) → Progress
    compresses :
        (o : ℕ) (s : Encoder)
        → write_chunk_to_file lib e.written e.s ≡ none
        → e.seen o ≡ true
        → (e.s.chunks o).is_duplicate ≡ false
        → (e.s.chunks o).state ≡ uncompressed
        → sub_compress lib type o e.s ≡ ok s
        → Progress

  -- In every state that is reached and in which the next chunk in the order has been deduplicated,
  -- write_chunk_to_file writes it, or waits for an original that has been deduplicated and is not
  -- compressed yet, which sub_Compress then compresses: neither exits with a message. The
  -- conditions are those of decode_lem.
  pub progress_lem : e.seen e.written ≡ true → Progress
  unfolding IsKept first
  progress_lem was =
      let d0 = first (fresh 0) in
      let k =
        Steps-Kept lib type sys libs known pieces_of pieces header d0
          (start cache header pieces_of fresh) e steps
          (start-Kept lib type sys libs known pieces_of pieces header d0 cache fresh created refl
            refl) in
      elim (write-Kept lib type sys libs known pieces_of pieces header d0 e was k) [
        | waits_for o seen unique u w ↦
            let r =
              compress-Kept lib type sys libs known pieces_of pieces header d0 e o seen unique u
                k in
            compresses o r.0 w seen unique u r.1
        | writes_on s w _ ↦ writes_next s w
      ]
