-- ===== src/Dedup/Archive.antt =====
-- The program dedup of src/dedup/encode_common.cpp around its pipelines: chunks of the input, in the
-- order of their sequence numbers, are deduplicated and compressed by the threads of the stages in
-- any order, and written in their order. The steps are those of the stages Deduplicate, Compress and
-- Reorder of encode_default.cpp, encode_fifo.cpp, encode_naive_queue.cpp and encode_smart.cpp, whose
-- queues pass a chunk on after the step before it; the address of a chunk is its place in the order.
pub mod Decoded
pub mod Sharing
pub mod Written
pub mod Header
pub mod Kernels
pub mod Stages
pub mod Roundtrip
pub mod Whole
use npb_sync.Prelude.{
  ℕ, zero, suc, ◌+◌, ◌≡◌, Bool, true, false, some, ◌++◌, [], ◌/◌, ◌^◌, length, ◌<◌, ◌≤◌, refl,
  arith,
}
use npb_sync.Memory.{Memory, store}
use npb_sync.Dedup.Chunk.{
  Bytes, uncompressed, Chunk, sha1_len, compress_gzip, compress_bzip2, compress_none,
}
use npb_sync.Dedup.EncodeCommon.{
  ok, Compressor, Libraries, Encoder, write_chunk_to_file, sub_compress, sub_deduplicate,
}
use npb_sync.Dedup.HashTable.{HashTable}

-- the encoder's state, which chunks the stage Deduplicate has seen, and how many are written
pub record Encoding : Type 0 where
  pub s : Encoder
  pub seen : Memory Bool
  pub written : ℕ

-- the pieces of the input in the chunks, at the places from 0 on; the rest of a chunk is not set
unfoldable pub loaded : (ℕ → Bytes) → (ℕ → Chunk) → Memory Chunk
loaded content fresh i = record (fresh i) { uncompressed_data = content i; state = uncompressed }

-- the state at the start, from the created table and the output file with its header
unfoldable pub start : HashTable Bytes ℕ → Bytes → (ℕ → Bytes) → (ℕ → Chunk) → Encoding
start cache out content fresh = record {
  s = record { chunks = loaded content fresh; cache = cache; out = out };
  seen = λ _. false;
  written = 0;
}

module _ (lib : Libraries) (type : ℕ) where
  pub data Step (e : Encoding) : Encoding → Type 0 where
    deduplicate :
        (i : ℕ)
        → e.seen i ≡ false
        → Step e (record e { s = (sub_deduplicate lib i e.s).1; seen = store e.seen i true })
    compress :
        (i : ℕ) (s : Encoder)
        → e.seen i ≡ true
        → (e.s.chunks i).is_duplicate ≡ false
        → (e.s.chunks i).state ≡ uncompressed
        → sub_compress lib type i e.s ≡ ok s
        → Step e (record e { s = s })
    write :
        (s : Encoder)
        → e.seen e.written ≡ true
        → write_chunk_to_file lib e.written e.s ≡ some (ok s)
        → Step e (record e { s = s; written = e.written + 1 })

  pub data Steps (e : Encoding) : Encoding → Type 0 where
    stay : Steps e e
    step : (e' e'' : Encoding) → Steps e e' → Step e' e'' → Steps e e''

-- the contents of the first `n` chunks
unfoldable pub input_of : (ℕ → Bytes) → ℕ → Bytes
input_of content zero = []
input_of content (suc n) = input_of content n ++ content n

-- what the manuals of zlib and bzip2 say of a destination that is large enough: compression
-- succeeds, into at least one byte, and uncompressing gives the source if there is room for it
pub record IsCompressor (room : ℕ → ℕ) (c : Compressor) : Type 0 where
  pub compresses : (xs : Bytes) → (ys : Bytes) × (c.compress (room (length xs)) xs ≡ some ys)
  pub some_bytes :
      (n : ℕ) (xs ys : Bytes) → c.compress n xs ≡ some ys → (0 < length ys) × (length ys ≤ n)
  pub uncompresses :
      (n bound : ℕ) (xs ys : Bytes)
      → c.compress n xs ≡ some ys
      → length xs ≤ bound
      → c.uncompress bound ys ≡ some xs

-- both libraries, and the length of a digest
pub record AreLibraries (lib : Libraries) : Type 0 where
  pub zlib : IsCompressor (λ n. n + n / 2 ^ 9 + 12) lib.zlib
  pub bzip2 : IsCompressor (λ n. n + n / 2 ^ 6 + 600) lib.bzip2
  pub digest : (xs : Bytes) → length (lib.digest xs) ≡ sha1_len

pub data IsCompression : ℕ → Type 0 where
  gzip : IsCompression compress_gzip
  bzip : IsCompression compress_bzip2
  no_compression : IsCompression compress_none

pub input_of-add :
    (content : ℕ → Bytes) (n : ℕ) → input_of content (n + 1) ≡ input_of content n ++ content n
unfolding input_of
input_of-add content n = let e : n + 1 ≡ suc n = omega arith in rw e refl
