-- ===== src/Dedup/Decoder.antt =====
-- The decoder of src/dedup/decoder.cpp, from the contents of the input file to those of the output
-- file. Chunks that are added to the cache are not changed any more and stand in it as values. The
-- cache, a hash table, and the input are passed on from round to round.
pub mod Frames
pub mod Feeding
use npb_sync.Prelude.{
  ℕ, zero, suc, ◌+◌, ◌-◌, ◌^◌, true, false, Option, none, some, [], ltb, ◌==◌, ◌||◌, if◌then◌else◌,
  length,
}
use npb_sync.Dedup.Chunk.{
  Bytes, Chunk, sha1_len, type_fingerprint, type_compress, compress_gzip, compress_bzip2,
  compress_none, uncompress_bound,
}
use npb_sync.Dedup.EncodeCommon.{
  xread_fails, xwrite_fails, incomplete_chunk, incorrect_sha1_size, illegal_chunk_size,
  unknown_chunk_type, unknown_compression, header_fails, reading_fails, uncompressing_fails,
  no_unique_counterpart, Result, ok, exit, ◌>>=◌, Libraries, hash_from_key_fn, keys_equal_fn,
}
use npb_sync.Dedup.Files.{
  Received, failed, found, read_header, negative, is_zero, number_of, xread, xwrite,
}
use npb_sync.Dedup.HashTable.{HashTable, hashtable_create, hashtable_search, hashtable_insert}

-- what `read_chunk` leaves: its result, the chunk, the rest of the input
pub record ChunkRead : Type 0 where
  pub r : ℕ
  pub chunk : Chunk
  pub input : Bytes

-- what the loop of `Decode` passes on
pub record Decoding : Type 0 where
  pub cache : HashTable Bytes Chunk
  pub chunk : Chunk
  pub input : Bytes
  pub out : Bytes

module _ (lib : Libraries) where
  -- a read inside a chunk
  unfoldable pub read_all : ℕ → Bytes → Result Received
  unfolding negative is_zero
  read_all n input =
      let got = xread lib.sys n input in
      if negative got.r
      then exit xread_fails
      else if is_zero got.r
      then exit incomplete_chunk
      else ok got

  unfoldable pub read_fingerprint : ℕ → Chunk → Bytes → Result ChunkRead
  unfolding read_all
  read_fingerprint len chunk input =
      if len == sha1_len
      then (read_all sha1_len input >>= λ got. ok (record {
        r = len;
        chunk = record chunk { sha1 = got.got; is_duplicate = true };
        input = got.rest;
      }))
      else exit incorrect_sha1_size

  unfoldable pub read_data : ℕ → Chunk → Bytes → Result ChunkRead
  unfolding read_all
  read_data len chunk input =
      if len == 0
      then exit illegal_chunk_size
      else (read_all len input >>= λ got. ok (record {
        r = len;
        chunk = record chunk { compressed_data = got.got; is_duplicate = false };
        input = got.rest;
      }))

  -- the `switch` on the type
  unfoldable pub read_content : ℕ → ℕ → Chunk → Bytes → Result ChunkRead
  unfolding read_fingerprint read_data
  read_content type len chunk input =
      if type == type_fingerprint
      then read_fingerprint len chunk input
      else if type == type_compress
      then read_data len chunk input
      else exit unknown_chunk_type

  unfoldable pub read_chunk : Chunk → Bytes → Result ChunkRead
  unfolding negative is_zero
  read_chunk chunk input =
      let type = xread lib.sys 1 input in
      if negative type.r
      then exit xread_fails
      else if is_zero type.r
      then ok (record { r = 0; chunk = chunk; input = type.rest })
      else (read_all 8 type.rest >>= λ len.
          read_content (number_of type.got) (number_of len.got) chunk len.rest)

  -- the contents of the buffer `uncompressed_data`
  unfoldable pub uncompress_data : ℕ → Bytes → Result Bytes
  uncompress_data type content =
      if type == compress_none
      then ok content
      else if type == compress_gzip
      then elim (lib.zlib.uncompress uncompress_bound content) [
        | none ↦ exit uncompressing_fails
        | some xs ↦ ok xs
      ]
      else if type == compress_bzip2
      then elim (lib.bzip2.uncompress uncompress_bound content) [
        | none ↦ exit uncompressing_fails
        | some xs ↦ ok xs
      ]
      else exit unknown_compression

  -- the size of the data, and the chunk
  unfoldable pub uncompress_chunk : ℕ → Chunk → Result (ℕ × Chunk)
  unfolding uncompress_data
  uncompress_chunk type chunk = uncompress_data type chunk.compressed_data >>= λ xs.
      ok (length xs, record chunk { uncompressed_data = xs; compressed_data = [] })

  -- the write to the output file, `entry` being the chunk with the data
  unfoldable pub write_entry : Chunk → Decoding → Result Decoding
  unfolding negative
  write_entry entry d =
      let done = xwrite lib.sys entry.uncompressed_data d.out in
      let sent = if negative done.0 then done.0 + (2 ^ 64 - 2 ^ 32) else done.0 in
      if ltb sent (length entry.uncompressed_data)
      then exit xwrite_fails
      else ok (record d { out = done.1 })

  -- the `if` on isDuplicate; a chunk that is consumed is followed by a new one, of `malloc`
  unfoldable pub process_chunk : ℕ → Decoding → Result Decoding
  unfolding negative is_zero
  process_chunk type d =
      if d.chunk.is_duplicate
      then elim (hashtable_search d.cache d.chunk.sha1) [
        | none ↦ exit no_unique_counterpart
        | some entry ↦ write_entry entry d
      ]
      else (uncompress_chunk type d.chunk >>= λ done.
          (if negative done.0 || is_zero done.0
            then exit uncompressing_fails
            else (let sha1 = lib.digest done.1.uncompressed_data in
                let entry = record done.1 { sha1 = sha1 } in
                write_entry entry (record d { cache = hashtable_insert sha1 entry d.cache }))))

  -- one round of the loop: `none` where it ends
  unfoldable pub decode_round : ℕ → Decoding → Result (Option Decoding)
  unfolding negative is_zero
  decode_round type d = read_chunk d.chunk d.input >>= λ got.
      (if negative got.r
        then exit reading_fails
        else if is_zero got.r
        then ok none
        else (process_chunk type (record d { chunk = got.chunk; input = got.input }) >>= λ d'.
            ok (some d')))

  -- the loop, which takes nine bytes of the input at least in each round
  unfoldable pub decode_loop : ℕ → ℕ → Decoding → Result Bytes
  decode_loop zero type d = exit reading_fails
  decode_loop (suc fuel) type d =
      decode_round type d >>= λ o. elim o [ none ↦ ok d.out | some d' ↦ decode_loop fuel type d' ]

  -- `chunk` and `garbage` are what memory that was not written holds
  unfoldable pub decode : Chunk → ℕ → Bytes → Result Bytes
  unfolding decode_loop
  decode chunk garbage file =
      elim (hashtable_create {V = Chunk} 65536 hash_from_key_fn keys_equal_fn) [
        | none ↦ exit header_fails
        | some cache ↦ elim (read_header lib.sys garbage garbage file) [
          | failed ↦ exit header_fails
          | found type rest ↦
              decode_loop (suc (length rest)) type
                (record { cache = cache; chunk = chunk; input = rest; out = [] })
        ]
      ]
