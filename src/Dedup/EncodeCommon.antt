-- ===== src/Dedup/EncodeCommon.antt =====
-- The kernels of the stages, of src/dedup/encode_common.cpp, compiled with ENABLE_PTHREADS and both
-- compressions. Chunks are cells of a memory that is indexed by their addresses. A kernel runs as
-- one step: it holds the lock of the chunk or of the list of the hash table all along. SHA-1 and the
-- compressions are parameters; memory is taken to be there when it is asked for.
use npb_sync.Prelude.{
  ℕ, ◌+◌, ◌/◌, ◌^◌, ◌≡◌, refl, Bool, true, false, Option, none, some, [], ◌∷◌, ◌==◌, ◌&&◌,
  if◌then◌else◌, length, take,
}
use npb_sync.Memory.{Memory, store}
use npb_sync.Dedup.Chunk.{
  Bytes, uncompressed, compressed, flushed, Chunk, sha1_len, type_fingerprint, type_compress,
  compress_gzip, compress_bzip2, compress_none,
}
use npb_sync.Dedup.Files.{System, negative, bytes_of, number_of, xwrite, write_header}
use npb_sync.Dedup.HashTable.{HashTable, hashtable_search, hashtable_insert}

-- `exit` with a message
pub data Exit : Type 0 where
  xwrite_fails : Exit
  xread_fails : Exit
  incomplete_chunk : Exit
  incorrect_sha1_size : Exit
  illegal_chunk_size : Exit
  unknown_chunk_type : Exit
  unknown_compression : Exit
  compression_failed : Exit
  assertion_failed : Exit
  header_fails : Exit
  reading_fails : Exit
  uncompressing_fails : Exit
  no_unique_counterpart : Exit

pub data Result {ℓ} (A : Type ℓ) : Type ℓ where
  ok : A → Result A
  exit : Exit → Result A

infixl 5 ◌>>=◌
abbrev pub ◌>>=◌ {ℓ κ} : {A : Type ℓ} {B : Type κ} → Result A → (A → Result B) → Result B
ok a >>= f = f a
exit e >>= f = exit e

-- a library: the destination's size and the source, with `none` where the result has no room in
-- the destination, or is not Z_OK or BZ_OK for another reason
pub record Compressor : Type 0 where
  pub compress : ℕ → Bytes → Option Bytes
  pub uncompress : ℕ → Bytes → Option Bytes

pub record Libraries : Type 0 where
  pub sys : System
  pub digest : Bytes → Bytes
  pub zlib : Compressor
  pub bzip2 : Compressor

-- the functions by which the hash table of both programs is created
unfoldable pub hash_from_key_fn : Bytes → ℕ
hash_from_key_fn k = number_of (take 4 k)

abbrev pub equal_bytes : Bytes → Bytes → Bool
equal_bytes [] [] = true
equal_bytes [] (b ∷ ys) = false
equal_bytes (a ∷ xs) [] = false
equal_bytes (a ∷ xs) (b ∷ ys) = (a == b) && equal_bytes xs ys

unfoldable pub keys_equal_fn : Bytes → Bytes → Bool
keys_equal_fn key1 key2 = equal_bytes (take sha1_len key1) (take sha1_len key2)

-- what the stages share: the chunks, the database of digests, and the output file
pub record Encoder : Type 0 where
  pub chunks : Memory Chunk
  pub cache : HashTable Bytes ℕ
  pub out : Bytes

module _ (lib : Libraries) where
  -- the file with the frame behind it
  unfoldable pub write_file : ℕ → ℕ → Bytes → Bytes → Result Bytes
  unfolding negative
  write_file type len content out =
      let first = xwrite lib.sys (bytes_of 1 type) out in
      let second = xwrite lib.sys (bytes_of 8 len) first.1 in
      let third = xwrite lib.sys (take len content) second.1 in
      if negative first.0
      then exit xwrite_fails
      else if negative second.0
      then exit xwrite_fails
      else if negative third.0
      then exit xwrite_fails
      else ok third.1

  -- the file with its header; `open` empties it
  unfoldable pub create_output_file : ℕ → Result Bytes
  create_output_file type =
      let written = write_header lib.sys type [] in
      if written.0 then ok written.1 else exit header_fails

  -- from `original` on; the outer `none` is a wait for the condition variable
  unfoldable pub write_original : ℕ → Encoder → Option (Result Encoder)
  write_original original s =
      let c = s.chunks original in
      elim c.state [
        | uncompressed ↦ none
        | compressed ↦ some (
            write_file type_compress (length c.compressed_data) c.compressed_data s.out >>= λ out.
            ok (record s {
              chunks = store s.chunks original (record c { compressed_data = []; state = flushed });
              out = out;
            }))
        | flushed ↦ some (
            write_file type_fingerprint sha1_len c.sha1 s.out >>= λ out.
            ok (record s { out = out }))
      ]

  unfoldable pub write_chunk_to_file : ℕ → Encoder → Option (Result Encoder)
  unfolding write_original
  write_chunk_to_file chunk s =
      if (s.chunks chunk).is_duplicate
      then write_original (s.chunks chunk).compressed_data_ref s
      else write_original chunk s

  -- the contents of the buffer `compressed_data`
  unfoldable pub compress_data : ℕ → Bytes → Result Bytes
  compress_data type content =
      let n = length content in
      if type == compress_none
      then ok content
      else if type == compress_gzip
      then elim (lib.zlib.compress (n + n / 2 ^ 9 + 12) content) [
        | none ↦ exit compression_failed
        | some ys ↦ ok ys
      ]
      else if type == compress_bzip2
      then elim (lib.bzip2.compress (n + n / 2 ^ 6 + 600) content) [
        | none ↦ exit compression_failed
        | some ys ↦ ok ys
      ]
      else exit unknown_compression

  unfoldable pub sub_compress : ℕ → ℕ → Encoder → Result Encoder
  unfolding compress_data
  sub_compress type chunk s =
      let c = s.chunks chunk in
      elim c.state [
        | uncompressed ↦ compress_data type c.uncompressed_data >>= λ ys. ok (record s {
          chunks =
              store s.chunks chunk
                (record c { compressed_data = ys; uncompressed_data = []; state = compressed });
        })
        | compressed ↦ exit assertion_failed
        | flushed ↦ exit assertion_failed
      ]

  -- whether the chunk is a duplicate; the index of the lock, the other part of the result, is that
  -- of hashtable_getlock
  unfoldable pub sub_deduplicate : ℕ → Encoder → Bool × Encoder
  sub_deduplicate chunk s =
      let c = s.chunks chunk in
      let sha1 = lib.digest c.uncompressed_data in
      elim (hashtable_search s.cache sha1) [
        | none ↦ (
          false,
          record s {
            chunks = store s.chunks chunk (record c { sha1 = sha1; is_duplicate = false });
            cache = hashtable_insert sha1 chunk s.cache;
          },
        )
        | some entry ↦ (
          true,
          record s {
            chunks = store s.chunks chunk (record c {
              sha1 = sha1;
              is_duplicate = true;
              compressed_data_ref = entry;
              uncompressed_data = [];
            });
          },
        )
      ]

module _ {A B C : Type 0} where
  -- What follows the same successful step agrees if it agrees there.
  pub >>=-change :
      (m : Result A) (k : A → Result B) {b : B} (k' : A → Result C) {r : Result C}
      → (m >>= k) ≡ ok b
      → ((a : A) → m ≡ ok a → k a ≡ ok b → k' a ≡ r)
      → (m >>= k') ≡ r
  >>=-change (ok a) k k' e f = f a refl e
  >>=-change (exit x) k k' e f = cc

pub ok-injective : {A : Type 0} (a b : A) → ok a ≡ ok b → a ≡ b
ok-injective a b e = cc

pub >>=-ok : {A : Type 0} (m : Result A) → (m >>= λ a. ok a) ≡ m
>>=-ok (ok a) = refl
>>=-ok (exit e) = refl

pub >>=-assoc :
    {A B C : Type 0} (m : Result A) (f : A → B) (k : B → Result C)
    → ((m >>= λ a. ok (f a)) >>= k) ≡ (m >>= λ a. k (f a))
>>=-assoc (ok a) f k = refl
>>=-assoc (exit e) f k = refl
