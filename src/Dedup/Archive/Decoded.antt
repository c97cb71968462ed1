-- ===== src/Dedup/Archive/Decoded.antt =====
-- What the two kinds of frames do to the decoder of src/dedup/decoder.cpp, where their contents come
-- from sub_Compress and SHA-1, and the keys of the hash tables.
use npb_sync.Prelude.{
  ℕ, ◌%◌, ◌^◌, ◌≤◌, ◌<◌, ◌≡◌, refl, ap, ◌∙◌, sym, [], ◌∷◌, ◌++◌, arith, leb, ◌==◌, length, true,
  false, some, take_all, take,
}
use npb_sync.Dedup.Chunk.{Bytes, Chunk, sha1_len, uncompress_bound}
use npb_sync.Dedup.EncodeCommon.{
  ok, Libraries, equal_bytes, keys_equal_fn, compress_data, ok-injective,
}
use npb_sync.Dedup.Files.{IsRegular, negative, is_zero}
use npb_sync.Dedup.HashTable.{hashtable_search, hashtable_insert}
use npb_sync.Dedup.Decoder.{Decoding, uncompress_data, uncompress_chunk, process_chunk}
use npb_sync.Dedup.Decoder.Frames.{digest, data_of, hold}
use npb_sync.Dedup.Decoder.Feeding.{write_entry_lem}
use npb_sync.Dedup.Archive.{AreLibraries, IsCompression, gzip, bzip, no_compression}

equal_bytes_refl : (xs : Bytes) → equal_bytes xs xs ≡ true
equal_bytes_refl [] = refl
equal_bytes_refl (x ∷ xs) = ground (arith, equal_bytes_refl xs)

equal_bytes-eq : (xs ys : Bytes) → equal_bytes xs ys ≡ true → xs ≡ ys
equal_bytes-eq [] [] h = refl
equal_bytes-eq [] (y ∷ ys) h = cc
equal_bytes-eq (x ∷ xs) [] h = cc
equal_bytes-eq (x ∷ xs) (y ∷ ys) h = ground (arith, equal_bytes-eq xs ys)

pub keys_equal_refl : (k : Bytes) → keys_equal_fn k k ≡ true
unfolding keys_equal_fn
keys_equal_refl k = equal_bytes_refl (take sha1_len k)

pub keys_equal-eq :
    (k l : Bytes) → length k ≡ sha1_len → length l ≡ sha1_len → keys_equal_fn k l ≡ true → k ≡ l
unfolding keys_equal_fn
keys_equal-eq k l p q h =
    sym (take_all sha1_len k (omega arith))
    ∙ equal_bytes-eq (take sha1_len k) (take sha1_len l) h
    ∙ take_all sha1_len l (omega arith)

-- what compress_data gives: bytes that fit into a frame and that uncompress_data undoes
pub record Packs (lib : Libraries) (type : ℕ) (xs ys : Bytes) : Type 0 where
  pub some_bytes : 0 < length ys
  pub fits : length ys < 2 ^ 31
  pub undone : uncompress_data lib type ys ≡ ok xs

module _ (lib : Libraries) (libs : AreLibraries lib) where
  pub compress_succeeds :
      (type : ℕ)
      → IsCompression type
      → (xs : Bytes) → (ys : Bytes) × (compress_data lib type xs ≡ ok ys)
  unfolding compress_data
  compress_succeeds _ gzip xs = let r = libs.zlib.compresses xs in (r.0, rw r.1 refl)
  compress_succeeds _ bzip xs = let r = libs.bzip2.compresses xs in (r.0, rw r.1 refl)
  compress_succeeds _ no_compression xs = (xs, refl)

  pub compress-Packs :
      (type : ℕ)
      → IsCompression type
      → (xs ys : Bytes) → 0 < length xs
      → length xs ≤ uncompress_bound
      → compress_data lib type xs ≡ ok ys
      → Packs lib type xs ys
  unfolding compress_data uncompress_data
  compress-Packs _ gzip xs ys a b e =
      let r = libs.zlib.compresses xs in
      let p : r.0 ≡ ys = ok-injective r.0 ys (rw r.1 at e) in
      let c = rw p at r.1 in
      let n = libs.zlib.some_bytes _ xs ys c in
      let u = libs.zlib.uncompresses _ uncompress_bound xs ys c b in
      record { some_bytes = n.0; fits = omega (arith, n); undone = rw u refl }
  compress-Packs _ bzip xs ys a b e =
      let r = libs.bzip2.compresses xs in
      let p : r.0 ≡ ys = ok-injective r.0 ys (rw r.1 at e) in
      let c = rw p at r.1 in
      let n = libs.bzip2.some_bytes _ xs ys c in
      let u = libs.bzip2.uncompresses _ uncompress_bound xs ys c b in
      record { some_bytes = n.0; fits = omega (arith, n); undone = rw u refl }
  compress-Packs _ no_compression xs ys a b e =
      let p : xs ≡ ys = cc in
      record { some_bytes = rw p at a; fits = omega (arith, ap length p); undone = rw p refl }

module _ (lib : Libraries) (type : ℕ) (sys : IsRegular lib.sys) where
  -- what a data frame leaves
  unfoldable pub after_data : (xs ys : Bytes) → Decoding → Decoding
  after_data xs ys d =
      let c = hold (data_of ys) d.chunk in
      let entry = record c { uncompressed_data = xs; compressed_data = []; sha1 = lib.digest xs } in
      record d {
        chunk = c;
        cache = hashtable_insert (lib.digest xs) entry d.cache;
        out = d.out ++ xs;
      }

  pub process_data :
      (xs ys : Bytes) (d : Decoding)
      → uncompress_data lib type ys ≡ ok xs
      → 0 < length xs
      → length xs < 2 ^ 31
      → process_chunk lib type (record d { chunk = hold (data_of ys) d.chunk })
        ≡ ok (after_data xs ys d)
  unfolding process_chunk uncompress_chunk negative is_zero after_data
  process_data xs ys d e a b =
      let c = hold (data_of ys) d.chunk in
      let entry = record c { uncompressed_data = xs; compressed_data = []; sha1 = lib.digest xs } in
      let positive : leb (2 ^ 31) (length xs % 2 ^ 32) ≡ false = ground arith in
      let some_data : (length xs % 2 ^ 32 == 0) ≡ false = ground arith in
      rw (e, positive, some_data)
        (write_entry_lem lib type sys entry
          (record d { chunk = c; cache = hashtable_insert (lib.digest xs) entry d.cache }) b)

  pub process_digest :
      (k : Bytes) (entry : Chunk) (d : Decoding)
      → hashtable_search d.cache k ≡ some entry
      → length entry.uncompressed_data < 2 ^ 31
      → process_chunk lib type (record d { chunk = hold (digest k) d.chunk })
        ≡ ok (record d { chunk = hold (digest k) d.chunk; out = d.out ++ entry.uncompressed_data })
  unfolding process_chunk
  process_digest k entry d e b =
      rw e (write_entry_lem lib type sys entry (record d { chunk = hold (digest k) d.chunk }) b)
