-- ===== src/Dedup/Archive/Header.antt =====
-- The header that create_output_file of src/dedup/encode_common.cpp writes, and the decoder of
-- src/dedup/decoder.cpp on a header with frames behind it.
use npb_sync.Prelude.{
  ℕ, suc, ◌^◌, ◌≤◌, ◌<◌, ◌≡◌, refl, arith, length, true, List, [], ◌∷◌, ◌++◌, append_assoc,
  length-append,
}
use npb_sync.Dedup.Chunk.{Bytes, Chunk, checkbit}
use npb_sync.Dedup.EncodeCommon.{Libraries, keys_equal_fn, hash_from_key_fn, ok}
use npb_sync.Dedup.Files.{System, IsRegular, bytes_of, negative, write_header, read_header, found}
use npb_sync.Dedup.Files.Whole.{xread_lem, xwrite_lem, number-bytes, length-bytes}
use npb_sync.Dedup.HashTable.{hashtable_create}
use npb_sync.Dedup.Decoder.{Decoding, decode}
use npb_sync.Dedup.Decoder.Frames.{Frame, frame_bytes, content, type_of}
use npb_sync.Dedup.Decoder.Feeding.{archive, AllFit, feed, decode_loop_lem}
use npb_sync.Dedup.Archive.{IsCompression, gzip, bzip, no_compression}

type-byte : (type : ℕ) → IsCompression type → type < 256 ^ 1
type-byte _ gzip = omega arith
type-byte _ bzip = omega arith
type-byte _ no_compression = omega arith

module _ (sys : System) (reg : IsRegular sys) where
  abbrev pub header_bytes : ℕ → Bytes
  header_bytes type = bytes_of 4 checkbit ++ bytes_of 1 type

  pub write_header_lem : (type : ℕ) → write_header sys type [] ≡ (true, header_bytes type)
  unfolding write_header negative
  write_header_lem type =
      rw
        (
          xwrite_lem sys reg (bytes_of 4 checkbit) [],
          xwrite_lem sys reg (bytes_of 1 type) (bytes_of 4 checkbit),
          length-bytes 4 checkbit,
          length-bytes 1 type,
        )
        refl

  read_header_lem :
      (garbage other type : ℕ) (rest : Bytes)
      → type < 256 ^ 1
      → read_header sys garbage other (header_bytes type ++ rest) ≡ found type rest
  unfolding read_header negative
  read_header_lem garbage other type rest h =
      let four = length-bytes 4 checkbit in
      let one = length-bytes 1 type in
      let a = append_assoc (bytes_of 4 checkbit) (bytes_of 1 type) rest in
      let first = rw four at (xread_lem sys reg (bytes_of 4 checkbit) (bytes_of 1 type ++ rest)) in
      let second = rw one at (xread_lem sys reg (bytes_of 1 type) rest) in
      let n = number-bytes 4 checkbit (omega arith) in
      let m = number-bytes 1 type h in rw (a, first, second, n, m) refl

length-archive : (fs : List Frame) → length fs ≤ length (archive fs)
unfolding frame_bytes
length-archive [] = omega arith
length-archive (f ∷ fs) =
    let a = length-append (frame_bytes f) (archive fs) in
    let b = length-append (bytes_of 1 (type_of f)) (bytes_of 8 (length (content f)) ++ content f) in
    let c = length-bytes 1 (type_of f) in omega (arith, length-archive fs)

-- the decoder behind the header
unfoldable pub first : Chunk → Decoding
first chunk = record {
  cache = record {
    tablelength = 98317;
    table = λ _. [];
    hashfn = hash_from_key_fn;
    eqfn = keys_equal_fn;
  };
  chunk = chunk;
  input = [];
  out = [];
}

module _ (lib : Libraries) (type : ℕ) (sys : IsRegular lib.sys) (known : IsCompression type)
    (chunk : Chunk) (garbage : ℕ) where
  pub decode_frames :
      (fs : List Frame) (d : Decoding)
      → AllFit fs
      → feed lib type fs (first chunk) ≡ ok d
      → decode lib chunk garbage (header_bytes lib.sys sys type ++ archive fs) ≡ ok d.out
  unfolding decode hashtable_create first
  decode_frames fs d fit fed =
      let r =
        read_header_lem lib.sys sys garbage garbage type (archive fs) (type-byte type known) in
      let l =
        decode_loop_lem lib type sys (suc (length (archive fs))) fs (first chunk) d fit
          (omega (arith, length-archive fs)) fed in
      rw (decode, hashtable_create, r) l
