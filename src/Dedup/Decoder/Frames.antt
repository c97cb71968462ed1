-- ===== src/Dedup/Decoder/Frames.antt =====
-- The frames of an archive, which write_file of src/dedup/encode_common.cpp writes and read_chunk of
-- src/dedup/decoder.cpp reads.
use npb_sync.Prelude.{
  ℕ, suc, ◌+◌, ◌-◌, ◌^◌, ◌<◌, ◌≡◌, refl, ap, ◌∙◌, [], ◌++◌, arith, length, take, append_assoc, true,
  false, take-append, take_all, length-take, dec_le,
}
use npb_sync.Dedup.Chunk.{Bytes, Chunk, sha1_len, type_fingerprint, type_compress}
use npb_sync.Dedup.EncodeCommon.{ok, exit, ◌>>=◌, Libraries, write_file, incomplete_chunk}
use npb_sync.Dedup.Files.{IsRegular, bytes_of, number_of, xread, xread_loop, negative, is_zero}
use npb_sync.Dedup.Files.Whole.{xread_lem, xread_end, xwrite_lem, number-bytes, length-bytes}
use npb_sync.Dedup.Decoder.{read_all, read_content, read_chunk, read_fingerprint, read_data}

pub data Frame : Type 0 where
  digest : Bytes → Frame
  data_of : Bytes → Frame

abbrev pub content : Frame → Bytes
content (digest d) = d
content (data_of ys) = ys

abbrev pub type_of : Frame → ℕ
type_of (digest d) = type_fingerprint
type_of (data_of ys) = type_compress

-- the lengths that a frame may have
abbrev pub Fits : Frame → Type 0
Fits (digest d) = length d ≡ sha1_len
Fits (data_of ys) = (0 < length ys) × (length ys < 2 ^ 31)

unfoldable pub frame_bytes : Frame → Bytes
frame_bytes f = bytes_of 1 (type_of f) ++ (bytes_of 8 (length (content f)) ++ content f)

-- what a chunk is after its frame was read
abbrev pub hold : Frame → Chunk → Chunk
hold (digest d) c = record c { sha1 = d; is_duplicate = true }
hold (data_of ys) c = record c { compressed_data = ys; is_duplicate = false }

pub Fits-bounds : (f : Frame) → Fits f → (0 < length (content f)) × (length (content f) < 2 ^ 31)
Fits-bounds (digest d) h = omega arith
Fits-bounds (data_of ys) h = h

suc-sub : (k : ℕ) → suc k - 1 ≡ k
suc-sub k = omega arith

type-byte : (f : Frame) → type_of f < 256 ^ 1
type-byte (digest d) = omega arith
type-byte (data_of ys) = omega arith

module _ (lib : Libraries) (sys : IsRegular lib.sys) where
  pub write_file_lem :
      (type : ℕ) (xs out : Bytes)
      → length xs < 2 ^ 31
      → write_file lib type (length xs) xs out
        ≡ ok (out ++ (bytes_of 1 type ++ (bytes_of 8 (length xs) ++ xs)))
  unfolding write_file negative
  write_file_lem type xs out h =
      let all : take (length xs) xs ≡ xs = take_all (length xs) xs (omega arith) in
      let one = length-bytes 1 type in
      let eight = length-bytes 8 (length xs) in
      let first = xwrite_lem lib.sys sys (bytes_of 1 type) out in
      let second = xwrite_lem lib.sys sys (bytes_of 8 (length xs)) (out ++ bytes_of 1 type) in
      let third = xwrite_lem lib.sys sys xs ((out ++ bytes_of 1 type) ++ bytes_of 8 (length xs)) in
      let joined =
        append_assoc (out ++ bytes_of 1 type) (bytes_of 8 (length xs)) xs
        ∙ append_assoc out (bytes_of 1 type) (bytes_of 8 (length xs) ++ xs) in
      rw (all, first, second, third, one, eight, joined) (ground arith)

  read_all_lem :
      (n : ℕ) (xs rest : Bytes)
      → length xs ≡ n
      → 0 < n
      → n < 2 ^ 31
      → read_all lib n (xs ++ rest) ≡ ok (record { r = n; got = xs; rest = rest })
  unfolding read_all negative is_zero
  read_all_lem n xs rest e a b = rw e at (whole xs rest (omega arith) (omega arith))
    where
      whole :
          (xs rest : Bytes)
          → 0 < length xs
          → length xs < 2 ^ 31
          → read_all lib (length xs) (xs ++ rest)
            ≡ ok (record { r = length xs; got = xs; rest = rest })
      whole xs rest a b = rw (xread_lem lib.sys sys xs rest) (ground arith)

  read_all_end : (n : ℕ) (xs : Bytes) → length xs < n → read_all lib n xs ≡ exit incomplete_chunk
  unfolding read_all negative is_zero
  read_all_end n xs h = rw (xread_end lib.sys sys n xs h) refl

  read_content_lem :
      (f : Frame) (c : Chunk) (rest : Bytes)
      → Fits f
      → read_content lib (type_of f) (length (content f)) c (content f ++ rest)
        ≡ ok (record { r = length (content f); chunk = hold f c; input = rest })
  unfolding read_content read_fingerprint read_data
  read_content_lem (digest d) c rest h =
      rw (h, read_all_lem sha1_len d rest h (omega arith) (omega arith)) refl
  read_content_lem (data_of ys) c rest h =
      rw (read_all_lem (length ys) ys rest refl h.0 h.1) (ground arith)

  read_type :
      (f : Frame) (c : Chunk) (rest : Bytes)
      → read_chunk lib c (bytes_of 1 (type_of f) ++ rest) ≡ (
          read_all lib 8 rest >>= λ len.
          read_content lib (type_of f) (number_of len.got) c len.rest)
  unfolding read_chunk negative is_zero
  read_type f c rest =
      let one = length-bytes 1 (type_of f) in
      let t = number-bytes 1 (type_of f) (type-byte f) in
      let type : xread lib.sys 1 (bytes_of 1 (type_of f) ++ rest)
          ≡ record { r = 1; got = bytes_of 1 (type_of f); rest = rest } =
        rw one at (xread_lem lib.sys sys (bytes_of 1 (type_of f)) rest) in
      rw (type, t) refl

  -- behind the type
  read_length :
      (f : Frame) (c : Chunk) (after : Bytes)
      → Fits f
      → read_chunk lib c (bytes_of 1 (type_of f) ++ (bytes_of 8 (length (content f)) ++ after))
        ≡ read_content lib (type_of f) (length (content f)) c after
  read_length f c after h =
      let eight = length-bytes 8 (length (content f)) in
      let n = number-bytes 8 (length (content f)) (omega (arith, Fits-bounds f h)) in
      let len =
        read_all_lem 8 (bytes_of 8 (length (content f))) after eight (omega arith) (omega arith) in
      read_type f c (bytes_of 8 (length (content f)) ++ after) ∙ rw (len, n) refl

  pub read_chunk_lem :
      (f : Frame) (c : Chunk) (rest : Bytes)
      → Fits f
      → read_chunk lib c (frame_bytes f ++ rest)
        ≡ ok (record { r = length (content f); chunk = hold f c; input = rest })
  unfolding frame_bytes
  read_chunk_lem f c rest h =
      let joined =
        append_assoc (bytes_of 1 (type_of f)) (bytes_of 8 (length (content f)) ++ content f) rest
        ∙ ap (◌++◌ (bytes_of 1 (type_of f)))
            (append_assoc (bytes_of 8 (length (content f))) (content f) rest) in
      rw joined (read_length f c (content f ++ rest) h ∙ read_content_lem f c rest h)

  -- What write_file appends to a file, read_chunk reads back from there: the chunk holds the
  -- contents as a digest or as compressed data according to the type, the length is returned, and
  -- the input goes on behind the frame; the number of bytes that each call of read and write moves
  -- does not matter. The contents are a digest of 20 bytes, or at least one byte and below 2 ^ 31.
  pub write_read_lem :
      (f : Frame) (c : Chunk) (out rest : Bytes)
      → Fits f
      → (write_file lib (type_of f) (length (content f)) (content f) out
          ≡ ok (out ++ frame_bytes f))
        × (read_chunk lib c (frame_bytes f ++ rest)
            ≡ ok (record { r = length (content f); chunk = hold f c; input = rest }))
  unfolding frame_bytes
  write_read_lem f c out rest h =
      (write_file_lem (type_of f) (content f) out (Fits-bounds f h).1, read_chunk_lem f c rest h)

  read_content_end :
      (f : Frame) (c : Chunk) (input : Bytes)
      → Fits f
      → length input < length (content f)
      → read_content lib (type_of f) (length (content f)) c input ≡ exit incomplete_chunk
  unfolding read_content read_fingerprint read_data
  read_content_end (digest d) c input h short =
      rw (h, read_all_end sha1_len input (omega arith)) refl
  read_content_end (data_of ys) c input h short =
      rw (read_all_end (length ys) input short) (ground arith)

  pub read_end : (c : Chunk) → read_chunk lib c [] ≡ ok (record { r = 0; chunk = c; input = [] })
  unfolding read_chunk negative is_zero xread xread_loop
  read_end c = let n : lib.sys.read 1 [] ≡ 0 = omega (arith, sys.read_there 1 []) in rw n refl

  -- the file ends `k` bytes behind the type
  read_cut :
      (f : Frame) (c : Chunk) (k : ℕ)
      → Fits f
      → k < length (content f) + 8
      → read_chunk lib c
          (bytes_of 1 (type_of f) ++ take k (bytes_of 8 (length (content f)) ++ content f))
        ≡ exit incomplete_chunk
  read_cut f c k h short =
      let size = bytes_of 8 (length (content f)) in
      let eight = length-bytes 8 (length (content f)) in
      elim (dec_le 8 k) [
        | yes p ↦
            let l = length-take (k - 8) (content f) in
            let e : take k (size ++ content f) ≡ size ++ take (k - 8) (content f) =
              rw (take-append k size (content f), eight, take_all k size (omega arith)) refl in
            rw e (
              read_length f c (take (k - 8) (content f)) h
              ∙ read_content_end f c (take (k - 8) (content f)) h (omega arith))
        | no p ↦
            let l = length-take k (size ++ content f) in
            read_type f c (take k (size ++ content f))
            ∙ rw (read_all_end 8 (take k (size ++ content f)) (omega arith)) refl
      ]

  -- read_chunk on a file that is cut off: at the end of the file it returns 0, and inside a frame
  -- that fits, wherever that is, it exits with the message on an incomplete chunk.
  pub truncated_lem :
      (f : Frame) (c : Chunk) (k : ℕ)
      → Fits f
      → k < length (content f) + 8
      → (read_chunk lib c [] ≡ ok (record { r = 0; chunk = c; input = [] }))
        × (read_chunk lib c (take (suc k) (frame_bytes f)) ≡ exit incomplete_chunk)
  unfolding frame_bytes
  truncated_lem f c k h short =
      let behind = bytes_of 8 (length (content f)) ++ content f in
      let one = length-bytes 1 (type_of f) in
      let e : take (suc k) (bytes_of 1 (type_of f) ++ behind)
          ≡ bytes_of 1 (type_of f) ++ take k behind =
        rw
          (
            take-append (suc k) (bytes_of 1 (type_of f)) behind,
            one,
            take_all (suc k) (bytes_of 1 (type_of f)) (omega arith),
            suc-sub k,
          )
          refl in
      (read_end c, rw e (read_cut f c k h short))
