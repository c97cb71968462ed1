-- ===== src/Dedup/Chunk.antt =====
-- The chunk of src/dedup/dedupdef.h: bytes, the state of its data, and where it stands in the input.
-- A buffer is its contents, [] when it is freed; the lock and the condition variable are left to the
-- operations, each of which is one step under the lock.
use npb_sync.Prelude.{ℕ, Bool, List}
use npb_sync.Dedup.Sequence.{Sequence}

-- numbers below 256
abbrev pub Bytes : Type 0
Bytes = List ℕ

pub data ChunkState : Type 0 where
  uncompressed : ChunkState
  compressed : ChunkState
  flushed : ChunkState

-- `compressed_data_ref` is the address of another chunk
pub record Chunk : Type 0 where
  pub is_duplicate : Bool
  pub state : ChunkState
  pub sha1 : Bytes
  pub uncompressed_data : Bytes
  pub compressed_data : Bytes
  pub compressed_data_ref : ℕ
  pub sequence : Sequence
  pub is_last_l2_chunk : Bool

abbrev pub sha1_len : ℕ
sha1_len = 20

abbrev pub type_fingerprint : ℕ
type_fingerprint = 0

abbrev pub type_compress : ℕ
type_compress = 1

abbrev pub compress_gzip : ℕ
compress_gzip = 0

abbrev pub compress_bzip2 : ℕ
compress_bzip2 = 1

abbrev pub compress_none : ℕ
compress_none = 2

abbrev pub uncompress_bound : ℕ
uncompress_bound = 10000000

abbrev pub checkbit : ℕ
checkbit = 123456
