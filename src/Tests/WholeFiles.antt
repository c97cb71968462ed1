-- ===== src/Tests/WholeFiles.antt =====
-- A file of three bytes, which is one piece, from the stage Fragment to the decoder.
use npb_sync.Prelude.{ℕ, zero, suc, ◌≡◌, refl, arith, Bool, true, some, List, [], ◌∷◌, length}
use npb_sync.Memory.{store}
use npb_sync.Dedup.Archive
use npb_sync.Dedup.Archive.{Steps, stay, step, deduplicate, compress, write, gzip, loaded, Encoding}
use npb_sync.Dedup.Archive.Whole.{piece_at, refine_all, file_lem}
use npb_sync.Dedup.Archive.Written.{ArePieces}
use npb_sync.Dedup.Chunk.{Bytes, Chunk, compress_gzip}
use npb_sync.Dedup.Decoder.{decode}
use npb_sync.Dedup.EncodeCommon.{
  Encoder, ok, sub_deduplicate, sub_compress, write_chunk_to_file, write_file,
}
use npb_sync.Dedup.Files.{xwrite, bytes_of}
use npb_sync.Dedup.Fragment
use npb_sync.Dedup.Fragment.{fragment_loop, split_loop}
use npb_sync.Dedup.HashTable.{hashtable_search}
use npb_sync.Dedup.Rabin.{as_size, rabinseg}
use npb_sync.Dedup.Refine.{refine}
use npb_sync.Tests.Archives.{
  system-IsRegular, libraries, libraries-AreLibraries, unset, cache, created, header, opened, after,
  after_wait, state, tables,
}

abbrev file : Bytes
file = 1 ∷ 2 ∷ 3 ∷ []

abbrev sent : List Chunk
sent = record unset { uncompressed_data = file } ∷ []

cut : Fragment.fragment tables.0 tables.1 unset file ≡ some sent
unfolding Fragment.fragment fragment_loop split_loop
cut = refl

abbrev pieces_of : ℕ → Bytes
pieces_of = piece_at (refine_all tables.0 tables.1 unset sent) file

same_piece : (i : ℕ) → pieces_of i ≡ file
unfolding refine_all refine rabinseg as_size
same_piece zero = refl
same_piece (suc i) = refl

pieces : ArePieces libraries pieces_of
pieces = record {
  some_bytes = λ i. rw (same_piece i) (omega arith);
  small = λ i. rw (same_piece i) (omega arith);
  collision_free = λ i j e. rw (same_piece i, same_piece j) refl;
}

abbrev s0 : Encoding
s0 = Archive.start cache header pieces_of (λ _. unset)

abbrev s1 : Encoder
s1 = (sub_deduplicate libraries 0 s0.s).1

abbrev s2 : Encoder
s2 = after s1 (sub_compress libraries compress_gzip 0 s1)

abbrev s3 : Encoder
s3 = after_wait s2 (write_chunk_to_file libraries 0 s2)

abbrev seen : ℕ → Bool
seen = store s0.seen 0 true

run : Steps libraries compress_gzip s0 (state s3 seen 1)
unfolding Archive.start loaded refine_all refine rabinseg as_size sub_deduplicate sub_compress
    hashtable_search write_chunk_to_file write_file xwrite bytes_of
run =
    step (state s2 seen 0) (state s3 seen 1)
      (step (state s1 seen 0) (state s2 seen 0)
        (step s0 (state s1 seen 0) stay (deduplicate 0 refl)) (compress 0 s2 refl refl refl refl))
      (write s3 refl refl)

one_piece : 1 ≡ length (refine_all tables.0 tables.1 unset sent)
unfolding refine_all refine rabinseg as_size
one_piece = refl

file_lem_example : decode libraries unset 0 s3.out ≡ ok file
file_lem_example =
    file_lem tables.0 tables.1 unset libraries compress_gzip system-IsRegular libraries-AreLibraries
      gzip file sent file (omega arith) cut pieces cache created header opened (λ _. unset)
      (state s3 seen 1) run unset 0 one_piece
