-- ===== src/Tests/Archives.antt =====
-- Archives: a run of the stages on two equal chunks, and its parts.
use npb_sync.Prelude.{
  ℕ, ◌+◌, ◌/◌, ◌^◌, ◌≤◌, ◌≡◌, refl, ap, arith, Bool, true, false, Option, none, some, List, [], ◌∷◌,
  ◌++◌, length, leb, ◌==◌, ==_iff, take, subst, if◌then◌else◌, min,
}
use npb_sync.Memory.{Memory, store}
use npb_sync.Dedup.Chunk.{Bytes, Chunk, uncompressed, compress_gzip, sha1_len}
use npb_sync.Dedup.Sequence.{Increments, sequence_inc_lem}
use npb_sync.Dedup.Rabin.{rabinseg, rabininit, hash_step, fpmkredtab, fpreduce}
use npb_sync.Dedup.Refine.{refine, Refined, refine_lem}
use npb_sync.Dedup.Fragment
use npb_sync.Dedup.Fragment.Whole.{IsFragmented, fragment_lem}
use npb_sync.Dedup.Files.{System, IsRegular, bytes_of, xwrite, write_header, number_of}
use npb_sync.Dedup.HashTable.{HashTable, hashtable_create, hashtable_search, hashtable_insert, mix}
use npb_sync.Dedup.HashTable.Searching.{insert_all, latest, insert_all_lem}
use npb_sync.Dedup.EncodeCommon.{
  Compressor, Libraries, Encoder, Result, ok, exit, hash_from_key_fn, keys_equal_fn,
  incomplete_chunk, create_output_file, sub_deduplicate, sub_compress, write_chunk_to_file,
  write_file,
}
use npb_sync.Dedup.Decoder.{decode, read_chunk}
use npb_sync.Dedup.Decoder.Frames.{Frame, data_of, frame_bytes, hold, write_read_lem, truncated_lem}
use npb_sync.Dedup.Archive.{
  Encoding, deduplicate, compress, write, Steps, stay, step, start, input_of, IsCompressor,
  AreLibraries, gzip, loaded,
}
use npb_sync.Dedup.Archive.Written.{ArePieces}
use npb_sync.Dedup.Archive.Roundtrip.{decode_lem, Progress, progress_lem}

-- at most three bytes are read at a time, and two written
abbrev pub system : System
system = record { read = λ n rest. min n (min 3 (length rest)); write = λ n. min n 2 }

pub system-IsRegular : IsRegular system
system-IsRegular = record {
  read_asked = λ n rest. omega arith;
  read_there = λ n rest. omega arith;
  read_some = λ n rest h h'. omega arith;
  write_asked = λ n. omega arith;
  write_some = λ n h. omega arith;
}

-- a byte in front of the data
abbrev pub pack : ℕ → Bytes → Option Bytes
pack n xs = if leb (length xs + 1) n then some (7 ∷ xs) else none

abbrev pub unpack : ℕ → Bytes → Option Bytes
unpack bound [] = none
unpack bound (y ∷ ys) = if leb (length ys) bound then some ys else none

abbrev pub packer : Compressor
packer = record { compress = pack; uncompress = unpack }

packed : (n : ℕ) (xs ys : Bytes) → pack n xs ≡ some ys → 7 ∷ xs ≡ ys
packed n xs ys e = ground arith

fits : (n : ℕ) (xs ys : Bytes) → pack n xs ≡ some ys → length xs + 1 ≤ n
fits n xs ys e = ground arith

packer-IsCompressor : (room : ℕ → ℕ) → ((n : ℕ) → n + 1 ≤ room n) → IsCompressor room packer
packer-IsCompressor room enough = record {
  compresses = λ xs. (7 ∷ xs, ground (arith, enough (length xs)));
  some_bytes = λ n xs ys e.
      let p : 7 ∷ xs ≡ ys = packed n xs ys e in
      let h : length xs + 1 ≤ n = fits n xs ys e in let l = ap length p in omega (arith, l);
  uncompresses = λ n bound xs ys e h.
      let p : 7 ∷ xs ≡ ys = packed n xs ys e in
      subst (λ zs. unpack bound zs ≡ some xs) p (ground arith);
}

-- the first byte, and zeros
abbrev pub digest : Bytes → Bytes
digest [] = 1 ∷ 0 ∷ 0 ∷ 0 ∷ 0 ∷ 0 ∷ 0 ∷ 0 ∷ 0 ∷ 0 ∷ 0 ∷ 0 ∷ 0 ∷ 0 ∷ 0 ∷ 0 ∷ 0 ∷ 0 ∷ 0 ∷ 0 ∷ []
digest (x ∷ xs) = x ∷ 0 ∷ 0 ∷ 0 ∷ 0 ∷ 0 ∷ 0 ∷ 0 ∷ 0 ∷ 0 ∷ 0 ∷ 0 ∷ 0 ∷ 0 ∷ 0 ∷ 0 ∷ 0 ∷ 0 ∷ 0 ∷ 0 ∷ []

digest-length : (xs : Bytes) → length (digest xs) ≡ sha1_len
digest-length [] = refl
digest-length (x ∷ xs) = refl

abbrev pub libraries : Libraries
libraries = record { sys = system; digest = digest; zlib = packer; bzip2 = packer }

pub libraries-AreLibraries : AreLibraries libraries
libraries-AreLibraries = record {
  zlib = packer-IsCompressor (λ n. n + n / 2 ^ 9 + 12) (λ n. omega arith);
  bzip2 = packer-IsCompressor (λ n. n + n / 2 ^ 6 + 600) (λ n. omega arith);
  digest = digest-length;
}

-- pieces that are equal in pairs
abbrev pub pieces_of : ℕ → Bytes
pieces_of i = i / 2 ∷ 5 ∷ []

pieces : ArePieces libraries pieces_of
pieces = record {
  some_bytes = λ i. omega arith;
  small = λ i. omega arith;
  collision_free = λ i j e. let h : i / 2 ≡ j / 2 = cc in ap (λ k. k ∷ 5 ∷ []) h;
}

abbrev pub unset : Chunk
unset = record {
  is_duplicate = false;
  state = uncompressed;
  sha1 = [];
  uncompressed_data = [];
  compressed_data = [];
  compressed_data_ref = 0;
  sequence = record { l1num = 0; l2num = 0 };
  is_last_l2_chunk = false;
}

abbrev pub cache : HashTable Bytes ℕ
cache = record {
  tablelength = 98317;
  table = λ _. [];
  hashfn = hash_from_key_fn;
  eqfn = keys_equal_fn;
}

pub created : hashtable_create 65536 hash_from_key_fn keys_equal_fn ≡ some cache
unfolding hashtable_create
created = refl

abbrev pub header : Bytes
header = 64 ∷ 226 ∷ 1 ∷ 0 ∷ 0 ∷ []

pub opened : create_output_file libraries compress_gzip ≡ ok header
unfolding create_output_file write_header xwrite bytes_of
opened = refl

abbrev pub after : Encoder → Result Encoder → Encoder
after s (ok s') = s'
after s (exit e) = s

abbrev pub after_wait : Encoder → Option (Result Encoder) → Encoder
after_wait s none = s
after_wait s (some r) = after s r

abbrev start_state : Encoding
start_state = start cache header pieces_of (λ _. unset)

-- two equal pieces are deduplicated, the first one is compressed, and both are written
abbrev s1 : Encoder
s1 = (sub_deduplicate libraries 0 start_state.s).1

abbrev s2 : Encoder
s2 = (sub_deduplicate libraries 1 s1).1

abbrev s3 : Encoder
s3 = after s2 (sub_compress libraries compress_gzip 0 s2)

abbrev s4 : Encoder
s4 = after_wait s3 (write_chunk_to_file libraries 0 s3)

abbrev s5 : Encoder
s5 = after_wait s4 (write_chunk_to_file libraries 1 s4)

abbrev seen1 : ℕ → Bool
seen1 = store start_state.seen 0 true

abbrev seen2 : ℕ → Bool
seen2 = store seen1 1 true

abbrev pub state : Encoder → (ℕ → Bool) → ℕ → Encoding
state s seen n = record { s = s; seen = seen; written = n }

run_compressed : Steps libraries compress_gzip start_state (state s3 seen2 0)
unfolding start loaded sub_deduplicate sub_compress hashtable_search hashtable_insert
    write_chunk_to_file write_file xwrite bytes_of mix hash_from_key_fn number_of keys_equal_fn
run_compressed =
    step (state s2 seen2 0) (state s3 seen2 0)
      (step (state s1 seen1 0) (state s2 seen2 0)
        (step start_state (state s1 seen1 0) stay (deduplicate 0 refl)) (deduplicate 1 refl))
      (compress 0 s3 refl refl refl refl)

run : Steps libraries compress_gzip start_state (state s5 seen2 2)
unfolding start loaded sub_deduplicate sub_compress hashtable_search hashtable_insert
    write_chunk_to_file write_file xwrite bytes_of mix hash_from_key_fn number_of keys_equal_fn
run =
    step (state s4 seen2 1) (state s5 seen2 2)
      (step (state s3 seen2 0) (state s4 seen2 1) run_compressed (write s4 refl refl))
      (write s5 refl refl)

-- The decoder gives the two pieces, of which the second one is written as a digest.
decode_lem_example : decode libraries unset 0 s5.out ≡ ok (input_of pieces_of 2)
decode_lem_example =
    decode_lem libraries compress_gzip system-IsRegular libraries-AreLibraries gzip pieces_of pieces
      cache created header opened (λ _. unset) (state s5 seen2 2) run unset 0

-- The first chunk can be written.
progress_lem_example :
    Progress libraries compress_gzip system-IsRegular libraries-AreLibraries gzip pieces_of pieces
      cache created header opened
      (λ _. unset)
      (state s3 seen2 0)
      run_compressed
progress_lem_example =
    progress_lem libraries compress_gzip system-IsRegular libraries-AreLibraries gzip pieces_of
      pieces cache created header opened (λ _. unset) (state s3 seen2 0) run_compressed refl

abbrev frame : Frame
frame = data_of (8 ∷ 9 ∷ [])

write_read_lem_example :
    (write_file libraries 1 2 (8 ∷ 9 ∷ []) header ≡ ok (header ++ frame_bytes frame))
    × (read_chunk libraries unset (frame_bytes frame ++ 6 ∷ [])
        ≡ ok (record { r = 2; chunk = hold frame unset; input = 6 ∷ [] }))
write_read_lem_example =
    write_read_lem libraries system-IsRegular frame unset header (6 ∷ []) (omega arith, omega arith)

-- The file ends behind the first of the two bytes.
truncated_lem_example :
    (read_chunk libraries unset [] ≡ ok (record { r = 0; chunk = unset; input = [] }))
    × (read_chunk libraries unset (take 10 (frame_bytes frame)) ≡ exit incomplete_chunk)
truncated_lem_example =
    truncated_lem libraries system-IsRegular frame unset 9 (omega arith, omega arith) (omega arith)

sequence_inc_lem_example : Increments 5 (record { l1num = 1; l2num = 4 })
sequence_inc_lem_example =
    sequence_inc_lem 5 (record { l1num = 1; l2num = 4 }) (omega arith) (omega arith) (omega arith)

abbrev numbers : HashTable ℕ ℕ
numbers = record { tablelength = 53; table = λ _. []; hashfn = λ k. k; eqfn = λ a b. a == b }

numbers-created : hashtable_create 10 (λ k. k) (λ a b. a == b) ≡ some numbers
unfolding hashtable_create
numbers-created = refl

abbrev insertions : List (ℕ × ℕ)
insertions = (3, 30) ∷ (4, 40) ∷ (3, 31) ∷ []

insert_all_lem_example :
    hashtable_search (insert_all insertions numbers) 3 ≡ latest (λ a b. a == b) 3 insertions
insert_all_lem_example =
    insert_all_lem 10 (λ k. k) (λ a b. a == b) numbers insertions 3 numbers-created
      (λ a b e. (==_iff a b).0 e)

abbrev pub tables : Memory ℕ × Memory ℕ
tables = rabininit 0

refine_lem_example :
    Refined tables.0 tables.1 unset
      (record unset { uncompressed_data = 1 ∷ 2 ∷ 3 ∷ [] })
      0
      (refine tables.0 tables.1 unset (record unset { uncompressed_data = 1 ∷ 2 ∷ 3 ∷ [] }))
refine_lem_example =
    refine_lem tables.0 tables.1 unset (record unset { uncompressed_data = 1 ∷ 2 ∷ 3 ∷ [] })
      (omega arith) (omega arith)

fragment_lem_example :
    (sent : List Chunk) × (Fragment.fragment tables.0 tables.1 unset (1 ∷ 2 ∷ 3 ∷ []) ≡ some sent)
    × IsFragmented 0 (1 ∷ 2 ∷ 3 ∷ []) sent
fragment_lem_example = fragment_lem tables.0 tables.1 unset (1 ∷ 2 ∷ 3 ∷ []) (omega arith)

-- A buffer of zeros is cut behind the first window, since its hash is zero.
zeros_cut : rabinseg (λ i. 0) 40 tables.0 tables.1 ≡ 32
unfolding rabinseg rabininit hash_step fpmkredtab fpreduce
zeros_cut = refl
