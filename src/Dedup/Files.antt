-- ===== src/Dedup/Files.antt =====
-- The reading and writing of src/dedup/util.cpp, over files as lists of bytes, with the system
-- calls `read` and `write` as parameters, which may move fewer bytes than they are asked for. The
-- file descriptors are those of regular files that are read and written without an error. Numbers
-- in a file are little-endian, as the machine has them; an `int` is its bits.
pub mod Whole
use npb_sync.Prelude.{
  ℕ, zero, suc, ◌+◌, ◌-◌, ◌*◌, ◌/◌, ◌%◌, ◌^◌, ◌≤◌, ◌<◌, Bool, true, false, [], ◌∷◌, ◌++◌, ltb, leb,
  ◌==◌, if◌then◌else◌, length, take, drop,
}
use npb_sync.Dedup.Chunk.{Bytes, checkbit}

-- how many bytes a call moves, of those asked for: `read` with the rest of the file
pub record System : Type 0 where
  pub read : ℕ → Bytes → ℕ
  pub write : ℕ → ℕ

-- what read(2) and write(2) say of a regular file: at least one byte is moved where there is one
pub record IsRegular (sys : System) : Type 0 where
  pub read_asked : (n : ℕ) (rest : Bytes) → sys.read n rest ≤ n
  pub read_there : (n : ℕ) (rest : Bytes) → sys.read n rest ≤ length rest
  pub read_some : (n : ℕ) (rest : Bytes) → 0 < n → 0 < length rest → 0 < sys.read n rest
  pub write_asked : (n : ℕ) → sys.write n ≤ n
  pub write_some : (n : ℕ) → 0 < n → 0 < sys.write n

-- what a call leaves: the number returned, the bytes read, the rest of the file
pub record Received : Type 0 where
  pub r : ℕ
  pub got : Bytes
  pub rest : Bytes

-- the test of an `int` against 0
unfoldable pub negative : ℕ → Bool
negative r = leb (2 ^ 31) (r % 2 ^ 32)

unfoldable pub is_zero : ℕ → Bool
is_zero r = r % 2 ^ 32 == 0

-- the `w` bytes of a number, the least first, and back
unfoldable pub bytes_of : ℕ → ℕ → Bytes
bytes_of zero n = []
bytes_of (suc w) n = n % 256 ∷ bytes_of w (n / 256)

unfoldable pub number_of : Bytes → ℕ
number_of [] = 0
number_of (b ∷ bs) = b + 256 * number_of bs

module _ (sys : System) where
  -- the loop of `xread`; each round moves a byte, so that `len` rounds and one more are enough
  unfoldable pub xread_loop : ℕ → ℕ → ℕ → Bytes → Bytes → Received
  xread_loop zero len nrecv got rest = record { r = 0; got = got; rest = rest }
  xread_loop (suc fuel) len nrecv got rest =
      let rv = sys.read (len - nrecv) rest in
      let next = xread_loop fuel len (nrecv + rv) (got ++ take rv rest) (drop rv rest) in
      if ltb nrecv len
      then if rv == 0 then record { r = 0; got = got; rest = rest } else next
      else record { r = nrecv % 2 ^ 32; got = got; rest = rest }

  unfoldable pub xread : ℕ → Bytes → Received
  unfolding xread_loop
  xread len rest = xread_loop (suc len) len 0 [] rest

  -- the loop of `xwrite`, `content` being what is left to write
  unfoldable pub xwrite_loop : ℕ → ℕ → ℕ → Bytes → Bytes → ℕ × Bytes
  xwrite_loop zero len nsent content out = (nsent % 2 ^ 32, out)
  xwrite_loop (suc fuel) len nsent content out =
      let rv = sys.write (len - nsent) in
      let next = xwrite_loop fuel len (nsent + rv) (drop rv content) (out ++ take rv content) in
      if ltb nsent len then next else (nsent % 2 ^ 32, out)

  unfoldable pub xwrite : Bytes → Bytes → ℕ × Bytes
  unfolding xwrite_loop
  xwrite content out = xwrite_loop (suc (length content)) (length content) 0 content out

-- the result, with the compression type that was read, and the rest of the file
pub data Header : Type 0 where
  failed : Header
  found : ℕ → Bytes → Header

module _ (sys : System) where
  -- what `int` and `byte` variables hold when nothing was read is an argument
  unfoldable pub read_header : (garbage : ℕ) (compress_type : ℕ) → Bytes → Header
  unfolding negative
  read_header garbage compress_type input =
      let first = xread sys 4 input in
      let check = if first.r == 0 then garbage else number_of first.got in
      let second = xread sys 1 first.rest in
      if negative first.r
      then failed
      else if check == checkbit
      then if negative second.r
        then failed
        else found (if second.r == 0 then compress_type else number_of second.got) second.rest
      else failed

  -- whether it succeeded, and the file
  unfoldable pub write_header : ℕ → Bytes → Bool × Bytes
  unfolding negative
  write_header compress_type out =
      let first = xwrite sys (bytes_of 4 checkbit) out in
      let second = xwrite sys (bytes_of 1 compress_type) first.1 in
      if negative first.0
      then (false, first.1)
      else if negative second.0
      then (false, second.1)
      else (true, second.1)
