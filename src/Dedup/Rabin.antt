-- ===== src/Dedup/Rabin.antt =====
-- The Rabin fingerprints of src/dedup/rabin.cpp: the two tables, and the place at which a buffer is
-- cut. Numbers are 32-bit words; a pointer is a function from the index.
use Prim.Native.Nat.{bit_and, bit_or, bit_xor}
use npb_sync.Prelude.{
  ℕ, zero, suc, ◌+◌, ◌-◌, ◌*◌, ◌/◌, ◌%◌, ◌^◌, ◌≤◌, ◌<◌, arith, ltb, leb, ◌||◌, ◌==◌, ◌≡◌,
  if◌then◌else◌, min,
}
use npb_sync.Memory.{Memory}

abbrev pub nwindow : ℕ
nwindow = 32

abbrev pub rabin_mask : ℕ
rabin_mask = 0xfff

abbrev pub irrpoly : ℕ
irrpoly = 0x45c2b6a1

-- the rounds that are left
unfoldable pub fpreduce_loop : ℕ → ℕ → ℕ → ℕ
fpreduce_loop zero x irr = x
fpreduce_loop (suc i) x irr =
    let shifted = x * 2 % 2 ^ 32 in
    fpreduce_loop i (if x / 2 ^ 31 == 0 then shifted else bit_xor shifted irr) irr

unfoldable pub fpreduce : ℕ → ℕ → ℕ
unfolding fpreduce_loop
fpreduce x irr = fpreduce_loop 32 x irr

-- the table that fpmkredtab fills, for indices below 256
unfoldable pub fpmkredtab : ℕ → ℕ → Memory ℕ
fpmkredtab irr s i = fpreduce (i * 2 ^ s % 2 ^ 32) irr

unfoldable pub fpwinreduce_loop : ℕ → ℕ → Memory ℕ → ℕ
fpwinreduce_loop zero winval rabintab = winval
fpwinreduce_loop (suc i) winval rabintab =
    fpwinreduce_loop i (bit_xor (winval * 2 ^ 8 % 2 ^ 32) (rabintab (winval / 2 ^ 24))) rabintab

unfoldable pub fpwinreduce : ℕ → ℕ → Memory ℕ → ℕ
unfolding fpwinreduce_loop
fpwinreduce winlen x rabintab = fpwinreduce_loop (winlen - 1) (bit_xor x (rabintab 0)) rabintab

unfoldable pub fpmkwinredtab : ℕ → Memory ℕ → Memory ℕ
fpmkwinredtab winlen rabintab i = fpwinreduce winlen i rabintab

-- the two tables
unfoldable pub rabininit : ℕ → Memory ℕ × Memory ℕ
rabininit winlen = let rabintab = fpmkredtab irrpoly 0 in (rabintab, fpmkwinredtab winlen rabintab)

-- the hash with a byte more
unfoldable pub hash_step : Memory ℕ → ℕ → ℕ → ℕ
hash_step rabintab h byte = bit_xor (bit_or (h * 2 ^ 8 % 2 ^ 32) byte) (rabintab (h / 2 ^ 24))

-- the `for` loop, with the rounds left
unfoldable pub window_hash : Memory ℕ → Memory ℕ → ℕ → ℕ → ℕ → ℕ
window_hash rabintab p zero i h = h
window_hash rabintab p (suc left) i h =
    window_hash rabintab p left (i + 1) (hash_step rabintab h (p i))

-- the `while` loop, with the bytes left
unfoldable pub segment_loop : Memory ℕ → Memory ℕ → Memory ℕ → ℕ → ℕ → ℕ → ℕ
segment_loop rabintab rabinwintab p zero i h = i
segment_loop rabintab rabinwintab p (suc left) i h =
    let h' = hash_step rabintab (bit_xor h (rabinwintab (p (i - nwindow)))) (p i) in
    let next = segment_loop rabintab rabinwintab p left (i + 1) h' in
    if bit_and h' rabin_mask == 0 then i + 1 else next

-- the `size_t` that an `int` with the pattern `n` is converted to
unfoldable pub as_size : ℕ → ℕ
as_size n = if leb (2 ^ 31) n then n + (2 ^ 64 - 2 ^ 32) else n

-- the length of the first part of the `n` bytes from `p` on; `n` and the result are the patterns of
-- an `int`, which stand for a negative number from 2^31 on
unfoldable pub rabinseg : Memory ℕ → ℕ → Memory ℕ → Memory ℕ → ℕ
unfolding window_hash segment_loop
rabinseg p n rabintab rabinwintab =
    if leb (2 ^ 31) n || ltb n nwindow
    then n
    else (let h = window_hash rabintab p nwindow 0 0 in
        if bit_and h rabin_mask == 0
        then nwindow
        else segment_loop rabintab rabinwintab p (n - nwindow) nwindow h)

segment_loop_bounds :
    (rabintab rabinwintab p : Memory ℕ) (left i h : ℕ)
    → (i ≤ segment_loop rabintab rabinwintab p left i h)
      × (segment_loop rabintab rabinwintab p left i h ≤ i + left)
unfolding segment_loop
segment_loop_bounds rabintab rabinwintab p zero i h = omega arith
segment_loop_bounds rabintab rabinwintab p (suc left) i h =
    let h' = hash_step rabintab (bit_xor h (rabinwintab (p (i - nwindow)))) (p i) in
    ground (arith, segment_loop_bounds rabintab rabinwintab p left (i + 1) h')

-- The part that rabinseg cuts off has a byte at least and is no longer than the buffer, which has a
-- byte and fewer than 2^31; a cut inside the buffer stands behind a whole window. The tables may
-- hold anything.
pub rabinseg_bounds :
    (p : Memory ℕ) (n : ℕ) (rabintab rabinwintab : Memory ℕ)
    → 0 < n
    → n < 2 ^ 31
    → (0 < rabinseg p n rabintab rabinwintab)
      × (rabinseg p n rabintab rabinwintab ≤ n)
      × (min n nwindow ≤ rabinseg p n rabintab rabinwintab)
unfolding rabinseg
rabinseg_bounds p n rabintab rabinwintab h small =
    let w = window_hash rabintab p nwindow 0 0 in
    ground (arith, segment_loop_bounds rabintab rabinwintab p (n - nwindow) nwindow w)

-- The same for the conversions around the call, in which nothing is lost.
pub converted_bounds :
    (p : Memory ℕ) (n : ℕ) (rabintab rabinwintab : Memory ℕ)
    → 0 < n
    → n < 2 ^ 31
    → let cut = as_size (rabinseg p (n % 2 ^ 32) rabintab rabinwintab) in (0 < cut) × (cut ≤ n)
unfolding as_size
converted_bounds p n rabintab rabinwintab h small =
    let e : n % 2 ^ 32 ≡ n = omega arith in
    rw e (ground (arith, rabinseg_bounds p n rabintab rabinwintab h small))
