-- ===== src/Dedup/Fragment.antt =====
-- The stage Fragment: FragmentDefault of src/dedup/encode_default.cpp, which the other encoders
-- repeat, from a preloaded file to the coarse chunks that it pushes into `send_buf`, in their order.
-- A result `none` is a failed assertion.
pub mod Splits
pub mod Whole
use npb_sync.Prelude.{
  ℕ, zero, suc, ◌+◌, ◌-◌, ◌*◌, ◌%◌, ◌^◌, Option, none, some, List, [], ◌∷◌, ◌++◌, ltb, ◌==◌,
  if◌then◌else◌, length, take, drop, min,
}
use npb_sync.Memory.{Memory}
use npb_sync.Dedup.Chunk.{Bytes, Chunk, uncompressed}
use npb_sync.Dedup.Rabin.{as_size, rabinseg}
use npb_sync.Dedup.Refine.{byte_at}

abbrev pub maxbuf : ℕ
maxbuf = 128 * 1024 * 1024

abbrev pub anchor_jump : ℕ
anchor_jump = 2 * 1024 * 1024

-- what the `do` loop leaves: the chunks pushed, `temp`, and `anchorcount`
pub record Split : Type 0 where
  pub sent : List Chunk
  pub temp : Chunk
  pub anchorcount : ℕ

-- the bytes left over from the round before
abbrev pub left_over : Option Chunk → Bytes
left_over none = []
left_over (some temp) = temp.uncompressed_data

-- the number of a new buffer: that of `temp`, if bytes of it are left over
abbrev pub anchor_of : Option Chunk → ℕ → ℕ
anchor_of none anchorcount = anchorcount
anchor_of (some temp) anchorcount =
    if length temp.uncompressed_data == 0 then anchorcount else temp.sequence.l1num

module _ (rabintab rabinwintab : Memory ℕ) (fresh : Chunk) where
  abbrev pub with_anchor : ℕ → Bytes → Chunk
  with_anchor l1 xs = record fresh {
    state = uncompressed;
    sequence = record { l1num = l1; l2num = fresh.sequence.l2num };
    uncompressed_data = xs;
  }

  -- `offset + ANCHOR_JUMP` is an `int` that is compared with a `size_t`;
  -- each round cuts off more than ANCHOR_JUMP bytes, so that as many rounds as there are bytes are
  -- enough
  unfoldable pub split_loop : ℕ → Chunk → ℕ → Option Split
  split_loop zero chunk anchorcount = none
  split_loop (suc fuel) chunk anchorcount =
      let xs = chunk.uncompressed_data in
      let n = length xs in
      let offset =
        rabinseg (λ i. byte_at xs (anchor_jump + i)) ((n - anchor_jump) % 2 ^ 32) rabintab
          rabinwintab in
      let cut = as_size ((offset + anchor_jump) % 2 ^ 32) in
      let stop = some (record { sent = []; temp = chunk; anchorcount = anchorcount }) in
      let temp = with_anchor anchorcount (drop cut xs) in
      let next = split_loop fuel temp ((anchorcount + 1) % 2 ^ 32) in
      if ltb anchor_jump n
      then if offset == 0
        then none
        else if ltb cut n
        then elim next [
          | none ↦ none
          | some s ↦
              some (record s { sent = record chunk { uncompressed_data = take cut xs } ∷ s.sent })
        ]
        else stop
      else stop

  -- the outer loop; each round but the last reads a byte at least
  unfoldable pub fragment_loop : ℕ → Option Chunk → Bytes → ℕ → Option (List Chunk)
  fragment_loop zero temp input anchorcount = none
  fragment_loop (suc fuel) temp input anchorcount =
      let left = left_over temp in
      let read = take (min maxbuf (length input)) input in
      let chunk = with_anchor (anchor_of temp anchorcount) (left ++ read) in
      let anchorcount' = if length left == 0 then (anchorcount + 1) % 2 ^ 32 else anchorcount in
      if length left + length read == 0
      then some []
      else if length read == 0
      then some (chunk ∷ [])
      else elim (split_loop (suc (length (left ++ read))) chunk anchorcount') [
        | none ↦ none
        | some s ↦
            elim (fragment_loop fuel (some s.temp) (drop (min maxbuf (length input)) input)
              s.anchorcount) [ none ↦ none | some sent ↦ some (s.sent ++ sent) ]
      ]

  unfoldable pub fragment : Bytes → Option (List Chunk)
  unfolding fragment_loop
  fragment file = fragment_loop (length file + 2) none file 0
