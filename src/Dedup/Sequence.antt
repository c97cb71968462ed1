-- ===== src/Dedup/Sequence.antt =====
-- The two-level sequence numbers of src/dedup/dedupdef.h, of two 32-bit numbers each, and the order
-- of the tests on them.
use npb_sync.Prelude.{
  ℕ, ◌+◌, ◌*◌, ◌%◌, ◌^◌, ◌<◌, ◌≤◌, ◌≡◌, ◌↔◌, Bool, true, ◌&&◌, arith, ltb, leb, ◌==◌, if◌then◌else◌,
  dec_lt, inl, inr, ◌⊎◌, refl,
}

-- `l1num` is the coarse chunk, `l2num` the piece of it
pub record Sequence : Type 0 where
  pub l1num : ℕ
  pub l2num : ℕ

unfoldable pub sequence_eq : Sequence → Sequence → Bool
sequence_eq s1 s2 = (s1.l1num == s2.l1num) && (s1.l2num == s2.l2num)

unfoldable pub sequence_lt : Sequence → Sequence → Bool
sequence_lt s1 s2 =
    if ltb s1.l1num s2.l1num then true else (s1.l1num == s2.l1num) && ltb s1.l2num s2.l2num

unfoldable pub sequence_gt : Sequence → Sequence → Bool
sequence_gt s1 s2 =
    if ltb s2.l1num s1.l1num then true else (s1.l1num == s2.l1num) && ltb s2.l2num s1.l2num

unfoldable pub sequence_inc : Sequence → ℕ → Sequence
sequence_inc s ubound =
    let l2 = (s.l2num + 1) % 2 ^ 32 in
    if leb ubound l2
    then record { l1num = (s.l1num + 1) % 2 ^ 32; l2num = 0 }
    else record s { l2num = l2 }

unfoldable pub sequence_inc_l1 : Sequence → Sequence
sequence_inc_l1 s = record { l1num = (s.l1num + 1) % 2 ^ 32; l2num = 0 }

unfoldable pub sequence_inc_l2 : Sequence → Sequence
sequence_inc_l2 s = record s { l2num = (s.l2num + 1) % 2 ^ 32 }

unfoldable pub sequence_reset : Sequence → Sequence
sequence_reset s = record { l1num = 0; l2num = 0 }

-- how many numbers stand before `s`, where each coarse chunk has `ubound` pieces
pub rank : ℕ → Sequence → ℕ
rank ubound s = s.l1num * ubound + s.l2num

-- the order of the tests is the order of the ranks
pub record IsOrder (ubound : ℕ) (s t : Sequence) : Type 0 where
  pub lt : (sequence_lt s t ≡ true) ↔ (rank ubound s < rank ubound t)
  pub gt : (sequence_gt s t ≡ true) ↔ (rank ubound t < rank ubound s)
  pub eq : (sequence_eq s t ≡ true) ↔ (rank ubound s ≡ rank ubound t)

rank_lt : (u : ℕ) (s t : Sequence) → s.l2num < u → s.l1num < t.l1num → rank u s < rank u t
unfolding rank
rank_lt u s t p q =
    let h : (s.l1num + 1) * u ≤ t.l1num * u = grind arith in
    let e : (s.l1num + 1) * u ≡ s.l1num * u + u = grind arith in omega arith

rank_def : (u : ℕ) (s : Sequence) → rank u s ≡ s.l1num * u + s.l2num
unfolding rank
rank_def u s = refl

compare_lem : (a b : ℕ) → (a < b) ⊎ ((b < a) ⊎ (a ≡ b))
compare_lem a b = elim (dec_lt a b) [
  | yes p ↦ inl p
  | no n ↦ elim (dec_lt b a) [ yes q ↦ inr (inl q) | no m ↦ inr (inr (omega arith)) ]
]

-- sequence_lt, sequence_gt and sequence_eq compare the numbers of the pieces that stand before, if
-- every coarse chunk has `ubound` pieces: they are one linear order.
pub order_lem :
    (ubound : ℕ) (s t : Sequence) → s.l2num < ubound → t.l2num < ubound → IsOrder ubound s t
unfolding sequence_lt sequence_gt sequence_eq
order_lem u s t p q = elim (compare_lem s.l1num t.l1num) [
  | inl lt ↦
      let r = rank_lt u s t p lt in
      record { lt = ground arith; gt = ground arith; eq = ground arith }
  | inr rest ↦ elim rest [
    | inl gt ↦
        let r = rank_lt u t s q gt in
        record { lt = ground arith; gt = ground arith; eq = ground arith }
    | inr e ↦
        let r : rank u s ≡ s.l1num * u + s.l2num = rank_def u s in
        let r' : rank u t ≡ s.l1num * u + t.l2num = rw e (rank_def u t) in
        record { lt = ground arith; gt = ground arith; eq = ground arith }
  ]
]

-- what sequence_inc, and the two steps of which the write stage makes it, do to a number
pub record Increments (ubound : ℕ) (s : Sequence) : Type 0 where
  pub next : rank ubound (sequence_inc s ubound) ≡ rank ubound s + 1
  pub above : sequence_lt s (sequence_inc s ubound) ≡ true
  pub in_range : (sequence_inc s ubound).l2num < ubound
  pub fits : (sequence_inc s ubound).l1num < 2 ^ 32
  pub by_steps :
      sequence_inc s ubound
      ≡ (let t = sequence_inc_l2 s in if t.l2num == ubound then sequence_inc_l1 t else t)

-- sequence_inc moves to the next rank, which sequence_lt finds above the number, keeps both parts
-- in their ranges, and is sequence_inc_l2, followed by sequence_inc_l1 if the bound is reached; if
-- the second part is below the bound, a 32-bit number, and the first is not the largest one.
pub sequence_inc_lem :
    (ubound : ℕ) (s : Sequence)
    → s.l2num < ubound
    → ubound < 2 ^ 32
    → s.l1num + 1 < 2 ^ 32
    → Increments ubound s
unfolding sequence_inc rank sequence_lt sequence_inc_l1 sequence_inc_l2
sequence_inc_lem u s p q r =
    let e : (s.l1num + 1) * u ≡ s.l1num * u + u = grind arith in
    record {
      next = ground arith;
      above = ground arith;
      in_range = ground arith;
      fits = ground arith;
      by_steps = ground arith;
    }
