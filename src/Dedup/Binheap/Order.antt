-- ===== src/Dedup/Binheap/Order.antt =====
-- The heap order, and Insert of src/dedup/binheap.cpp, which keeps it.
use npb_sync.Prelude.{
  ℕ, zero, suc, ◌+◌, ◌/◌, ◌≤◌, ◌<◌, ◌≡◌, ◌≢◌, ap, arith, Bool, true, false, Option, none, some, ltb,
  ◌==◌, Option-cases, dec_lt, ℕ_discrete, inl, inr, ◌⊎◌,
}
use npb_sync.Memory.{Memory, store}
use npb_sync.Dedup.Chunk.{Chunk}
use npb_sync.Dedup.Binheap.{PriorityQueue, is_above, insert_loop, insert}

pub dec_eq : (a b : ℕ) → (a ≡ b) ⊎ (a ≢ b)
dec_eq a b = elim (ℕ_discrete a b) [ yes e ↦ inl e | no n ↦ inr n ]

-- what the heap is ordered by; the sentinel counts as the least
abbrev pub key : Option Chunk → ℕ
key none = 0
key (some c) = c.sequence.l2num

abbrev pub is_there : Option Chunk → Bool
is_there none = false
is_there (some c) = true

-- the cells from 1 to `size` hold chunks, none less than the one at half its index
pub record IsHeap (size : ℕ) (elements : Memory (Option Chunk)) : Type 0 where
  pub sentinel : elements 0 ≡ none
  pub there : (j : ℕ) → 0 < j → j ≤ size → is_there (elements j) ≡ true
  pub ordered : (j : ℕ) → 0 < j → j ≤ size → key (elements (j / 2)) ≤ key (elements j)

-- the same but for the cell `i`, into which a chunk with key `x` may go if its parent is not larger
record HasHole (size i x : ℕ) (elements : Memory (Option Chunk)) : Type 0 where
  sentinel : elements 0 ≡ none
  there : (j : ℕ) → 0 < j → j ≤ size → j ≢ i → is_there (elements j) ≡ true
  ordered :
      (j : ℕ) → 0 < j → j ≤ size → j ≢ i → j / 2 ≢ i → key (elements (j / 2)) ≤ key (elements j)
  above : (j : ℕ) → 0 < j → j ≤ size → j / 2 ≡ i → x ≤ key (elements j)
  around : (j : ℕ) → 0 < j → j ≤ size → j / 2 ≡ i → key (elements (i / 2)) ≤ key (elements j)

fill :
    (size i : ℕ) (x : Chunk) (elements : Memory (Option Chunk))
    → 0 < i
    → HasHole size i x.sequence.l2num elements
    → key (elements (i / 2)) ≤ x.sequence.l2num
    → IsHeap size (store elements i (some x))
fill size i x elements pos h parent = record {
  sentinel = let s = h.sentinel in ground arith;
  there = λ j a b. elim (dec_eq j i) [
    | inl e ↦ ground arith
    | inr n ↦ let t = h.there j a b n in ground arith
  ];
  ordered = λ j a b. elim (dec_eq j i) [
    | inl e ↦ ground arith
    | inr n ↦ elim (dec_eq (j / 2) i) [
      | inl e ↦ let t = h.above j a b e in ground arith
      | inr m ↦ let t = h.ordered j a b n m in ground arith
    ]
  ];
}

move_up :
    (size i x : ℕ) (elements : Memory (Option Chunk))
    → 0 < i / 2
    → i ≤ size
    → HasHole size i x elements
    → x < key (elements (i / 2))
    → HasHole size (i / 2) x (store elements i (elements (i / 2)))
move_up size i x elements pos b h larger =
    let p = h.there (i / 2) pos (omega arith) (λ e. omega arith) in
    let g = h.ordered (i / 2) pos (omega arith) (λ e. omega arith) (λ e. omega arith) in
    record {
      sentinel = let s = h.sentinel in ground arith;
      there = λ j a c n. elim (dec_eq j i) [
        | inl e ↦ ground arith
        | inr m ↦ let t = h.there j a c m in ground arith
      ];
      ordered = λ j a c n m. elim (dec_eq (j / 2) i) [
        | inl e ↦ let t = h.around j a c e in ground arith
        | inr k ↦ let t = h.ordered j a c (λ e. m (ap (λ k. k / 2) e)) k in ground arith
      ];
      above = λ j a c e. elim (dec_eq j i) [
        | inl e' ↦ ground arith
        | inr n ↦ let t = h.ordered j a c n (λ e'. omega arith) in ground arith
      ];
      around = λ j a c e. elim (dec_eq j i) [
        | inl e' ↦ ground arith
        | inr n ↦ let t = h.ordered j a c n (λ e'. omega arith) in ground arith
      ];
    }

pub parent_pos :
    (i : ℕ) (c : Chunk) (elements : Memory (Option Chunk))
    → elements 0 ≡ none
    → elements (i / 2) ≡ some c
    → 0 < i / 2
parent_pos i c elements s e = elim (dec_lt 0 (i / 2)) [
  | yes p ↦ p
  | no n ↦ let z : i / 2 ≡ 0 = omega arith in absurd (cc (s, rw z at e))
]

insert_loop-IsHeap :
    (fuel : ℕ) (x : Chunk) (size i : ℕ) (elements : Memory (Option Chunk))
    → 0 < i
    → i ≤ size
    → i ≤ fuel
    → HasHole size i x.sequence.l2num elements
    → IsHeap size (insert_loop fuel x i elements)
unfolding insert_loop is_above
insert_loop-IsHeap zero x size i elements pos b f h = absurd (omega arith)
insert_loop-IsHeap (suc fuel) x size i elements pos b f h = elim (Option-cases (elements (i / 2))) [
  | inl n ↦
      let p : key (elements (i / 2)) ≤ x.sequence.l2num = rw n (omega arith) in
      rw n (fill size i x elements pos h p)
  | inr c ↦ elim (dec_lt x.sequence.l2num c.0.sequence.l2num) [
    | yes larger ↦
        let half : 0 < i / 2 = parent_pos i c.0 elements h.sentinel c.1 in
        let t : is_above x (elements (i / 2)) ≡ true = rw c.1 (ground arith) in
        let up : x.sequence.l2num < key (elements (i / 2)) = rw c.1 larger in
        rw t (
          insert_loop-IsHeap fuel x size (i / 2) (store elements i (elements (i / 2))) half
            (omega arith) (omega arith) (move_up size i x.sequence.l2num elements half b h up))
    | no smaller ↦
        let t : ltb x.sequence.l2num c.0.sequence.l2num ≡ false = ground arith in
        let p : key (elements (i / 2)) ≤ x.sequence.l2num = rw c.1 (omega arith) in
        rw (c.1, t) (fill size i x elements pos h p)
  ]
]

le_but_last : (j size : ℕ) → j ≤ size + 1 → j ≢ size + 1 → j ≤ size
le_but_last j size b n = omega arith

pub half_pos : (j : ℕ) → 0 < j → j ≢ 1 → 0 < j / 2
half_pos j a n = omega arith

pub half_le : (j k : ℕ) → 0 < j → j ≤ suc k → j / 2 ≤ k
half_le j k a c = omega arith

-- the place behind the last cell
open_hole :
    (size : ℕ) (x : ℕ) (elements : Memory (Option Chunk))
    → IsHeap size elements
    → HasHole (size + 1) (size + 1) x elements
open_hole size x elements h = record {
  sentinel = h.sentinel;
  there = λ j a b n. h.there j a (le_but_last j size b n);
  ordered = λ j a b n m. h.ordered j a (le_but_last j size b n);
  above = λ j a b e. absurd (omega arith);
  around = λ j a b e. absurd (omega arith);
}

pub insert_cells :
    (x : Chunk) (h : PriorityQueue)
    → IsHeap h.size h.elements
    → IsHeap (insert x h).size (insert x h).elements
unfolding insert
insert_cells x h v = elim (dec_eq h.size 0) [
  | inl z ↦
      let t : (h.size == 0) ≡ true = ground arith in
      let s = v.sentinel in
      rw t (record {
        sentinel = ground arith;
        there = λ j a b. ground arith;
        ordered = λ j a b. ground arith;
      })
  | inr n ↦
      let t : (h.size == 0) ≡ false = ground arith in
      rw t (
        insert_loop-IsHeap (h.size + 1) x (h.size + 1) (h.size + 1) h.elements (omega arith)
          (omega arith) (omega arith) (open_hole h.size x.sequence.l2num h.elements v))
]
