-- ===== src/Dedup/Mbuffer.antt =====
-- The buffers of src/dedup/mbuffer.cpp: pieces of a block from `malloc`, which counts the pieces in
-- a control block, its MCB, and is freed with the last one. A result `none` is a failed `assert`
-- or an access to an MCB that is freed; -1 or NULL returned are `none` within. The locks make each
-- change of a count atomic. The contents of the blocks are left out, and so is `mbuffer_copy`.
pub mod Counts
use npb_sync.Prelude.{
  ℕ, ◌+◌, ◌-◌, ◌%◌, ◌^◌, Bool, ◌&&◌, Option, none, some, ltb, leb, ◌==◌, if◌then◌else◌,
}
use npb_sync.Memory.{store}

-- the reference counter, an `unsigned int`, and the block
pub record Mcb : Type 0 where
  pub i : ℕ
  pub ptr : ℕ

-- `n` bytes from `offset` on of the block
pub record Mbuffer : Type 0 where
  pub block : ℕ
  pub offset : ℕ
  pub n : ℕ
  pub mcb : ℕ

-- the MCBs that are allocated, and the sizes of the blocks, 0 for one that is not allocated
pub record Heap : Type 0 where
  pub mcbs : ℕ → Option Mcb
  pub blocks : ℕ → ℕ

-- `data` and `control` are what the two calls of `malloc` return
unfoldable pub mbuffer_create : Option ℕ → Option ℕ → ℕ → Heap → Option (Option Mbuffer × Heap)
mbuffer_create none control size h = if size == 0 then none else some (none, h)
mbuffer_create (some ptr) none size h = if size == 0 then none else some (none, h)
mbuffer_create (some ptr) (some a) size h =
    if size == 0
    then none
    else some (
      some (record { block = ptr; offset = 0; n = size; mcb = a }),
      record {
        mcbs = store h.mcbs a (some (record { i = 1; ptr = ptr }));
        blocks = store h.blocks ptr size;
      },
    )

-- the counter of an MCB after `++`; `none` unless there is a reference
unfoldable pub add_reference : ℕ → Heap → Option Heap
add_reference a h = elim (h.mcbs a) [
  | none ↦ none
  | some c ↦
      if c.i == 0
      then none
      else some (record h { mcbs = store h.mcbs a (some (record c { i = (c.i + 1) % 2 ^ 32 })) })
]

-- `memory` says whether there is room for the new `mbuffer_t`
unfoldable pub mbuffer_clone : Bool → Mbuffer → Heap → Option (Option Mbuffer × Heap)
unfolding add_reference
mbuffer_clone memory m h =
    if memory
    then elim (add_reference m.mcb h) [ none ↦ none | some h' ↦ some (some m, h') ]
    else some (none, h)

unfoldable pub mbuffer_free : Mbuffer → Heap → Option Heap
mbuffer_free m h = elim (h.mcbs m.mcb) [
  | none ↦ none
  | some c ↦
      (let ref = (c.i + (2 ^ 32 - 1)) % 2 ^ 32 in
        if ref == 0
        then some (record { mcbs = store h.mcbs m.mcb none; blocks = store h.blocks c.ptr 0 })
        else some (record h { mcbs = store h.mcbs m.mcb (some (record c { i = ref })) }))
]

-- the two parts of the first buffer
unfoldable pub mbuffer_split : Mbuffer → ℕ → Heap → Option (Mbuffer × Mbuffer × Heap)
unfolding add_reference
mbuffer_split m split h =
    if ltb 0 split && ltb split m.n
    then elim (add_reference m.mcb h) [
      | none ↦ none
      | some h' ↦
          some (record m { n = split }, record m { offset = m.offset + split; n = m.n - split }, h')
    ]
    else none

-- `moved` is what `realloc` returns
unfoldable pub mbuffer_realloc : Option ℕ → Mbuffer → ℕ → Heap → Option (Option Mbuffer × Heap)
mbuffer_realloc moved m size h = if size == 0 then none else elim (h.mcbs m.mcb) [
  | none ↦ none
  | some c ↦
      if leb c.i 1 && (m.block == c.ptr) && (m.offset == 0)
      then elim moved [
        | none ↦ some (none, h)
        | some r ↦ some (
          some (record m { block = r; n = size }),
          record {
            mcbs = store h.mcbs m.mcb (some (record c { ptr = r }));
            blocks = store (store h.blocks c.ptr 0) r size;
          },
        )
      ]
      else some (none, h)
]
