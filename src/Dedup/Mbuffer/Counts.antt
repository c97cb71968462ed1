-- ===== src/Dedup/Mbuffer/Counts.antt =====
-- The reference counts of src/dedup/mbuffer.cpp: they are the numbers of buffers in use, and a
-- block is freed with its last buffer and not before.
use npb_sync.Prelude.{
  ℕ, ◌+◌, ◌-◌, ◌%◌, ◌^◌, ◌<◌, ◌≡◌, refl, true, none, some, List, [], ◌∷◌, arith, ◌==◌,
  if◌then◌else◌, length, dec_le, Option-cases, inl, inr,
}
use npb_sync.Memory.{store}
use npb_sync.Dedup.Mbuffer.{
  Mcb, Mbuffer, Heap, mbuffer_create, add_reference, mbuffer_clone, mbuffer_free, mbuffer_split,
}

-- the buffers of a list that refer to an MCB
unfoldable pub refs : ℕ → List Mbuffer → ℕ
refs a [] = 0
refs a (m ∷ rest) = if m.mcb == a then refs a rest + 1 else refs a rest

unfoldable pub count : Heap → ℕ → ℕ
count h a = elim (h.mcbs a) [ none ↦ 0 | some c ↦ c.i ]

-- The buffers in use are those of the list, in any order.
pub record IsCounted (h : Heap) (bufs : List Mbuffer) : Type 0 where
  pub counted : (a : ℕ) → count h a ≡ refs a bufs
  pub few : length bufs < 2 ^ 32 - 1
  pub alive : (a : ℕ) (c : Mcb) → h.mcbs a ≡ some c → (0 < c.i) × (0 < h.blocks c.ptr)
  pub alone :
      (a a' : ℕ) (c c' : Mcb) → h.mcbs a ≡ some c → h.mcbs a' ≡ some c' → c.ptr ≡ c'.ptr → a ≡ a'

pub refs-length : (a : ℕ) (bufs : List Mbuffer) → refs a bufs < length bufs + 1
unfolding refs
refs-length a [] = omega arith
refs-length a (m ∷ rest) = ground (arith, refs-length a rest)

-- Two buffers `x` and `y` with the MCB of `m` take its place once a reference is added.
pub add_reference_lem :
    (h : Heap) (m x y : Mbuffer) (bufs : List Mbuffer)
    → length bufs + 3 < 2 ^ 32
    → x.mcb ≡ m.mcb
    → y.mcb ≡ m.mcb
    → IsCounted h (m ∷ bufs)
    → (h' : Heap) × (add_reference m.mcb h ≡ some h') × IsCounted h' (x ∷ y ∷ bufs)
unfolding add_reference count refs
add_reference_lem h m x y bufs room ex ey good = elim (Option-cases (h.mcbs m.mcb)) [
  | inl e ↦ absurd (ground (arith, e, good.counted m.mcb))
  | inr (c, e) ↦
      (let h' : Heap = record h {
        mcbs = store h.mcbs m.mcb (some (record c { i = (c.i + 1) % 2 ^ 32 }));
      } in
        let here = good.counted m.mcb in
        let bound = refs-length m.mcb bufs in
        let (used, there) = good.alive m.mcb c e in
        (
          h',
          ground (arith, e, used),
          record {
            counted = λ a. ground (arith, e, ex, ey, here, bound, room, good.counted a);
            few = omega (arith, room);
            alive = λ a d at. ground (arith, at, e, used, there, here, bound, room, good.alive a d);
            alone = λ a a' d d' at at' same. ground (
              arith,
              at,
              at',
              e,
              same,
              good.alone a a' d d',
              good.alone a m.mcb d c,
              good.alone m.mcb a' c d',
            );
          },
        ))
]

-- `mbuffer_clone` of a buffer in use, with memory for the copy, and `mbuffer_split` of one at a place
-- within it succeed, and the counts are right with the new buffer, as long as there are fewer than
-- 2^32 - 3 other buffers.
pub clone_split_lem :
    (h : Heap) (m : Mbuffer) (bufs : List Mbuffer) (split : ℕ)
    → length bufs + 3 < 2 ^ 32
    → 0 < split
    → split < m.n
    → IsCounted h (m ∷ bufs)
    → ((h' : Heap) × (mbuffer_clone true m h ≡ some (some m, h')) × IsCounted h' (m ∷ m ∷ bufs))
      × ((h' : Heap) × (front : Mbuffer) × (back : Mbuffer) × (mbuffer_split m split h
            ≡ some (front, back, h'))
          × IsCounted h' (front ∷ back ∷ bufs)
          × (front.offset ≡ m.offset)
          × (front.offset + front.n ≡ back.offset)
          × (back.offset + back.n ≡ m.offset + m.n))
unfolding mbuffer_clone mbuffer_split
clone_split_lem h m bufs split room pos inside good =
    let front : Mbuffer = record m { n = split } in
    let back : Mbuffer = record m { offset = m.offset + split; n = m.n - split } in
    let (h', added, good') = add_reference_lem h m m m bufs room refl refl good in
    let (k', added', parts) = add_reference_lem h m front back bufs room refl refl good in
    (
      (h', ground (arith, added), good'),
      (
        k',
        front,
        back,
        ground (arith, added', pos, inside),
        parts,
        refl,
        refl,
        omega (arith, inside),
      ),
    )

-- `mbuffer_create` with a size that is not 0, where `malloc` returns a block and an MCB that were
-- not allocated, gives a buffer of the whole block, and the counts are right with it.
pub create-IsCounted :
    (h : Heap) (bufs : List Mbuffer) (ptr a size : ℕ)
    → length bufs + 2 < 2 ^ 32
    → 0 < size
    → h.blocks ptr ≡ 0
    → h.mcbs a ≡ none
    → IsCounted h bufs
    → (h' : Heap) × (m : Mbuffer) × (mbuffer_create (some ptr) (some a) size h ≡ some (some m, h'))
      × IsCounted h' (m ∷ bufs)
      × (m.offset ≡ 0)
      × (m.n ≡ h'.blocks m.block)
unfolding mbuffer_create count refs
create-IsCounted h bufs ptr a size room pos fresh free good =
    let m : Mbuffer = record { block = ptr; offset = 0; n = size; mcb = a } in
    let h' : Heap = record {
      mcbs = store h.mcbs a (some (record { i = 1; ptr = ptr }));
      blocks = store h.blocks ptr size;
    } in
    (
      h',
      m,
      ground (arith, pos),
      record {
        counted = λ b. ground (arith, free, good.counted a, good.counted b);
        few = omega (arith, room);
        alive = λ b d at. ground (arith, at, pos, good.alive b d);
        alone = λ b b' d d' at at' same.
            ground
              (arith, at, at', same, fresh, good.alone b b' d d', good.alive b d, good.alive b' d');
      },
      refl,
      ground arith,
    )

-- `mbuffer_free` of a buffer in use touches no MCB that is freed, and the counts are right for the
-- buffers that remain. If none of them refers to its MCB, the MCB and its block are freed; otherwise
-- all blocks stay.
pub free-IsCounted :
    (h : Heap) (m : Mbuffer) (bufs : List Mbuffer)
    → IsCounted h (m ∷ bufs)
    → (h' : Heap) × (c : Mcb) × (mbuffer_free m h ≡ some h')
      × IsCounted h' bufs
      × (h.mcbs m.mcb ≡ some c)
      × ((b : ℕ)
          → h'.blocks b ≡ (if refs m.mcb bufs == 0 then store h.blocks c.ptr 0 b else h.blocks b))
unfolding mbuffer_free count refs
free-IsCounted h m bufs good = elim (Option-cases (h.mcbs m.mcb)) [
  | inl e ↦ absurd (ground (arith, e, good.counted m.mcb))
  | inr (c, e) ↦
      (let here = good.counted m.mcb in
        let bound = refs-length m.mcb bufs in
        let few = good.few in
        let (used, there) = good.alive m.mcb c e in
        elim (dec_le c.i 1) [
          | yes last ↦
              (let h' : Heap = record {
                mcbs = store h.mcbs m.mcb none;
                blocks = store h.blocks c.ptr 0;
              } in
                (
                  h',
                  c,
                  ground (arith, e, used, last),
                  record {
                    counted = λ a. ground (arith, e, here, last, used, good.counted a);
                    few = omega (arith, few);
                    alive = λ a d at. ground (arith, at, e, good.alive a d, good.alone a m.mcb d c);
                    alone = λ a a' d d' at at' same.
                        ground (arith, at, at', same, good.alone a a' d d');
                  },
                  e,
                  λ b. ground (arith, e, here, last, used),
                ))
          | no others ↦
              (let h' : Heap = record h {
                mcbs = store h.mcbs m.mcb (some (record c { i = c.i - 1 }));
              } in
                (
                  h',
                  c,
                  ground (arith, e, used, others, here, bound, few),
                  record {
                    counted = λ a. ground (arith, e, here, others, good.counted a);
                    few = omega (arith, few);
                    alive = λ a d at. ground (arith, at, e, others, there, good.alive a d);
                    alone = λ a a' d d' at at' same. ground (
                      arith,
                      at,
                      at',
                      e,
                      same,
                      good.alone a a' d d',
                      good.alone a m.mcb d c,
                      good.alone m.mcb a' c d',
                    );
                  },
                  e,
                  λ b. ground (arith, e, here, others),
                ))
        ])
]
