-- ===== src/Tests/Buffers.antt =====
-- The buffers of src/dedup/mbuffer.cpp on concrete inputs.
use npb_sync.Prelude.{ℕ, ◌+◌, ◌≡◌, refl, true, none, some, [], ◌∷◌, arith, ◌==◌, if◌then◌else◌}
use npb_sync.Memory.{store}
use npb_sync.Dedup.Mbuffer.{
  Mcb, Mbuffer, Heap, mbuffer_clone, mbuffer_split, mbuffer_free, mbuffer_realloc,
}
use npb_sync.Dedup.Mbuffer.Counts.{IsCounted, refs, count, clone_split_lem, free-IsCounted}

abbrev nothing : Heap
nothing = record { mcbs = λ a. none; blocks = λ b. 0 }

nothing-IsCounted : IsCounted nothing []
unfolding count refs
nothing-IsCounted = record {
  counted = λ a. refl;
  few = omega arith;
  alive = λ a c at. absurd (ground (arith, at));
  alone = λ a a' c c' at at' same. absurd (ground (arith, at));
}

-- the whole of a block of 20 bytes
abbrev whole : Mbuffer
whole = record { block = 7; offset = 0; n = 20; mcb = 1 }

abbrev one : Heap
one = record {
  mcbs = λ a. if 1 == a then some (record { i = 1; ptr = 7 }) else none;
  blocks = λ b. if 7 == b then 20 else 0;
}

one-IsCounted : IsCounted one (whole ∷ [])
unfolding count refs
one-IsCounted = record {
  counted = λ a. ground arith;
  few = omega arith;
  alive = λ a c at. ground (arith, at);
  alone = λ a a' c c' at at' same. ground (arith, at, at');
}

-- A second reference keeps a buffer from being resized.
realloc_shared :
    mbuffer_realloc (some 8) whole 40 (record one { mcbs = λ a. some (record { i = 2; ptr = 7 }) })
    ≡ some (none, record one { mcbs = λ a. some (record { i = 2; ptr = 7 }) })
unfolding mbuffer_realloc
realloc_shared = refl

clone_split_lem_example :
    ((h' : Heap) × (mbuffer_clone true whole one ≡ some (some whole, h'))
      × IsCounted h' (whole ∷ whole ∷ []))
    × ((h' : Heap) × (front : Mbuffer) × (back : Mbuffer) × (mbuffer_split whole 5 one
          ≡ some (front, back, h'))
        × IsCounted h' (front ∷ back ∷ [])
        × (front.offset ≡ 0)
        × (front.offset + front.n ≡ back.offset)
        × (back.offset + back.n ≡ 0 + 20))
clone_split_lem_example =
    clone_split_lem one whole [] 5 (omega arith) (omega arith) (omega arith) one-IsCounted

free-IsCounted_example :
    (h' : Heap) × (c : Mcb) × (mbuffer_free whole one ≡ some h')
    × IsCounted h' []
    × (one.mcbs 1 ≡ some c)
    × ((b : ℕ)
        → h'.blocks b ≡ (if refs 1 [] == 0 then store one.blocks c.ptr 0 b else one.blocks b))
free-IsCounted_example = free-IsCounted one whole [] one-IsCounted
