-- ===== src/Ring/Shape.antt =====
-- The representation invariant of a ring buffer, the elements that it holds, and its two tests.
use native.Mathlib.Nat.{mod-eq_of_lt, mod-eq-sub-mod}
use npb_sync.Prelude.{
  ℕ, ◌+◌, ◌-◌, ◌%◌, ◌^◌, ◌<◌, ◌≤◌, ◌≡◌, ◌↔◌, true, List, [], some, arith, ◌==◌, ==_iff,
  if◌then◌else◌, length, ℕ_discrete, ◌∙◌, refl,
}
use npb_sync.Memory.{Memory, wrap, window, length-window}
use npb_sync.Ring.{Ring, size_mod, full_mark, empty, full, init, inc_size}

-- One cell of the `size` cells stays free, and all numbers fit an `int`.
pub record IsValid {ℓ} {A : Type ℓ} (r : Ring A) : Type 0 where
  pub tail_in : r.tail < r.size
  pub spare : r.n_elements < r.size
  pub head_at : r.head ≡ wrap r.size (r.tail + r.n_elements)
  pub inside : r.size ≤ r.allocated
  pub small : r.size < 2 ^ 31

module _ {ℓ} {A : Type ℓ} where
  abbrev pub contents : Ring A → List A
  contents r = window r.memory r.size r.tail r.n_elements

  pub length-contents : (r : Ring A) → length (contents r) ≡ r.n_elements
  length-contents r = length-window r.memory r.size r.tail r.n_elements

full_mark-zero : (size : ℕ) → 0 < size → size < 2 ^ 31 → full_mark 0 size ≡ size - 1
full_mark-zero size h s =
    let e : ((0 + (size_mod - 1)) % size_mod + size) % size_mod ≡ size - 1 = omega arith in
    rw e (mod-eq_of_lt (omega arith))

full_mark-suc :
    (tail size : ℕ) → 0 < tail → tail < size → size < 2 ^ 31 → full_mark tail size ≡ tail - 1
full_mark-suc tail size p h s =
    let e : ((tail + (size_mod - 1)) % size_mod + size) % size_mod ≡ tail - 1 + size =
      omega arith in
    let back : tail - 1 + size - size ≡ tail - 1 = omega arith in
    rw (e, mod-eq-sub-mod {n = tail - 1 + size} {m = size} (omega arith), back)
      (mod-eq_of_lt (omega arith))

-- The slot before the tail, going round.
pub full_mark_lem :
    (tail size : ℕ)
    → tail < size
    → size < 2 ^ 31
    → full_mark tail size ≡ (if tail == 0 then size - 1 else tail - 1)
full_mark_lem tail size h s = elim (ℕ_discrete tail 0) [
  | yes z ↦ rw z (full_mark-zero size (omega arith) s)
  | no z ↦ full_mark-suc tail size (omega arith) h s ∙ ground arith
]

module _ {ℓ} {A : Type ℓ} where
  -- `empty` and `full` tell how many elements the ring holds.
  pub empty_iff : (r : Ring A) → IsValid r → (empty r ≡ true) ↔ (r.n_elements ≡ 0)
  unfolding empty
  empty_iff r v = ground (arith, v.head_at, ==_iff r.tail r.head)

  pub full_iff : (r : Ring A) → IsValid r → (full r ≡ true) ↔ (r.n_elements + 1 ≡ r.size)
  unfolding full
  full_iff r v = ground (arith, v.head_at, full_mark_lem r.tail r.size v.tail_in v.small)

  -- `init` throws exactly when it gets no array. Otherwise the ring is valid, is empty, and has
  -- one cell more than the elements asked for, if these are few enough for an `int`.
  pub init_lem :
      (array : Memory A) (size : ℕ)
      → size < 2 ^ 31 - 1
      → (r : Ring A) × (init (some array) size ≡ some r)
        × IsValid r
        × (contents r ≡ [])
        × (r.size ≡ size + 1)
  unfolding init
  init_lem array size h = (
    fresh,
    refl,
    record {
      tail_in = omega arith;
      spare = omega arith;
      head_at = ground arith;
      inside = omega arith;
      small = omega arith;
    },
    refl,
    omega arith,
  )
    where
      fresh : Ring A
      fresh = record {
        memory = array;
        allocated = inc_size size;
        n_elements = 0;
        size = inc_size size;
        head = 0;
        tail = 0;
      }
