-- ===== src/Memory.antt =====
-- Arrays obtained from `malloc`, as functions from an index, and the slots that a ring buffer
-- uses of one: the `n` cells from `tail` on, going round at `size`.
use native.Mathlib.Nat.{add-zero}
use npb_sync.Prelude.{
  ℕ, zero, suc, ◌+◌, ◌-◌, ◌<◌, ◌≡◌, refl, ap, ap₂, ◌∙◌, List, [], ◌∷◌, ◌++◌, arith, ltb, ◌==◌,
  if◌then◌else◌, length,
}

abbrev pub Memory {ℓ} : Type ℓ → Type ℓ
Memory A = ℕ → A

-- the slot that the index `i` means in a ring of `size` cells, for `i` below twice the size
abbrev pub wrap : ℕ → ℕ → ℕ
wrap size i = if ltb i size then i else i - size

module _ {ℓ} {A : Type ℓ} where
  -- `m[i] = v`
  abbrev pub store : Memory A → ℕ → A → Memory A
  store m i v j = if i == j then v else m j

  -- `memmove(m + dst, m + src, n)`: overlapping ranges are copied as through a buffer
  abbrev pub memmove : Memory A → ℕ → ℕ → ℕ → Memory A
  memmove m dst src n j =
      if ltb j dst then m j else if ltb j (dst + n) then m (src + (j - dst)) else m j

  abbrev pub window : Memory A → ℕ → ℕ → ℕ → List A
  window m size t zero = []
  window m size t (suc n) = m (wrap size t) ∷ window m size (t + 1) n

  pub length-window : (m : Memory A) (size t n : ℕ) → length (window m size t n) ≡ n
  length-window m size t zero = refl
  length-window m size t (suc n) = ap suc (length-window m size (t + 1) n)

  -- Two windows are equal if their slots hold equal values.
  pub window-ext :
      (m m' : Memory A) (size size' t t' n : ℕ)
      → ((k : ℕ) → k < n → m (wrap size (t + k)) ≡ m' (wrap size' (t' + k)))
      → window m size t n ≡ window m' size' t' n
  window-ext m m' size size' t t' zero h = refl
  window-ext m m' size size' t t' (suc n) h =
      ap₂ ◌∷◌ first (window-ext m m' size size' (t + 1) (t' + 1) n λ k p. later k p)
    where
      first : m (wrap size t) ≡ m' (wrap size' t')
      first = rw (add-zero t, add-zero t') at (h 0 (omega arith))

      later : (k : ℕ) → k < n → m (wrap size (t + 1 + k)) ≡ m' (wrap size' (t' + 1 + k))
      later k p =
          let e : t + 1 + k ≡ t + suc k = omega arith in
          let e' : t' + 1 + k ≡ t' + suc k = omega arith in rw (e, e') (h (suc k) (omega arith))

  pub window-snoc :
      (m : Memory A) (size t n : ℕ)
      → window m size t (suc n) ≡ window m size t n ++ m (wrap size (t + n)) ∷ []
  window-snoc m size t zero = rw add-zero
  window-snoc m size t (suc n) =
      let e : t + suc n ≡ t + 1 + n = omega arith in
      rw e (ap (◌∷◌ (m (wrap size t))) (window-snoc m size (t + 1) n))

  -- Writing the slot behind a window that leaves a cell free extends it by the value written.
  pub window-store :
      (m : Memory A) (size t n : ℕ) (v : A)
      → t < size
      → n < size
      → window (store m (wrap size (t + n)) v) size t (suc n) ≡ window m size t n ++ v ∷ []
  window-store m size t n v ht hn =
      window-snoc (store m (wrap size (t + n)) v) size t n
      ∙ ap₂ (λ xs x. xs ++ x ∷ [])
          (window-ext (store m (wrap size (t + n)) v) m size size t t n λ k p. ground arith)
          (ground arith)

  -- The window behind its first slot, with the index brought back into the ring.
  pub window-next :
      (m : Memory A) (size t n : ℕ)
      → t < size
      → n < size
      → window m size (wrap size (t + 1)) n ≡ window m size (t + 1) n
  window-next m size t n ht hn = window-ext m m size size _ (t + 1) n λ k p. ap m (ground arith)

  pub window-cons :
      (m : Memory A) (size t n : ℕ)
      → 0 < n
      → window m size t n ≡ m (wrap size t) ∷ window m size (t + 1) (n - 1)
  window-cons m size t zero h = elim h [ ]
  window-cons m size t (suc n) h = ap (λ k. m (wrap size t) ∷ window m size (t + 1) k) (omega arith)
