-- ===== src/SmartFifo/Elements.antt =====
-- `SmartFIFOElements<T>` of src/smart_fifo.h: the ranges that a consumer has taken, with a position
-- in them. `rest` are the ranges from `_current_range` on.
use npb_sync.Prelude.{
  ℕ, zero, suc, ◌+◌, ◌<◌, ◌≡◌, ◌⊎◌, refl, ap, ◌∙◌, sym, Bool, true, false, ◌&&◌, not, Option, none,
  some, List, [], ◌∷◌, ◌++◌, arith, ◌==◌, if◌then◌else◌, length, drop, concat, drop_all, Bool-cases,
  inl, inr,
}

pub record Elements {ℓ} (A : Type ℓ) : Type ℓ where
  pub ranges : List (List A)
  pub rest : List (List A)
  pub index : ℕ

module _ {ℓ} {A : Type ℓ} where
  unfoldable pub set_ranges : List (List A) → Elements A
  set_ranges ranges = record { ranges = ranges; rest = ranges; index = 0 }

  -- `linked` says whether the chunk of the first range has a next one.
  unfoldable pub empty_elements : Bool → Elements A → Bool
  empty_elements linked e = elim e.ranges [
    | [] ↦ true
    | range ∷ more ↦ elim more [ [] ↦ length range == 0 && not linked | _ ∷ _ ↦ false ]
  ]

  abbrev pub any_left : List (List A) → Bool
  any_left [] = false
  any_left (range ∷ more) = true

  unfoldable pub has_next : Bool → Elements A → Bool
  unfolding empty_elements
  has_next linked e = not (empty_elements linked e) && any_left e.rest

  abbrev pub cell : List A → ℕ → Option A
  cell [] i = none
  cell (x ∷ xs) zero = some x
  cell (x ∷ xs) (suc i) = cell xs i

  -- the ranges of no elements that come next are passed over
  unfoldable pub skip_ranges : List (List A) → List (List A)
  skip_ranges [] = []
  skip_ranges ([] ∷ more) = skip_ranges more
  skip_ranges ((x ∷ xs) ∷ more) = (x ∷ xs) ∷ more

  -- The position after the element at `index` of `range`.
  unfoldable pub advance : Elements A → List A → List (List A) → Elements A
  unfolding skip_ranges
  advance e range more =
      if e.index + 1 == length range
      then record e { rest = skip_ranges more; index = 0 }
      else record e { index = e.index + 1 }

  unfoldable pub next : Bool → Elements A → Option A × Elements A
  unfolding has_next advance
  next linked e =
      if has_next linked e
      then elim e.rest [
        | [] ↦ (none, e)
        | range ∷ more ↦ (cell range e.index, advance e range more)
      ]
      else (none, e)

module _ {A : Type 0} where
  -- what is still to come
  unfoldable pub remaining_from : List (List A) → ℕ → List A
  remaining_from [] i = []
  remaining_from (range ∷ more) i = drop i range ++ concat more

  unfoldable pub remaining : Elements A → List A
  unfolding remaining_from
  remaining e = remaining_from e.rest e.index

  -- There is an element at the position, if any range is left.
  unfoldable pub IsAt : List (List A) → ℕ → Type 0
  IsAt ranges i = (range : List A) (more : List (List A)) → ranges ≡ range ∷ more → i < length range

  pub record IsReady (e : Elements A) : Type 0 where
    pub position : IsAt e.rest e.index
    pub not_empty : (linked : Bool) → any_left e.rest ≡ true → empty_elements linked e ≡ false

  pub skip_ranges_lem :
      (ranges : List (List A))
      → (remaining_from (skip_ranges ranges) 0 ≡ concat ranges) × IsAt (skip_ranges ranges) 0
  unfolding skip_ranges remaining_from IsAt
  skip_ranges_lem [] = (refl, λ range more e. absurd (ground (arith, e)))
  skip_ranges_lem ([] ∷ more) = skip_ranges_lem more
  skip_ranges_lem ((x ∷ xs) ∷ more) = (refl, λ range more e. ground (arith, e))

  pub drop-cell :
      (xs : List A) (i : ℕ)
      → i < length xs
      → (x : A) × (cell xs i ≡ some x) × (drop i xs ≡ x ∷ drop (i + 1) xs)
  drop-cell [] i h = absurd (omega (arith, h))
  drop-cell (x ∷ xs) zero h = (x, refl, refl)
  drop-cell (x ∷ xs) (suc i) h =
      let (y, at, after) = drop-cell xs i (omega (arith, h)) in
      let e : suc i + 1 ≡ suc (i + 1) = omega arith in (y, at, rw e after)

  pub advance-empty :
      (linked : Bool) (e : Elements A) (range : List A) (more : List (List A))
      → empty_elements linked (advance e range more) ≡ empty_elements linked e
  unfolding advance empty_elements
  advance-empty linked e range more = ground arith

  pub advance_lem :
      (e : Elements A) (range : List A) (more : List (List A))
      → e.rest ≡ range ∷ more
      → e.index < length range
      → IsAt (advance e range more).rest (advance e range more).index
        × (remaining (advance e range more) ≡ drop (e.index + 1) range ++ concat more)
  unfolding advance remaining IsAt remaining_from
  advance_lem e range more here h =
      let (left, ready) = skip_ranges_lem more in
      elim (Bool-cases (e.index + 1 == length range)) [
        | inl t ↦ rw t (
          ready,
          left
              ∙ ap (λ xs. xs ++ concat more)
                  (sym (drop_all (e.index + 1) range (ground (arith, t)))),
        )
        | inr t ↦ rw (t, here) (λ r m same. ground (arith, t, h, same), refl)
      ]

  -- When the position is at an element or all ranges are used up, `next` returns the first of the
  -- elements that are still to come, or NULL if there is none, the others stay to come, and the new
  -- position is at an element or all ranges are used up.
  pub next_lem :
      (linked : Bool) (e : Elements A)
      → IsReady e
      → let (taken, e') = next linked e in
        IsReady e' × (taken ≡ cell (remaining e) 0) × (remaining e' ≡ drop 1 (remaining e))
  unfolding next has_next remaining remaining_from IsAt
  next_lem linked e h = next_fields linked e.ranges e.rest e.index h
    where
      next_fields :
          (linked : Bool) (ranges rest : List (List A)) (index : ℕ)
          → let e : Elements A = record { ranges = ranges; rest = rest; index = index } in
            IsReady e
            → let (taken, e') = next linked e in
              IsReady e' × (taken ≡ cell (remaining e) 0) × (remaining e' ≡ drop 1 (remaining e))
      next_fields linked ranges [] index h =
          let e : Elements A = record { ranges = ranges; rest = []; index = index } in
          let stays : next linked e ≡ (none, e) = ground arith in rw stays (h, refl, refl)
      next_fields linked ranges (range ∷ more) index h =
          let e : Elements A = record { ranges = ranges; rest = range ∷ more; index = index } in
          let here = h.position range more refl in
          let (x, at, after) = drop-cell range index here in
          let (ready, left) = advance_lem e range more refl here in
          let full = h.not_empty linked refl in
          let goes : next linked e ≡ (cell range index, advance e range more) =
            ground (arith, full) in
          let split : drop index range ++ concat more ≡ x ∷ remaining (advance e range more) =
            ap (λ xs. xs ++ concat more) after ∙ ap (◌∷◌ x) (sym left) in
          rw goes (
            record {
              position = ready;
              not_empty = λ k some_left. advance-empty k e range more ∙ h.not_empty k refl;
            },
            at ∙ ap (λ xs. cell xs 0) (sym split),
            ap (drop 1) (sym split),
          )

  -- `has_next` says whether an element is still to come.
  pub has_next_lem :
      (linked : Bool) (e : Elements A)
      → IsReady e
      → ((x : A) × (has_next linked e ≡ true) × (remaining e ≡ x ∷ drop 1 (remaining e)))
        ⊎ ((has_next linked e ≡ false) × (remaining e ≡ []))
  unfolding has_next remaining remaining_from IsAt
  has_next_lem linked e h = fields linked e.ranges e.rest e.index h
    where
      fields :
          (linked : Bool) (ranges rest : List (List A)) (index : ℕ)
          → let e : Elements A = record { ranges = ranges; rest = rest; index = index } in
            IsReady e
            → ((x : A) × (has_next linked e ≡ true) × (remaining e ≡ x ∷ drop 1 (remaining e)))
              ⊎ ((has_next linked e ≡ false) × (remaining e ≡ []))
      fields linked ranges [] index h = inr (ground arith, refl)
      fields linked ranges (range ∷ more) index h =
          let (x, at, after) = drop-cell range index (h.position range more refl) in
          let full = h.not_empty linked refl in inl (x, ground (arith, full), rw after refl)

  -- Ranges of which the first is not empty are all to come after they are set.
  pub set_ranges_lem :
      (range : List A) (more : List (List A))
      → 0 < length range
      → IsReady (set_ranges (range ∷ more))
        × (remaining (set_ranges (range ∷ more)) ≡ concat (range ∷ more))
  unfolding set_ranges remaining remaining_from empty_elements IsAt
  set_ranges_lem range more h = (
    record { position = λ r m e. ground (arith, h, e); not_empty = λ linked _. ground (arith, h) },
    refl,
  )
