-- ===== src/Dedup/Tree/Lookup.antt =====
-- What `TreeFind` returns after `TreeInsert` and `TreeDelete` of src/dedup/tree.cpp: the tree is a
-- finite map from numbers to elements.
use npb_sync.Prelude.{
  ℕ, suc, ◌≤◌, ◌<◌, ◌≡◌, refl, Bool, Option, none, some, arith, ◌==◌, if◌then◌else◌, Option-cases,
  inl, inr,
}
use npb_sync.Dedup.Tree.{
  TreeElement, SearchTree, leaf, node, tree_find, tree_find_min, tree_insert, tree_delete,
}
use npb_sync.Dedup.Tree.Order.{IsBetween, nothing, around, find_min_lem, delete_min_lem}

module _ {Q : Type 0} where
  -- After `TreeInsert` of `x`, `TreeFind` finds what it found before, and `x` under its number if
  -- nothing was there and there was memory for a node.
  pub find-insert :
      (memory : Bool) (x : TreeElement Q) (t : SearchTree Q) (v : ℕ)
      → tree_find v (tree_insert memory x t) ≡ (
          let found : Option (TreeElement Q) = elim (tree_find v t) [
            | none ↦ some x
            | some e ↦ some e
          ] in
          if memory then (if v == x.l1num then found else tree_find v t) else tree_find v t)
  unfolding tree_find tree_insert
  find-insert memory x leaf v = ground arith
  find-insert memory x (node left e right) v =
      ground (arith, find-insert memory x left v, find-insert memory x right v)

  pub find_below :
      (lo hi : ℕ) (t : SearchTree Q) (v : ℕ) → IsBetween lo hi t → v < lo → tree_find v t ≡ none
  unfolding tree_find
  find_below lo hi leaf v nothing h = refl
  find_below lo hi (node left e right) v (around a b l r) h =
      ground (arith, find_below lo e.l1num left v l h)

  pub find_above :
      (lo hi : ℕ) (t : SearchTree Q) (v : ℕ) → IsBetween lo hi t → hi ≤ v → tree_find v t ≡ none
  unfolding tree_find
  find_above lo hi leaf v nothing h = refl
  find_above lo hi (node left e right) v (around a b l r) h =
      ground (arith, find_above (suc e.l1num) hi right v r h)

  pub find_min-IsBetween :
      (lo hi : ℕ) (t : SearchTree Q) (m : TreeElement Q)
      → IsBetween lo hi t
      → tree_find_min t ≡ some m
      → tree_find m.l1num t ≡ some m
  unfolding tree_find tree_find_min
  find_min-IsBetween lo hi leaf m nothing h = ground arith
  find_min-IsBetween lo hi (node leaf e right) m (around a b l r) h = ground arith
  find_min-IsBetween lo hi (node (node x y z) e right) m (around a b l r) h =
      let (p, q) = find_min_lem lo e.l1num m (node x y z) l h in
      let found = find_min-IsBetween lo e.l1num (node x y z) m l h in ground (arith, p, q, found)

  pub find_min_none : (t : SearchTree Q) → tree_find_min t ≡ none → t ≡ leaf
  unfolding tree_find_min
  find_min_none leaf h = refl
  find_min_none (node leaf e right) h = ground arith
  find_min_none (node (node x y z) e right) h =
      let left = find_min_none (node x y z) h in ground (arith, left)

  -- After `TreeDelete` of `x` from a tree in search order, `TreeFind` finds what it found before,
  -- and nothing under the number of `x`.
  pub find-delete :
      (lo hi : ℕ) (x : TreeElement Q) (t : SearchTree Q) (v : ℕ)
      → IsBetween lo hi t
      → tree_find v (tree_delete x t) ≡ (if v == x.l1num then none else tree_find v t)
  unfolding tree_find tree_delete
  find-delete lo hi x leaf v nothing = ground arith
  find-delete lo hi x (node left e right) v (around a b l r) =
      let below = find_below (suc e.l1num) hi right v r in
      let above = find_above lo e.l1num left v l in
      let on_left = find-delete lo e.l1num x left v l in
      let on_right = find-delete (suc e.l1num) hi x right v r in
      elim (Option-cases (tree_find_min right)) [
        | inl h ↦ ground (arith, below, above, on_left, on_right, h, find_min_none right h)
        | inr (cell, h) ↦
            (let (p, q) = find_min_lem (suc e.l1num) hi cell right r h in
              let rest = find-delete (suc e.l1num) hi cell right v r in
              let less =
                find_below (suc cell.l1num) hi (tree_delete cell right) v
                  (delete_min_lem (suc e.l1num) hi cell right r h) in
              let found = find_min-IsBetween (suc e.l1num) hi right cell r h in
              ground (arith, below, above, on_left, on_right, h, p, q, rest, less, found))
      ]

  -- `TreeFindMin` returns an element of a tree in search order, and no element that `TreeFind` finds
  -- has a smaller number.
  pub find_min_least :
      (lo hi : ℕ) (t : SearchTree Q) (m e : TreeElement Q) (v : ℕ)
      → IsBetween lo hi t
      → tree_find_min t ≡ some m
      → tree_find v t ≡ some e
      → (tree_find m.l1num t ≡ some m) × (m.l1num ≤ v)
  find_min_least lo hi t m e v order least found =
      let here = find_min-IsBetween lo hi t m order least in
      let kept = find-delete lo hi m t v order in
      let below =
        find_below (suc m.l1num) hi (tree_delete m t) v (delete_min_lem lo hi m t order least) in
      (here, ground (arith, found, kept, below))
