-- ===== src/Dedup/Tree/Order.antt =====
-- The search order of the tree of src/dedup/tree.cpp: `TreeInsert` and `TreeDelete` keep it, and
-- `TreeFindMin` finds the least number.
use npb_sync.Prelude.{ℕ, suc, ◌≤◌, ◌<◌, ◌≡◌, Bool, true, false, some, arith, Option-cases, inl, inr}
use npb_sync.Dedup.Tree.{
  TreeElement, SearchTree, leaf, node, tree_find_min, tree_insert, tree_delete,
}

module _ {Q : Type 0} where
  -- All numbers are at least `lo` and below `hi`, and the tree is in search order.
  pub data IsBetween : ℕ → ℕ → SearchTree Q → Type 0 where
    nothing : {lo hi : ℕ} → IsBetween lo hi leaf
    around :
        {lo hi : ℕ} {left right : SearchTree Q} {e : TreeElement Q}
        → lo ≤ e.l1num
        → e.l1num < hi
        → IsBetween lo e.l1num left
        → IsBetween (suc e.l1num) hi right
        → IsBetween lo hi (node left e right)

  pub widen :
      (lo lo' hi hi' : ℕ) (t : SearchTree Q)
      → lo' ≤ lo
      → hi ≤ hi'
      → IsBetween lo hi t
      → IsBetween lo' hi' t
  widen lo lo' hi hi' leaf p q nothing = nothing
  widen lo lo' hi hi' (node left e right) p q (around a b l r) =
      around (omega arith) (omega arith) (widen lo lo' e.l1num e.l1num left p (omega arith) l)
        (widen (suc e.l1num) (suc e.l1num) hi hi' right (omega arith) q r)

  -- `TreeInsert` of a number within the bounds of a tree in search order keeps the order and the
  -- bounds, with or without memory for a node.
  pub insert-IsBetween :
      (memory : Bool) (lo hi : ℕ) (x : TreeElement Q) (t : SearchTree Q)
      → lo ≤ x.l1num
      → x.l1num < hi
      → IsBetween lo hi t
      → IsBetween lo hi (tree_insert memory x t)
  unfolding tree_insert
  insert-IsBetween true lo hi x leaf p q nothing = around p q nothing nothing
  insert-IsBetween false lo hi x leaf p q nothing = nothing
  insert-IsBetween memory lo hi x (node left e right) p q (around a b l r) =
      let on_left : x.l1num < e.l1num → IsBetween lo hi (node (tree_insert memory x left) e right) =
        λ h. around a b (insert-IsBetween memory lo e.l1num x left p h l) r in
      let on_right : e.l1num < x.l1num
          → IsBetween lo hi (node left e (tree_insert memory x right)) =
        λ h. around a b l (insert-IsBetween memory (suc e.l1num) hi x right h q r) in
      let same : IsBetween lo hi (node left e right) = around a b l r in
      ground (arith, on_left, on_right, same)

  pub find_min_lem :
      (lo hi : ℕ) (m : TreeElement Q) (t : SearchTree Q)
      → IsBetween lo hi t
      → tree_find_min t ≡ some m
      → (lo ≤ m.l1num) × (m.l1num < hi)
  unfolding tree_find_min
  find_min_lem lo hi m leaf nothing h = ground arith
  find_min_lem lo hi m (node leaf e right) (around a b l r) h = ground arith
  find_min_lem lo hi m (node (node x y z) e right) (around a b l r) h =
      let (p, q) = find_min_lem lo e.l1num m (node x y z) l h in (p, omega (arith, q, b))

  -- Deleting the least element leaves larger numbers only.
  pub delete_min_lem :
      (lo hi : ℕ) (m : TreeElement Q) (t : SearchTree Q)
      → IsBetween lo hi t
      → tree_find_min t ≡ some m
      → IsBetween (suc m.l1num) hi (tree_delete m t)
  unfolding tree_find_min tree_delete
  delete_min_lem lo hi m leaf nothing h = nothing
  delete_min_lem lo hi m (node leaf e right) (around a b l r) h =
      let same : IsBetween (suc e.l1num) hi right = r in ground (arith, same)
  delete_min_lem lo hi m (node (node x y z) e right) (around a b l r) h =
      let (p, q) = find_min_lem lo e.l1num m (node x y z) l h in
      let kept : IsBetween (suc m.l1num) hi (node (tree_delete m (node x y z)) e right) =
        around q b (delete_min_lem lo e.l1num m (node x y z) l h) r in
      ground (arith, kept)

  -- `TreeDelete` of any element keeps the search order and the bounds of a tree that is in order.
  pub delete-IsBetween :
      (lo hi : ℕ) (x : TreeElement Q) (t : SearchTree Q)
      → IsBetween lo hi t
      → IsBetween lo hi (tree_delete x t)
  unfolding tree_delete
  delete-IsBetween lo hi x leaf nothing = nothing
  delete-IsBetween lo hi x (node left e right) (around a b l r) =
      let on_left : IsBetween lo hi (node (tree_delete x left) e right) =
        around a b (delete-IsBetween lo e.l1num x left l) r in
      let on_right : IsBetween lo hi (node left e (tree_delete x right)) =
        around a b l (delete-IsBetween (suc e.l1num) hi x right r) in
      let all : IsBetween lo hi (node left e right) = around a b l r in
      let only_left : IsBetween lo hi left =
        widen lo lo e.l1num hi left (omega arith) (omega (arith, b)) l in
      let only_right : IsBetween lo hi right =
        widen (suc e.l1num) lo hi hi right (omega (arith, a)) (omega arith) r in
      let replaced : (cell : TreeElement Q)
          → tree_find_min right ≡ some cell
          → IsBetween lo hi (node left cell (tree_delete cell right)) =
        λ cell h.
          (let (p, q) = find_min_lem (suc e.l1num) hi cell right r h in
            around (omega (arith, a, p)) q
              (widen lo lo e.l1num cell.l1num left (omega arith) (omega (arith, p)) l)
              (delete_min_lem (suc e.l1num) hi cell right r h)) in
      elim (Option-cases (tree_find_min right)) [
        | inl h ↦ ground (arith, on_left, on_right, all, only_left, only_right, h)
        | inr (cell, h) ↦
            (let kept = replaced cell h in
              ground (arith, on_left, on_right, only_left, only_right, h, kept))
      ]
