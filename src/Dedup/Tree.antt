-- ===== src/Dedup/Tree.antt =====
-- The binary search tree of src/dedup/tree.cpp, in which the writer thread keeps the chunks that
-- come before their turn, one node for each first number. A position is the element at it. The
-- global `pmin` is left out: the program only ever assigns NULL to it.
pub mod Order
pub mod Lookup
use npb_sync.Prelude.{ℕ, Bool, true, false, Option, none, some, ltb, if◌then◌else◌}

pub record TreeElement {ℓ} (Q : Type ℓ) : Type ℓ where
  pub l1num : ℕ
  pub queue : Q

pub data SearchTree {ℓ} (Q : Type ℓ) : Type ℓ where
  leaf : SearchTree Q
  node : SearchTree Q → TreeElement Q → SearchTree Q → SearchTree Q

module _ {ℓ} {Q : Type ℓ} where
  abbrev pub is_leaf : SearchTree Q → Bool
  is_leaf leaf = true
  is_leaf (node left e right) = false

  unfoldable pub tree_make_empty : SearchTree Q → SearchTree Q
  tree_make_empty t = leaf

  unfoldable pub tree_find : ℕ → SearchTree Q → Option (TreeElement Q)
  tree_find value leaf = none
  tree_find value (node left e right) =
      if ltb value e.l1num
      then tree_find value left
      else if ltb e.l1num value
      then tree_find value right
      else some e

  unfoldable pub tree_find_min : SearchTree Q → Option (TreeElement Q)
  tree_find_min leaf = none
  tree_find_min (node leaf e right) = some e
  tree_find_min (node (node a b c) e right) = tree_find_min (node a b c)

  unfoldable pub tree_find_max : SearchTree Q → Option (TreeElement Q)
  tree_find_max leaf = none
  tree_find_max (node left e leaf) = some e
  tree_find_max (node left e (node a b c)) = tree_find_max (node a b c)

  -- `memory` says whether `malloc` finds room for a node; if not, an error is printed.
  unfoldable pub tree_insert : Bool → TreeElement Q → SearchTree Q → SearchTree Q
  tree_insert memory x leaf = if memory then node leaf x leaf else leaf
  tree_insert memory x (node left e right) =
      if ltb x.l1num e.l1num
      then node (tree_insert memory x left) e right
      else if ltb e.l1num x.l1num
      then node left e (tree_insert memory x right)
      else node left e right

  -- A missing element prints an error. The smallest element of a right child is never missing.
  unfoldable pub tree_delete : TreeElement Q → SearchTree Q → SearchTree Q
  tree_delete x leaf = leaf
  tree_delete x (node left e right) =
      let replaced : SearchTree Q = elim (tree_find_min right) [
        | none ↦ node left e right
        | some cell ↦ node left cell (tree_delete cell right)
      ] in
      if ltb x.l1num e.l1num
      then node (tree_delete x left) e right
      else if ltb e.l1num x.l1num
      then node left e (tree_delete x right)
      else if is_leaf left
      then right
      else if is_leaf right
      then left
      else replaced
