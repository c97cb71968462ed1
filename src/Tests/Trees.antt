-- ===== src/Tests/Trees.antt =====
-- The search tree of src/dedup/tree.cpp on concrete inputs.
use npb_sync.Prelude.{ℕ, ◌≡◌, refl, true, Option, none, some, arith, ◌==◌, if◌then◌else◌}
use npb_sync.Dedup.Tree.{
  TreeElement, SearchTree, leaf, node, tree_find, tree_find_min, tree_insert, tree_delete,
}
use npb_sync.Dedup.Tree.Order.{IsBetween, nothing, around}
use npb_sync.Dedup.Tree.Lookup.{find-insert}

abbrev element : ℕ → TreeElement ℕ
element n = record { l1num = n; queue = n }

-- 4 above 2 and 6, and 5 below 6
abbrev tree : SearchTree ℕ
tree =
    node (node leaf (element 2) leaf) (element 4)
      (node (node leaf (element 5) leaf) (element 6) leaf)

tree-IsBetween : IsBetween 0 9 tree
tree-IsBetween =
    around (omega arith) (omega arith) (around (omega arith) (omega arith) nothing nothing) (
      around (omega arith) (omega arith) (around (omega arith) (omega arith) nothing nothing)
        nothing)

-- The root is replaced by the least element of its right child.
delete_root :
    tree_delete (element 4) tree
    ≡ node (node leaf (element 2) leaf) (element 5) (node leaf (element 6) leaf)
unfolding tree_delete tree_find_min
delete_root = refl

find-insert_example : tree_find 3 (tree_insert true (element 3) tree) ≡ (
    let found : Option (TreeElement ℕ) = elim (tree_find 3 tree) [
      | none ↦ some (element 3)
      | some e ↦ some e
    ] in
    if true then (if 3 == (element 3).l1num then found else tree_find 3 tree) else tree_find 3 tree)
find-insert_example = find-insert true (element 3) tree 3
