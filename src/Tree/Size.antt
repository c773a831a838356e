-- ===== src/Tree/Size.antt =====
-- The number of nodes of a tree that is sorted.
use baf.Base.{ℕ, suc, ◌+◌, ◌≡◌, refl, ap, ◌∙◌, inl, inr, arith, Bool-cases}
use baf.Tree.{TreeNode, TreeNodes, tree_node, nil, cons, node_leb, insert_node, sort_nodes}

unfoldable mutual
  -- The number of nodes.
  pub size_node : TreeNode → ℕ
  size_node (tree_node name is_dir nodes) = suc (size nodes)

  pub size : TreeNodes → ℕ
  size nil = 0
  size (cons x xs) = size_node x + size xs

size-insert_node : (x : TreeNode) (ys : TreeNodes) → size (insert_node x ys) ≡ size_node x + size ys
unfolding size insert_node
size-insert_node x nil = refl
size-insert_node x (cons y ys) = elim (Bool-cases (node_leb x y)) [
  | inl first ↦ rw first refl
  | inr later ↦ rw later (omega (arith, size-insert_node x ys))
]

pub size-sort_nodes : (xs : TreeNodes) → size (sort_nodes xs) ≡ size xs
unfolding size sort_nodes
size-sort_nodes nil = refl
size-sort_nodes (cons x xs) =
    size-insert_node x (sort_nodes xs) ∙ ap (λ n. size_node x + n) (size-sort_nodes xs)
