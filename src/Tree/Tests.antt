-- ===== src/Tree/Tests.antt =====
-- A small tree, as it is printed.
use baf.Base.{◌≡◌, refl, [], ◌∷◌}
use baf.Tree.{
  TreeNodes, nil, cons, new_dir, new_file, is_nil, node_leb, insert_node, sort_nodes, render_node,
  render_nodes, to_string,
}
use baf.Iter.{name_leb}

-- A file `b`, and a directory `z` with a file `a`.
abbrev nodes : TreeNodes
nodes = cons (new_file (98 ∷ [])) (cons (new_dir (122 ∷ []) (cons (new_file (97 ∷ [])) nil)) nil)

sorted :
    sort_nodes nodes
    ≡ cons (new_dir (122 ∷ []) (cons (new_file (97 ∷ [])) nil)) (cons (new_file (98 ∷ [])) nil)
unfolding sort_nodes insert_node node_leb name_leb
sorted = refl

printed :
    to_string (cons (new_file (98 ∷ [])) nil)
    ≡ 46 ∷ 10 ∷ 226 ∷ 148 ∷ 148 ∷ 226 ∷ 148 ∷ 128 ∷ 226 ∷ 148 ∷ 128 ∷ 32 ∷ 98 ∷ []
unfolding to_string render_nodes render_node is_nil
printed = refl
