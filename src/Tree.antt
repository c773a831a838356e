-- ===== src/Tree.antt =====
-- crate-bin/src/tree.rs: the tree of an archive's items, and how it is printed. Text is the bytes of
-- its encoding.
pub mod Size
mod Tests
use baf.Base.{
  ℕ, zero, suc, Bool, true, false, List, [], ◌∷◌, ◌++◌, Option, none, some, Result, ok, err,
  if◌then◌else◌,
}
use baf.Data.Directory.{DirectoryId, DirectoryIdOrRoot, root, non_root}
use baf.Data.File.{FileId}
use baf.Archive.{Archive, ArchiveError}
use baf.Archive.Read.{get_dir, get_file, get_dir_content}
use baf.Iter.{name_leb}

mutual
  pub data TreeNode : Type 0 where
    tree_node : List ℕ → Bool → TreeNodes → TreeNode

  pub data TreeNodes : Type 0 where
    nil : TreeNodes
    cons : TreeNode → TreeNodes → TreeNodes

abbrev pub new_dir : List ℕ → TreeNodes → TreeNode
new_dir name children = tree_node name true children

abbrev pub new_file : List ℕ → TreeNode
new_file name = tree_node name false nil

-- The order of the nodes: directories first, and then by name; whether `a` may stand before `b`.
unfoldable pub node_leb : TreeNode → TreeNode → Bool
node_leb (tree_node a true xs) (tree_node b false ys) = true
node_leb (tree_node a false xs) (tree_node b true ys) = false
node_leb (tree_node a true xs) (tree_node b true ys) = name_leb a b
node_leb (tree_node a false xs) (tree_node b false ys) = name_leb a b

-- `sort_by`, which is stable.
unfoldable pub insert_node : TreeNode → TreeNodes → TreeNodes
insert_node x nil = cons x nil
insert_node x (cons y ys) =
    let rest = insert_node x ys in if node_leb x y then cons x (cons y ys) else cons y rest

unfoldable pub sort_nodes : TreeNodes → TreeNodes
sort_nodes nil = nil
sort_nodes (cons x xs) = insert_node x (sort_nodes xs)

-- `map_or((Default::default(), Default::default()), …)`
unfoldable pub content_or_empty :
    Result ArchiveError (List DirectoryId × List FileId) → List DirectoryId × List FileId
content_or_empty (ok content) = content
content_or_empty (err e) = ([], [])

-- The nodes of the files that the archive knows.
unfoldable pub file_nodes : Archive → List FileId → TreeNodes
file_nodes a [] = nil
file_nodes a (id ∷ ids) = elim (get_file id a) [
  | none ↦ file_nodes a ids
  | some f ↦ cons (new_file f.name) (file_nodes a ids)
]

-- The nodes of directories, each by `visit`, with `rest` behind them; `none` where one has none.
unfoldable pub dir_nodes :
    (DirectoryId → Option TreeNode) → List DirectoryId → TreeNodes → Option TreeNodes
dir_nodes visit [] rest = some rest
dir_nodes visit (id ∷ ids) rest = elim (visit id) [
  | none ↦ none
  | some node ↦ elim (dir_nodes visit ids rest) [
    | none ↦ none
    | some nodes ↦ some (cons node nodes)
  ]
]

unfoldable pub children :
    Archive → (DirectoryId → Option TreeNode) → DirectoryIdOrRoot → Option TreeNodes
children a visit d =
    let content = content_or_empty (get_dir_content d a) in
    elim (dir_nodes visit content.0 (file_nodes a content.1)) [
      | none ↦ none
      | some nodes ↦ some (sort_nodes nodes)
    ]

-- `"<error>"`
abbrev error_name : List ℕ
error_name = b'<' ∷ b'e' ∷ b'r' ∷ b'r' ∷ b'o' ∷ b'r' ∷ b'>' ∷ []

-- The fuel bounds the depth; `none` is where it runs out, as it does on directories that contain
-- one another, on which the source overflows its stack.
unfoldable pub build_dir_node : ℕ → Archive → DirectoryId → Option TreeNode
build_dir_node zero a id = none
build_dir_node (suc fuel) a id = elim (get_dir id a) [
  | none ↦ some (new_dir error_name nil)
  | some dir ↦ elim (children a (build_dir_node fuel a) (non_root id)) [
    | none ↦ none
    | some nodes ↦ some (new_dir dir.name nodes)
  ]
]

-- `ArchiveContentTree::build`
unfoldable pub build : ℕ → Archive → Option TreeNodes
build fuel a = children a (build_dir_node fuel a) root

-- The box-drawing characters, encoded.
abbrev connector : Bool → List ℕ
connector true = 226 ∷ 148 ∷ 148 ∷ 226 ∷ 148 ∷ 128 ∷ 226 ∷ 148 ∷ 128 ∷ 32 ∷ []
connector false = 226 ∷ 148 ∷ 156 ∷ 226 ∷ 148 ∷ 128 ∷ 226 ∷ 148 ∷ 128 ∷ 32 ∷ []

abbrev extension : Bool → List ℕ
extension true = 32 ∷ 32 ∷ 32 ∷ 32 ∷ []
extension false = 226 ∷ 148 ∷ 130 ∷ 32 ∷ 32 ∷ 32 ∷ []

abbrev suffix : Bool → List ℕ
suffix true = b'/' ∷ []
suffix false = []

-- A new line before each node but the first of the tree.
abbrev line_break : Bool → List ℕ
line_break true = []
line_break false = 10 ∷ []

unfoldable pub is_nil : TreeNodes → Bool
is_nil nil = true
is_nil (cons x xs) = false

unfoldable mutual
  pub render_node : TreeNode → List ℕ → Bool → Bool → List ℕ
  render_node (tree_node name is_dir nodes) prefix is_last is_tree_first =
      line_break is_tree_first
      ++ (prefix
          ++ (connector is_last
              ++ (name
                  ++ (suffix is_dir ++ render_nodes nodes (prefix ++ extension is_last) false))))

  -- The nodes in turn; the last of them is drawn with a corner.
  pub render_nodes : TreeNodes → List ℕ → Bool → List ℕ
  render_nodes nil prefix first = []
  render_nodes (cons x xs) prefix first =
      render_node x prefix (is_nil xs) first ++ render_nodes xs prefix false

-- `Display` of the tree.
unfoldable pub to_string : TreeNodes → List ℕ
to_string nodes = b'.' ∷ 10 ∷ render_nodes nodes [] true
