-- ===== src/Git/Tree.antt =====
-- `BuildTreeIndex` of internal/gitstore/gitstore.go, with the directories that it adds. The
-- output of the two git commands is given.
pub mod Walks
pub mod Closed
use gitfs.Prelude.{
  ℕ, zero, suc, Text, text_eq, Bool, true, false, ◌||◌, List, [], ◌∷◌, ◌++◌, any, map, length,
  if◌then◌else◌,
}
use gitfs.Errors.{Result, ok, err}
use gitfs.Model.{BaseNode, known}
use gitfs.Model
use gitfs.Path.{slash, dot}
use gitfs.Path.Names.{dir}
use gitfs.Git.Records.{
  TreeIndex, new_index, index_records, read_null_delimited, apply_batch_check_line,
}

-- `git ls-tree -r -t -z`, and the lines that the scanner reads of `git cat-file --batch-check`, all
-- of them or those before an error, which is logged alone.
pub record GitCommands : Type 0 where
  pub ls_tree : Text → Result Text
  pub batch_check : List Text → List Text

unfoldable pub apply_lines : List BaseNode → (Text → List ℕ) → List Text → List BaseNode
unfolding apply_batch_check_line
apply_lines nodes index [] = nodes
apply_lines nodes index (line ∷ lines) =
    apply_lines (apply_batch_check_line nodes index line) index lines

unfoldable pub batch_resolve_sizes : GitCommands → TreeIndex → List BaseNode
unfolding apply_lines
batch_resolve_sizes git t = elim t.blob_oids [
  | [] ↦ t.nodes
  | oid ∷ oids ↦ apply_lines t.nodes t.blob_index (git.batch_check (oid ∷ oids))
]

-- The keys of the map `seen`, and `nodes`.
pub record Filled : Type 0 where
  pub seen : List Text
  pub nodes : List BaseNode

abbrev pub is_seen : Text → Filled → Bool
is_seen d s = any (text_eq d) s.seen

unfoldable pub implicit_dir : Text → BaseNode
implicit_dir d = record {
  path = d;
  node_type = Model.dir;
  mode = 0o755;
  object_oid = [];
  size_state = known;
  size_bytes = 0;
}

abbrev pub with_dir : Text → Filled → Filled
with_dir d s = record { seen = d ∷ s.seen; nodes = s.nodes ++ (implicit_dir d ∷ []) }

abbrev pub stops_at : Text → Filled → Bool
stops_at d s = text_eq d dot || (text_eq d (slash ∷ []) || is_seen d s)

-- The inner loop, on fuel.
unfoldable pub fill_up : ℕ → Text → Filled → Filled
unfolding implicit_dir
fill_up zero d s = s
fill_up (suc f) d s =
    let rest = fill_up f (dir d) (with_dir d s) in if stops_at d s then s else rest

-- The outer loop, over the nodes as they were.
unfoldable pub fill_all : List BaseNode → Filled → Filled
unfolding fill_up
fill_all [] s = s
fill_all (n ∷ ns) s = fill_all ns (fill_up (suc (length (dir n.path))) (dir n.path) s)

unfoldable pub add_implicit_dirs : List BaseNode → List BaseNode
unfolding fill_all
add_implicit_dirs nodes =
    (fill_all nodes
      (record { seen = dot ∷ map (λ (n : BaseNode). n.path) nodes; nodes = nodes })).nodes

unfoldable pub build_tree_index : GitCommands → Text → Result (List BaseNode)
unfolding add_implicit_dirs batch_resolve_sizes
build_tree_index git head_oid = elim (git.ls_tree head_oid) [
  | err e ↦ err e
  | ok out ↦ ok (
      add_implicit_dirs
        (batch_resolve_sizes git (index_records new_index (read_null_delimited out))))
]
