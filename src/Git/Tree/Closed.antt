-- ===== src/Git/Tree/Closed.antt =====
-- The tree index of internal/gitstore/gitstore.go has the directory of each of its paths.
use gitfs.Prelude.{
  suc, Text, text_eq, text_eq_iff, text_eq_refl, true, false, ◌||◌, List, [], ◌∷◌, any, map, length,
  ◌≡◌, inl, inr, refl, sym, ap, subst, arith, Bool-cases,
}
use gitfs.Errors.{ok}
use gitfs.Model.{BaseNode}
use gitfs.Path.{dot}
use gitfs.Path.Names.{dir}
use gitfs.Git.Records.{index_records, new_index, read_null_delimited}
use gitfs.Git.Tree.{
  GitCommands, Filled, fill_up, fill_all, add_implicit_dirs, batch_resolve_sizes, build_tree_index,
}
use gitfs.Git.Tree.Walks.{
  has_path, has_parent, all_have_parents, SeenIsThere, Settled, Pending, Added, Added-refl,
  Added-trans, fill_up-Walked,
}

Settled-head :
    (n : BaseNode) (ns : List BaseNode) (s : Filled)
    → Settled s (has_path (n ∷ ns))
    → Pending s (dir n.path) (has_path ns)
unfolding any
Settled-head n ns s h x e = elim (Bool-cases (text_eq x n.path)) [
  | inl q ↦
      (let up : text_eq (dir x) (dir n.path) ≡ true =
          subst (λ z. text_eq (dir z) (dir n.path) ≡ true) (sym ((text_eq_iff x n.path).0 q))
            (text_eq_refl (dir n.path)) in
        ground arith)
  | inr q ↦ (let a = h x e in ground arith)
]

fill_all-Settled :
    (ns : List BaseNode) (s : Filled)
    → SeenIsThere s
    → Settled s (has_path ns)
    → SeenIsThere (fill_all ns s)
      × Settled (fill_all ns s) (λ x. false)
      × Added s.nodes (fill_all ns s).nodes
unfolding fill_all any
fill_all-Settled [] s t h = (t, h, Added-refl s.nodes)
fill_all-Settled (n ∷ ns) s t h =
    let d = dir n.path in
    let s' = fill_up (suc (length d)) d s in
    let w = fill_up-Walked (suc (length d)) d s (inr (omega arith)) in
    let (there, all, added) =
      fill_all-Settled ns s' (w.there t) (w.others (has_path ns) (Settled-head n ns s h)) in
    (there, all, Added-trans s.nodes s'.nodes (fill_all ns s').nodes w.added added)

any-map_path :
    (x : Text) (ns : List BaseNode)
    → any (text_eq x) (map (λ (n : BaseNode). n.path) ns) ≡ has_path ns x
unfolding any
any-map_path x [] = refl
any-map_path x (n ∷ ns) = ap (λ b. text_eq x n.path || b) (any-map_path x ns)

all_have_parents-intro :
    (all ns : List BaseNode)
    → ((x : Text) → has_path ns x ≡ true → has_parent all x ≡ true)
    → all_have_parents all ns ≡ true
unfolding any
all_have_parents-intro all [] h = refl
all_have_parents-intro all (n ∷ ns) h =
    let a = h n.path (ground (arith, text_eq_refl n.path)) in
    let b = all_have_parents-intro all ns (λ x e. h x (ground (arith, e))) in ground arith

add_implicit_dirs-Added :
    (ns : List BaseNode)
    → Added ns (add_implicit_dirs ns)
      × (all_have_parents (add_implicit_dirs ns) (add_implicit_dirs ns) ≡ true)
unfolding add_implicit_dirs any
add_implicit_dirs-Added ns =
    let s : Filled = record { seen = dot ∷ map (λ (n : BaseNode). n.path) ns; nodes = ns } in
    let (there, all, added) =
      fill_all-Settled ns s (λ x e. let a = any-map_path x ns in ground (arith, e))
        (λ x e. ground (arith, e)) in
    (
      added,
      all_have_parents-intro (fill_all ns s).nodes (fill_all ns s).nodes
          (λ x e. let a = all x e in let b = there (dir x) in ground arith),
    )

-- The nodes that git's output gives.
abbrev pub git_nodes : GitCommands → Text → List BaseNode
git_nodes git out = batch_resolve_sizes git (index_records new_index (read_null_delimited out))

-- Where `git ls-tree` gives an output, the tree index is made of the nodes of that output, in their
-- order, with directories of mode 0o755 behind them, and the directory of each path of the index is
-- `.` or `/`, or it is a path of the index itself.
pub build_tree_index-closed :
    (git : GitCommands) (head_oid out : Text)
    → git.ls_tree head_oid ≡ ok out
    → (all : List BaseNode) × (build_tree_index git head_oid ≡ ok all)
      × Added (git_nodes git out) all
      × (all_have_parents all all ≡ true)
unfolding build_tree_index
build_tree_index-closed git head_oid out e =
    let (added, parents) = add_implicit_dirs-Added (git_nodes git out) in
    (add_implicit_dirs (git_nodes git out), ground (arith, e), added, parents)
