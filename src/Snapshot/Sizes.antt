-- ===== src/Snapshot/Sizes.antt =====
-- What `UpdateSizes` of internal/snapshot/store.go does to the nodes.
use gitfs.Prelude.{
  ℕ, Text, true, Option, none, some, List, [], ◌∷◌, ◌≡◌, refl, arith, if◌then◌else◌, ◌==◌,
}
use gitfs.Errors.{is_ok}
use gitfs.Model.{BaseNode}
use gitfs.Machine.{World, attempt, ◌>>◌}
use gitfs.Machine.Transact.{transaction-snapshot, transaction-fails, attempt-snapshot}
use gitfs.Snapshot.{update_all, update_sizes}
use gitfs.Snapshot.Rows.{find_row, set_sizes}
use gitfs.Snapshot.Generations.{with_size, mapped_node, find_row-set_sizes}

-- What the sizes that were found, in their order, make of a node.
abbrev pub learn : List (Text × ℕ) → BaseNode → BaseNode
learn [] n = n
learn ((oid, size) ∷ rest) n = learn rest (with_size oid size n)

sized_by : ℕ → Text → ℕ → World → World
sized_by gen oid size w = record w {
  snapshot = record (w.snapshot) { base_nodes = set_sizes gen oid size w.snapshot.base_nodes };
}

mapped-mapped :
    (f g : BaseNode → BaseNode) (o : Option BaseNode)
    → mapped_node f (mapped_node g o) ≡ mapped_node (λ n. f (g n)) o
mapped-mapped f g none = refl
mapped-mapped f g (some n) = refl

update_all-nodes :
    (gen k : ℕ) (p : Text) (sizes : List (Text × ℕ)) (w : World)
    → is_ok (update_all gen sizes w).0 ≡ true
    → find_row k p (update_all gen sizes w).1.snapshot.base_nodes ≡ (
        if k == gen
        then mapped_node (learn sizes) (find_row k p w.snapshot.base_nodes)
        else find_row k p w.snapshot.base_nodes)
unfolding update_all sized_by
update_all-nodes gen k p [] w h = ground arith
update_all-nodes gen k p ((oid, size) ∷ rest) w h = ground (
  arith,
  attempt-snapshot w,
  update_all-nodes gen k p rest (sized_by gen oid size (attempt w).1),
  find_row-set_sizes gen k oid p size (attempt w).1.snapshot.base_nodes,
  mapped-mapped (learn rest) (with_size oid size) (find_row k p w.snapshot.base_nodes),
)

-- Recording sizes that succeeds gives every node of the generation the size that was found for its
-- object and marks it known, and touches no other node; where it fails, no node is touched.
pub update_sizes-nodes :
    (gen k : ℕ) (p : Text) (sizes : List (Text × ℕ)) (w : World)
    → find_row k p (update_sizes gen sizes w).1.snapshot.base_nodes ≡ (
        if is_ok (update_sizes gen sizes w).0
        then if k == gen
          then mapped_node (learn sizes) (find_row k p w.snapshot.base_nodes)
          else find_row k p w.snapshot.base_nodes
        else find_row k p w.snapshot.base_nodes)
unfolding update_sizes
update_sizes-nodes gen k p [] w = ground arith
update_sizes-nodes gen k p (s ∷ sizes) w =
    let body = attempt >> update_all gen (s ∷ sizes) in
    ground (
      arith,
      transaction-snapshot body w,
      transaction-fails body w,
      attempt-snapshot w,
      attempt-snapshot (attempt w).1,
      update_all-nodes gen k p (s ∷ sizes) (attempt (attempt w).1).1,
    )
