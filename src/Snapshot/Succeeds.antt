-- ===== src/Snapshot/Succeeds.antt =====
-- When `PublishGeneration` of internal/snapshot/store.go succeeds.
use gitfs.Prelude.{ℕ, Text, text_eq, true, false, none, List, [], ◌∷◌, ◌≡◌, refl, arith, All}
use gitfs.Errors.{ok, is_ok}
use gitfs.Model.{BaseNode}
use gitfs.Machine.{World, Row, transaction}
use gitfs.Snapshot.{
  next_number, next_generation, insert_node, insert_nodes, replace_rows, set_state, publish_rows,
  clean_up, publish_generation,
}
use gitfs.Snapshot.Rows.{find_row, delete_generation}
use gitfs.Snapshot.Generations.{row_of, find_row-delete_generation}

-- No two nodes have the same path.
abbrev pub Distinct : List BaseNode → Type 0
Distinct [] = Unit
Distinct (n ∷ ns) = All (λ m. text_eq n.path m.path ≡ false) ns × Distinct ns

Absent : ℕ → List Row → BaseNode → Type 0
Absent g rs n = find_row g n.path rs ≡ none

still_free :
    (g : ℕ) (n : BaseNode) (ns : List BaseNode) (rs : List Row)
    → All (λ m. text_eq n.path m.path ≡ false) ns
    → All (Absent g rs) ns
    → All (Absent g (row_of g n ∷ rs)) ns
unfolding Absent find_row
still_free g n [] rs d a = tt
still_free g n (m ∷ ns) rs d a = (ground (arith, a.0, d.0), still_free g n ns rs d.1 a.1)

insert_node-calm :
    (g : ℕ) (n : BaseNode) (w : World)
    → w.trouble ≡ []
    → Absent g w.snapshot.base_nodes n
    → insert_node g n w ≡ (
      ok tt,
      record w {
        snapshot = record (w.snapshot) { base_nodes = row_of g n ∷ w.snapshot.base_nodes };
      },
    )
unfolding insert_node Absent
insert_node-calm g n w calm a = ground arith

insert_nodes-calm :
    (g : ℕ) (ns : List BaseNode) (w : World)
    → w.trouble ≡ []
    → Distinct ns
    → All (Absent g w.snapshot.base_nodes) ns
    → (is_ok (insert_nodes g ns w).0 ≡ true) × ((insert_nodes g ns w).1.trouble ≡ [])
unfolding insert_nodes
insert_nodes-calm g [] w calm d a = (refl, calm)
insert_nodes-calm g (n ∷ ns) w calm d a = rw (insert_node-calm g n w calm a.0) (
    insert_nodes-calm g ns
      (record w {
        snapshot = record (w.snapshot) { base_nodes = row_of g n ∷ w.snapshot.base_nodes };
      })
      calm d.1 (still_free g n ns w.snapshot.base_nodes d.0 a.1))

cleared_free :
    (g : ℕ) (ns : List BaseNode) (rs : List Row) → All (Absent g (delete_generation g rs)) ns
unfolding Absent
cleared_free g [] rs = tt
cleared_free g (n ∷ ns) rs =
    (ground (arith, find_row-delete_generation g g n.path rs), cleared_free g ns rs)

cleared : ℕ → World → World
cleared g w = record w {
  snapshot = record (w.snapshot) { base_nodes = delete_generation g w.snapshot.base_nodes };
}

publish_rows-calm :
    (oid ref : Text) (ns : List BaseNode) (w : World)
    → w.trouble ≡ []
    → Distinct ns
    → ((publish_rows oid ref ns w).0 ≡ ok (next_number w.snapshot.current_generation))
      × ((publish_rows oid ref ns w).1.trouble ≡ [])
unfolding publish_rows next_generation replace_rows set_state cleared
publish_rows-calm oid ref ns w calm d =
    let g = next_number w.snapshot.current_generation in
    ground (
      arith,
      calm,
      insert_nodes-calm g ns (cleared g w) calm d (cleared_free g ns w.snapshot.base_nodes),
    )

-- Where no call of the database fails, publishing nodes with distinct paths succeeds with the
-- generation after the current one, or 1 for the first.
pub publish_generation_succeeds :
    (oid ref : Text) (ns : List BaseNode) (w : World)
    → w.trouble ≡ []
    → Distinct ns
    → (publish_generation oid ref ns w).0 ≡ ok (next_number w.snapshot.current_generation)
unfolding publish_generation transaction clean_up
publish_generation_succeeds oid ref ns w calm d =
    ground (arith, calm, publish_rows-calm oid ref ns w calm d)
