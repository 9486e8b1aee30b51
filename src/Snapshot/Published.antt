-- ===== src/Snapshot/Published.antt =====
-- What `PublishGeneration` of internal/snapshot/store.go leaves for the reads that follow it.
use gitfs.Prelude.{
  ℕ, suc, ◌-◌, Text, text_eq, Bool, true, false, ◌&&◌, none, some, List, [], ◌∷◌, ◌≡◌, ◌⊎◌, refl,
  arith, any, ◌==◌,
}
use gitfs.Errors.{Result, ok, is_ok}
use gitfs.Model.{BaseNode}
use gitfs.Machine.{World, Snapshot, Row, attempt, transaction, pure, ◌>>◌}
use gitfs.Machine.Transact.{transaction-snapshot, transaction-ok, attempt-snapshot, continue-fails}
use gitfs.Path.{clean_path}
use gitfs.Path.Names.{parent_dir}
use gitfs.Snapshot.{
  next_number, next_generation, insert_node, insert_nodes, replace_rows, set_state, publish_rows,
  clean_up, publish_generation, list_children,
}
use gitfs.Snapshot.Rows.{find_row, delete_generation, delete_below}
use gitfs.Snapshot.Generations.{
  find_row-delete_generation, find_row-delete_below, row_of, stack, node_at, find_row-stack,
  of_generation, any-delete_generation, any-delete_below, any-stack, any-children,
}

insert_node-snapshot :
    (g : ℕ) (n : BaseNode) (w : World)
    → is_ok (insert_node g n w).0 ≡ true
    → (insert_node g n w).1.snapshot
      ≡ record (w.snapshot) { base_nodes = row_of g n ∷ w.snapshot.base_nodes }
unfolding insert_node
insert_node-snapshot g n w h = ground (arith, attempt-snapshot w)

insert_nodes-snapshot :
    (g : ℕ) (ns : List BaseNode) (w : World)
    → is_ok (insert_nodes g ns w).0 ≡ true
    → (insert_nodes g ns w).1.snapshot
      ≡ record (w.snapshot) { base_nodes = stack g ns w.snapshot.base_nodes }
unfolding insert_nodes
insert_nodes-snapshot g [] w h = refl
insert_nodes-snapshot g (n ∷ ns) w h =
    ground (arith, insert_node-snapshot g n w, insert_nodes-snapshot g ns (insert_node g n w).1)

published : ℕ → Text → Text → List BaseNode → Snapshot → Snapshot
published g oid ref ns s = record {
  current_generation = some g;
  head_oid = some oid;
  head_ref = some ref;
  base_nodes = stack g ns (delete_generation g s.base_nodes);
}

replace_rows-snapshot :
    (g : ℕ) (ns : List BaseNode) (w : World)
    → is_ok (replace_rows g ns w).0 ≡ true
    → (replace_rows g ns w).1.snapshot
      ≡ record (w.snapshot) { base_nodes = stack g ns (delete_generation g w.snapshot.base_nodes) }
unfolding replace_rows
replace_rows-snapshot g ns w h = grind (arith, attempt-snapshot, insert_nodes-snapshot)

set_state-snapshot :
    (g : ℕ) (oid ref : Text) (w : World)
    → is_ok (set_state g oid ref w).0 ≡ true
    → (set_state g oid ref w).1.snapshot ≡ record (w.snapshot) {
      current_generation = some g;
      head_oid = some oid;
      head_ref = some ref;
    }
unfolding set_state
set_state-snapshot g oid ref w h = ground arith

next_generation-snapshot :
    (w : World)
    → ((next_generation w).1.snapshot ≡ w.snapshot)
      × (is_ok (next_generation w).0 ≡ true
          → (next_generation w).0 ≡ ok (next_number w.snapshot.current_generation))
unfolding next_generation
next_generation-snapshot w = ground arith

publish_rows-snapshot :
    (oid ref : Text) (ns : List BaseNode) (w : World) (g : ℕ)
    → (publish_rows oid ref ns w).0 ≡ ok g
    → (g ≡ next_number w.snapshot.current_generation)
      × ((publish_rows oid ref ns w).1.snapshot ≡ published g oid ref ns w.snapshot)
unfolding publish_rows published
publish_rows-snapshot oid ref ns w g h =
    let gen = next_number w.snapshot.current_generation in
    ground (
      arith,
      next_generation-snapshot w,
      replace_rows-snapshot gen ns (next_generation w).1,
      set_state-snapshot gen oid ref (replace_rows gen ns (next_generation w).1).1,
    )

clean_up_total : (g : ℕ) (w : World) → is_ok (clean_up g w).0 ≡ true
unfolding clean_up
clean_up_total g w = ground arith

-- What the cleanup may leave of the rows.
Cleaned : ℕ → World → World → Type 0
Cleaned g w v =
    (v.snapshot ≡ w.snapshot)
    ⊎ (v.snapshot ≡ record (w.snapshot) { base_nodes = delete_below (g - 1) w.snapshot.base_nodes })

clean_up-snapshot : (g : ℕ) (w : World) → Cleaned g w (clean_up g w).1
unfolding clean_up Cleaned
clean_up-snapshot g w = ground arith

publish_generation-snapshot :
    (oid ref : Text) (ns : List BaseNode) (w : World) (g : ℕ)
    → (publish_generation oid ref ns w).0 ≡ ok g
    → (g ≡ next_number w.snapshot.current_generation)
      × (((publish_generation oid ref ns w).1.snapshot ≡ published g oid ref ns w.snapshot)
          ⊎ ((publish_generation oid ref ns w).1.snapshot
              ≡ record (published g oid ref ns w.snapshot) {
                base_nodes = delete_below (g - 1) (published g oid ref ns w.snapshot).base_nodes;
              }))
unfolding publish_generation
publish_generation-snapshot oid ref ns w g h =
    let body = publish_rows oid ref ns in
    unfold Cleaned in
    ground (
      arith,
      transaction-snapshot body w,
      transaction-ok body w g,
      attempt-snapshot w,
      publish_rows-snapshot oid ref ns (attempt w).1 g,
      clean_up-snapshot g (transaction body w).1,
    )

fresh-node :
    (g : ℕ) (p : Text) (ns : List BaseNode) (rs : List Row)
    → find_row g p (stack g ns (delete_generation g rs)) ≡ node_at p ns none
fresh-node g p ns rs =
    ground
      (arith, find_row-stack g g p ns (delete_generation g rs), find_row-delete_generation g g p rs)

kept-node :
    (g k : ℕ) (p : Text) (ns : List BaseNode) (rs : List Row)
    → suc k ≡ g
    → find_row k p (stack g ns (delete_generation g rs)) ≡ find_row k p rs
kept-node g k p ns rs h =
    ground
      (arith, find_row-stack g k p ns (delete_generation g rs), find_row-delete_generation g k p rs)

-- Publishing nodes that succeeds gives the generation after the current one (1 for the first). It is
-- the current generation then, with the given commit and ref, and each path has the last of the
-- nodes that has it, or none.
pub publish_generation-nodes :
    (oid ref : Text) (ns : List BaseNode) (w : World) (g : ℕ) (p : Text)
    → (publish_generation oid ref ns w).0 ≡ ok g
    → (g ≡ next_number w.snapshot.current_generation)
      × ((publish_generation oid ref ns w).1.snapshot.current_generation ≡ some g)
      × ((publish_generation oid ref ns w).1.snapshot.head_oid ≡ some oid)
      × ((publish_generation oid ref ns w).1.snapshot.head_ref ≡ some ref)
      × (find_row g p (publish_generation oid ref ns w).1.snapshot.base_nodes ≡ node_at p ns none)
unfolding published
publish_generation-nodes oid ref ns w g p h =
    let rs = (published g oid ref ns w.snapshot).base_nodes in
    ground (
      arith,
      publish_generation-snapshot oid ref ns w g h,
      fresh-node g p ns w.snapshot.base_nodes,
      find_row-delete_below (g - 1) g p rs,
    )

-- Publishing that succeeds leaves the generation before readable: each path of it has the node that
-- it had.
pub publish_generation-previous :
    (oid ref : Text) (ns : List BaseNode) (w : World) (g k : ℕ) (p : Text)
    → (publish_generation oid ref ns w).0 ≡ ok g
    → suc k ≡ g
    → find_row k p (publish_generation oid ref ns w).1.snapshot.base_nodes
      ≡ find_row k p w.snapshot.base_nodes
unfolding published
publish_generation-previous oid ref ns w g k p h before =
    let rs = (published g oid ref ns w.snapshot).base_nodes in
    ground (
      arith,
      publish_generation-snapshot oid ref ns w g h,
      kept-node g k p ns w.snapshot.base_nodes before,
      find_row-delete_below (g - 1) k p rs,
    )

tidy : ℕ → World → Result ℕ × World
tidy g = clean_up g >> pure g

tidy_total : (g : ℕ) (w : World) → is_ok (tidy g w).0 ≡ true
unfolding tidy
tidy_total g w = ground (arith, clean_up_total g w)

-- Publishing that fails leaves the snapshot as it was.
pub publish_generation-fails :
    (oid ref : Text) (ns : List BaseNode) (w : World)
    → is_ok (publish_generation oid ref ns w).0 ≡ false
    → (publish_generation oid ref ns w).1.snapshot ≡ w.snapshot
unfolding publish_generation tidy
publish_generation-fails oid ref ns w h =
    let failed = continue-fails (transaction (publish_rows oid ref ns) w) tidy tidy_total h in
    ground (arith, failed, transaction-snapshot (publish_rows oid ref ns) w)

any-regroup :
    (g : ℕ) (parent : Text) (q : BaseNode → Bool) (rs : List Row)
    → any (λ r. (r.generation == g && text_eq r.parent_path parent) && q r.node) rs
      ≡ any (of_generation g (λ r. text_eq r.parent_path parent && q r.node)) rs
unfolding any
any-regroup g parent q [] = refl
any-regroup g parent q (r ∷ rs) = ground (arith, any-regroup g parent q rs)

-- After a generation was published, listing a directory of it gives exactly the published nodes
-- whose parent is that directory, where the listing succeeds.
pub list_children-published :
    (oid ref parent : Text) (ns : List BaseNode) (w : World) (g : ℕ) (found : List BaseNode)
    (q : BaseNode → Bool)
    → (publish_generation oid ref ns w).0 ≡ ok g
    → (list_children g parent (publish_generation oid ref ns w).1).0 ≡ ok found
    → any q found ≡ any (λ n. text_eq (parent_dir n.path) (clean_path parent) && q n) ns
unfolding list_children published
list_children-published oid ref parent ns w g found q h l =
    let after = (publish_generation oid ref ns w).1 in
    let there = λ (r : Row). text_eq r.parent_path (clean_path parent) && q r.node in
    let rs = (published g oid ref ns w.snapshot).base_nodes in
    ground (
      arith,
      publish_generation-snapshot oid ref ns w g h,
      attempt-snapshot after,
      any-children g (clean_path parent) q after.snapshot.base_nodes,
      any-regroup g (clean_path parent) q after.snapshot.base_nodes,
      any-delete_below (g - 1) g there rs,
      any-stack g there ns (delete_generation g w.snapshot.base_nodes),
      any-delete_generation g there w.snapshot.base_nodes,
    )
