-- ===== src/Snapshot.antt =====
-- internal/snapshot/store.go: the nodes of the git tree, one generation for each commit that was
-- published. `current_generation` is kept as the number that its decimal text stands for.
pub mod Rows
pub mod Generations
pub mod Published
pub mod Sizes
pub mod Succeeds
use gitfs.Prelude.{
  ℕ, suc, ◌-◌, Text, text_eq, Bool, true, false, Option, none, some, List, [], ◌∷◌, ltb,
  if◌then◌else◌,
}
use gitfs.Errors.{fault}
use gitfs.Model.{BaseNode}
use gitfs.Machine.{
  World, Snapshot, Row, Exec, ◌>>=◌, ◌>>◌, pure, raise, gets, modify_world, attempt, ignore,
  on_error, when, transaction,
}
use gitfs.Path.{clean_path}
use gitfs.Path.Names.{parent_dir}
use Rows.{find_row, delete_generation, delete_below, children, set_sizes}

abbrev in_snapshot : (Snapshot → Snapshot) → Exec (Unit {0})
in_snapshot f = modify_world (λ w. record w { snapshot = f w.snapshot })

abbrev pub next_number : Option ℕ → ℕ
next_number none = 1
next_number (some g) = suc g

unfoldable pub next_generation : Exec ℕ
next_generation = do attempt; gets (λ w. next_number w.snapshot.current_generation)

-- INSERT INTO base_nodes, whose primary key is (generation, path).
abbrev inserted : ℕ → BaseNode → Option BaseNode → Exec (Unit {0})
inserted gen n (some old) = raise (fault 19)
inserted gen n none = in_snapshot (λ s. record s {
  base_nodes =
      (record { generation = gen; parent_path = parent_dir n.path; node = n }) ∷ s.base_nodes;
})

unfoldable pub insert_node : ℕ → BaseNode → Exec (Unit {0})
insert_node gen n = do
  attempt
  found ← gets (λ w. find_row gen n.path w.snapshot.base_nodes)
  inserted gen n found

unfoldable pub insert_nodes : ℕ → List BaseNode → Exec (Unit {0})
insert_nodes gen [] = pure tt
insert_nodes gen (n ∷ ns) = do insert_node gen n; insert_nodes gen ns

-- The rows of the generation are replaced; the second attempt prepares the statement.
unfoldable pub replace_rows : ℕ → List BaseNode → Exec (Unit {0})
replace_rows gen nodes = do
  attempt
  in_snapshot (λ s. record s { base_nodes = delete_generation gen s.base_nodes })
  attempt
  insert_nodes gen nodes

unfoldable pub set_state : ℕ → Text → Text → Exec (Unit {0})
set_state gen head_oid ref = do
  attempt
  in_snapshot (λ s. record s { current_generation = some gen })
  attempt
  in_snapshot (λ s. record s { head_oid = some head_oid })
  attempt
  in_snapshot (λ s. record s { head_ref = some ref })

-- The body of the transaction.
unfoldable pub publish_rows : Text → Text → List BaseNode → Exec ℕ
publish_rows head_oid ref nodes = do
  gen ← next_generation
  replace_rows gen nodes
  set_state gen head_oid ref
  pure gen

unfoldable pub clean_up : ℕ → Exec (Unit {0})
clean_up gen = when (ltb 2 gen) (
    ignore (do
      attempt
      in_snapshot (λ s. record s { base_nodes = delete_below (gen - 1) s.base_nodes })))

unfoldable pub publish_generation : Text → Text → List BaseNode → Exec ℕ
publish_generation head_oid ref nodes = do
  gen ← transaction (publish_rows head_oid ref nodes)
  clean_up gen
  pure gen

abbrev or_zero : Option ℕ → ℕ
or_zero none = 0
or_zero (some g) = g

unfoldable pub current_generation : Exec ℕ
current_generation = do attempt; gets (λ w. or_zero w.snapshot.current_generation)

abbrev or_empty : Option Text → Text
or_empty none = []
or_empty (some t) = t

-- An error of the two later queries is dropped, and the value is then empty.
abbrev state_text : (Snapshot → Option Text) → Exec Text
state_text f = on_error (do attempt; gets (λ w. or_empty (f w.snapshot))) (λ e. pure [])

unfoldable pub read_state : Exec (Text × Text × ℕ)
read_state = do
  gen ← current_generation
  oid ← state_text (λ s. s.head_oid)
  ref ← state_text (λ s. s.head_ref)
  pure (oid, ref, gen)

unfoldable pub update_head_ref : Text → Exec (Unit {0})
update_head_ref ref = do attempt; in_snapshot (λ s. record s { head_ref = some ref })

-- A statement that fails is answered like a node that is missing.
unfoldable pub get_node : ℕ → Text → Exec (Option BaseNode)
get_node gen path =
    on_error (do attempt; gets (λ w. find_row gen path w.snapshot.base_nodes)) (λ e. pure none)

unfoldable pub list_children : ℕ → Text → Exec (List BaseNode)
list_children gen parent = do
  attempt
  gets (λ w. children gen (clean_path parent) w.snapshot.base_nodes)

-- One UPDATE for each object of `sizes`, in an order that Go does not fix.
unfoldable pub update_all : ℕ → List (Text × ℕ) → Exec (Unit {0})
update_all gen [] = pure tt
update_all gen ((oid, size) ∷ rest) = do
  attempt
  in_snapshot (λ s. record s { base_nodes = set_sizes gen oid size s.base_nodes })
  update_all gen rest

abbrev pub update_some : ℕ → List (Text × ℕ) → Exec (Unit {0})
update_some gen [] = pure tt
update_some gen (s ∷ sizes) = transaction (do attempt; update_all gen (s ∷ sizes))

unfoldable pub update_sizes : ℕ → List (Text × ℕ) → Exec (Unit {0})
update_sizes gen sizes = update_some gen sizes

unfoldable pub update_size : ℕ → Text → ℕ → Exec (Unit {0})
unfolding update_sizes
update_size gen oid size = ignore (update_sizes gen ((oid, size) ∷ []))
