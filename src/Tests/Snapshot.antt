-- ===== src/Tests/Snapshot.antt =====
-- Runs of internal/snapshot/store.go.
use gitfs.Prelude.{
  ◌≡◌, refl, bytes, some, none, [], ◌∷◌, false, any, text_eq, ◌&&◌, if◌then◌else◌, ◌==◌, List,
  sort_by, insert_by, text_le, keep,
}
use gitfs.Errors.{ok, is_ok}
use gitfs.Model.{BaseNode}
use gitfs.Machine.{World, transaction}
use gitfs.Path.{clean_path, clean, split, join_words, push_word}
use gitfs.Path.Names.{parent_dir, dir, up_to_slash, has_slash}
use gitfs.Snapshot.{
  next_number, publish_generation, publish_rows, next_generation, replace_rows, set_state,
  insert_nodes, insert_node, clean_up, list_children, update_sizes,
}
use gitfs.Snapshot.Rows.{find_row, delete_generation, delete_below, children}
use gitfs.Snapshot.Generations.{node_at, mapped_node}
use gitfs.Snapshot.Published.{
  publish_generation-nodes, publish_generation-previous, publish_generation-fails,
  list_children-published,
}
use gitfs.Snapshot.Succeeds.{Distinct, publish_generation_succeeds}
use gitfs.Snapshot.Sizes.{update_sizes-nodes, learn}
use gitfs.Tests.Worlds.{clean_world, two_nodes, node}
use gitfs.Model.{file}

abbrev republished : World
republished = (publish_generation (bytes "c2") (bytes "main") two_nodes clean_world).1

published_ok : (publish_generation (bytes "c2") (bytes "main") two_nodes clean_world).0 ≡ ok 2
unfolding publish_generation publish_rows next_generation replace_rows set_state insert_nodes
    insert_node clean_up transaction find_row delete_generation delete_below keep text_eq
published_ok = refl

publish_generation-nodes_example :
    (2 ≡ next_number clean_world.snapshot.current_generation)
    × (republished.snapshot.current_generation ≡ some 2)
    × (republished.snapshot.head_oid ≡ some (bytes "c2"))
    × (republished.snapshot.head_ref ≡ some (bytes "main"))
    × (find_row 2 (bytes "a") republished.snapshot.base_nodes ≡ node_at (bytes "a") two_nodes none)
publish_generation-nodes_example =
    publish_generation-nodes (bytes "c2") (bytes "main") two_nodes clean_world 2 (bytes "a")
      published_ok

publish_generation-previous_example :
    find_row 1 (bytes "a") republished.snapshot.base_nodes
    ≡ find_row 1 (bytes "a") clean_world.snapshot.base_nodes
publish_generation-previous_example =
    publish_generation-previous (bytes "c2") (bytes "main") two_nodes clean_world 2 1 (bytes "a")
      published_ok refl

-- Two nodes with one path meet the primary key.
abbrev twice : List BaseNode
twice = node (bytes "a") file (bytes "f1") ∷ (node (bytes "a") file (bytes "f2") ∷ [])

twice_fails : is_ok (publish_generation (bytes "c2") (bytes "main") twice clean_world).0 ≡ false
unfolding publish_generation publish_rows next_generation replace_rows set_state insert_nodes
    insert_node clean_up transaction find_row delete_generation delete_below keep text_eq
twice_fails = refl

publish_generation-fails_example :
    (publish_generation (bytes "c2") (bytes "main") twice clean_world).1.snapshot
    ≡ clean_world.snapshot
publish_generation-fails_example =
    publish_generation-fails (bytes "c2") (bytes "main") twice clean_world twice_fails

listed_ok : (list_children 2 (bytes ".") republished).0 ≡ ok two_nodes
unfolding publish_generation publish_rows next_generation replace_rows set_state insert_nodes
    insert_node clean_up transaction find_row delete_generation delete_below keep text_eq
    list_children children sort_by insert_by text_le clean_path clean split join_words push_word
    parent_dir dir up_to_slash has_slash
listed_ok = refl

list_children-published_example :
    any (λ n. text_eq n.path (bytes "d")) two_nodes
    ≡ any
        (λ n. text_eq (parent_dir n.path) (clean_path (bytes ".")) && text_eq n.path (bytes "d"))
        two_nodes
list_children-published_example =
    list_children-published (bytes "c2") (bytes "main") (bytes ".") two_nodes clean_world 2
      two_nodes (λ n. text_eq n.path (bytes "d")) published_ok listed_ok

update_sizes-nodes_example :
    find_row 1
      (bytes "a")
      (update_sizes 1 ((bytes "f0", 42) ∷ []) clean_world).1.snapshot.base_nodes
    ≡ (if is_ok (update_sizes 1 ((bytes "f0", 42) ∷ []) clean_world).0
        then if 1 == 1
          then mapped_node
              (learn ((bytes "f0", 42) ∷ []))
              (find_row 1 (bytes "a") clean_world.snapshot.base_nodes)
          else find_row 1 (bytes "a") clean_world.snapshot.base_nodes
        else find_row 1 (bytes "a") clean_world.snapshot.base_nodes)
update_sizes-nodes_example = update_sizes-nodes 1 1 (bytes "a") ((bytes "f0", 42) ∷ []) clean_world

two_nodes-Distinct : Distinct two_nodes
unfolding text_eq
two_nodes-Distinct = ((refl, tt), (tt, tt))

publish_generation_succeeds_example :
    (publish_generation (bytes "c2") (bytes "main") two_nodes clean_world).0
    ≡ ok (next_number clean_world.snapshot.current_generation)
publish_generation_succeeds_example =
    publish_generation_succeeds (bytes "c2") (bytes "main") two_nodes clean_world refl
      two_nodes-Distinct
