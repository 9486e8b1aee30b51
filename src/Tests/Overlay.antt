-- ===== src/Tests/Overlay.antt =====
-- Runs of the contents and the pruning of internal/overlay/store.go.
use gitfs.Prelude.{◌≡◌, refl, bytes, some, none, [], ◌∷◌, text_eq, any, not, if◌then◌else◌}
use gitfs.Errors.{ok, is_ok}
use gitfs.Model.{OverlayEntry, file}
use gitfs.Machine.Disk.{
  after_write, resize, write_at, open_create, write_open, find_node, put_node, stat_size,
  os_truncate,
}
use gitfs.Path.{clean_path}
use gitfs.Overlay.Table.{select, same_version}
use gitfs.Overlay.Rows.{passing, IsKeyed}
use gitfs.Overlay.Contents.{Rewritten, write_file-Rewritten, truncate-Rewritten}
use gitfs.Overlay.Store.{write_file, truncate, get, write_entry, truncate_entry, upsert_entry}
use gitfs.Overlay.Reconcile.{Base, prune, reconcile}
use gitfs.Overlay.Pruned.{prune-rows}
use gitfs.Overlay.Survivors.{survives, reconcile-rows}
use gitfs.Tests.Worlds.{dirty_world, busy_world, modified_a, deleted_b, node}

write_ok : (write_file (bytes "a") 1 (bytes "ey") 9 dirty_world).0 ≡ ok tt
unfolding write_file get select text_eq clean_path gitfs.Path.clean gitfs.Path.join_words
    gitfs.Path.split gitfs.Path.push_word write_entry write_at open_create find_node write_open
    stat_size put_node upsert_entry
write_ok = refl

write_file-Rewritten_example :
    Rewritten
      (bytes "a")
      9
      dirty_world
      (write_file (bytes "a") 1 (bytes "ey") 9 dirty_world).1
      (λ old. after_write old 1 (bytes "ey"))
write_file-Rewritten_example =
    write_file-Rewritten (bytes "a") 1 (bytes "ey") 9 dirty_world write_ok

truncate_ok : (truncate (bytes "a") 5 9 dirty_world).0 ≡ ok tt
unfolding truncate get select text_eq clean_path gitfs.Path.clean gitfs.Path.join_words
    gitfs.Path.split gitfs.Path.push_word truncate_entry os_truncate find_node upsert_entry
truncate_ok = refl

truncate-Rewritten_example :
    Rewritten (bytes "a") 9 dirty_world (truncate (bytes "a") 5 9 dirty_world).1 (resize 5)
truncate-Rewritten_example = truncate-Rewritten (bytes "a") 5 9 dirty_world truncate_ok

busy_world-IsKeyed : IsKeyed busy_world.table
unfolding select text_eq
busy_world-IsKeyed = (refl, (refl, tt))

-- The entry was rewritten between the query and the transaction.
abbrev read_before : OverlayEntry
read_before = record modified_a { mtime = 0 }

prune-rows_example :
    select (bytes "a") (prune (read_before ∷ (deleted_b ∷ [])) busy_world).1.table ≡ (
      if is_ok (prune (read_before ∷ (deleted_b ∷ [])) busy_world).0
      then passing
          (λ d. not (any (same_version d) (read_before ∷ (deleted_b ∷ []))))
          (select (bytes "a") busy_world.table)
      else select (bytes "a") busy_world.table)
prune-rows_example =
    prune-rows (read_before ∷ (deleted_b ∷ [])) busy_world (bytes "a") busy_world-IsKeyed

-- A new snapshot in which "a" has another object, and "b" is not there.
abbrev changed : Base
changed p = if text_eq p (bytes "a") then some (node (bytes "a") file (bytes "f9")) else none

reconcile-rows_example : select (bytes "a") (reconcile (some changed) busy_world).1.table ≡ (
    if is_ok (reconcile (some changed) busy_world).0
    then passing (λ d. survives changed busy_world.table d) (select (bytes "a") busy_world.table)
    else select (bytes "a") busy_world.table)
reconcile-rows_example = reconcile-rows changed busy_world (bytes "a") busy_world-IsKeyed
