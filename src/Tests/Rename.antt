-- ===== src/Tests/Rename.antt =====
-- Runs of `Rename` of internal/overlay/store.go.
use gitfs.Prelude.{ℕ, ◌≡◌, ◌≢◌, refl, arith, bytes, some, none, [], ◌∷◌, true, false, Text}
use gitfs.Errors.{ok, is_ok}
use gitfs.Model.{OverlayEntry, is_deleted}
use gitfs.Path.{clean_path}
use gitfs.Overlay.Table.{select}
use gitfs.Overlay.Rows.{IsKeyed}
use gitfs.Overlay.Rename.{rename_path}
use gitfs.Overlay.Store.{backing_path}
use gitfs.Overlay.Renamed.{moved_row}
use gitfs.Overlay.Journey.{settled, rename_path-moved}
use gitfs.Overlay.Moves.{rename_path-conflict}
use gitfs.Tests.Worlds.{repo, dirty_world, busy_world, deleted_b}

clean_a_b : clean_path (bytes "a") ≢ clean_path (bytes "b")
unfolding clean_path gitfs.Path.clean gitfs.Path.join_words gitfs.Path.split gitfs.Path.push_word
    gitfs.Prelude.text_eq
clean_a_b = ground arith

rename_ok : (rename_path repo (bytes "a") (bytes "b") 9 dirty_world).0 ≡ ok tt
unfolding rename_path gitfs.Overlay.Store.get select gitfs.Prelude.text_eq clean_path
    gitfs.Path.clean gitfs.Path.join_words gitfs.Path.split gitfs.Path.push_word
    gitfs.Overlay.Rename.rename_entry gitfs.Machine.Disk.mkdir_all gitfs.Machine.Disk.find_node
    gitfs.Path.Names.dir gitfs.Path.Names.up_to_slash backing_path gitfs.Path.join
    gitfs.Overlay.Rename.plan gitfs.Machine.transaction gitfs.Machine.Disk.drop_node
    gitfs.Machine.Disk.has_below gitfs.Machine.Disk.os_rename gitfs.Machine.Disk.put_node
    gitfs.Overlay.Rename.insert gitfs.Overlay.Rename.move_backing gitfs.Overlay.Rename.rename_rows
    gitfs.Overlay.Table.delete_path gitfs.Overlay.Table.insert_row
    gitfs.Overlay.Table.upsert_whiteout gitfs.Path.Names.cut_prefix gitfs.Path.Names.has_prefix
    gitfs.Prelude.keep
rename_ok = refl

dirty_world-IsKeyed : IsKeyed dirty_world.table
unfolding select
dirty_world-IsKeyed = (refl, tt)

rename_path-moved_example :
    (e : OverlayEntry) × (select (clean_path (bytes "a")) dirty_world.table ≡ some e)
    × (is_deleted e ≡ false)
    × ((q : Text)
        → select q (rename_path repo (bytes "a") (bytes "b") 9 dirty_world).1.table
          ≡ moved_row
              (settled e (clean_path (bytes "a")))
              e
              (clean_path (bytes "a"))
              (clean_path (bytes "b"))
              (backing_path repo (clean_path (bytes "b")))
              9
              q
              dirty_world.table)
rename_path-moved_example =
    rename_path-moved repo (bytes "a") (bytes "b") 9 dirty_world dirty_world-IsKeyed clean_a_b
      rename_ok

b_is_there : select (clean_path (bytes "b")) busy_world.table ≡ some deleted_b
unfolding select gitfs.Prelude.text_eq clean_path gitfs.Path.clean gitfs.Path.join_words
    gitfs.Path.split gitfs.Path.push_word
b_is_there = refl

-- "b" was removed, and then "a" is to be renamed to it.
rename_path-conflict_example :
    (is_ok (rename_path repo (bytes "a") (bytes "b") 9 busy_world).0 ≡ false)
    × ((rename_path repo (bytes "a") (bytes "b") 9 busy_world).1.table ≡ busy_world.table)
rename_path-conflict_example =
    rename_path-conflict repo (bytes "a") (bytes "b") 9 busy_world deleted_b b_is_there clean_a_b
