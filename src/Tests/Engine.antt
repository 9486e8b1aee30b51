-- ===== src/Tests/Engine.antt =====
-- Runs of the merged view and of internal/fusefs/ops.go.
use gitfs.Prelude.{
  ℕ, ◌⊎◌, ◌≡◌, ◌≢◌, refl, arith, bytes, some, none, [], ◌∷◌, true, false, Text, length,
  if◌then◌else◌, text_eq,
}
use gitfs.Errors.{not_exist, ok, err, invalid, is_ok}
use gitfs.Model.{create, mkdir}
use gitfs.Machine.{World}
use gitfs.Path.{clean_path}
use gitfs.Overlay.Store.{new_entry, backing_path}
use gitfs.Overlay.Table.{select}
use gitfs.Resolver.{Attrs, in_overlay, resolve_path, getattr, readdir}
use gitfs.Resolver.View.{view, or_absent, Attributes, resolve_path-view, getattr-view}
use gitfs.Engine.{read, write, truncate, create_path, unlink, make_directory, rmdir, rename}
use gitfs.Engine.Shows.{shown_at, create_path-view, unlink-view, make_directory-view, rmdir-view}
use gitfs.Overlay.Created.{empty_file_at, directory_at}
use gitfs.Engine.Unlinked.{resolve_path-unlink}
use gitfs.Engine.ReadBack.{read-write, getattr-truncate}
use gitfs.Engine.Refused.{untouched_dir, base_dir_at, rename-base_dir, rename-onto_base_dir}
use gitfs.Tests.Worlds.{hydrator, repo, clean_world, dirty_world, busy_world, modified_a}

resolve_path-view_example :
    resolve_path (bytes "./a") busy_world
    ≡ (or_absent (view busy_world (clean_path (bytes "./a"))), busy_world)
resolve_path-view_example = resolve_path-view (bytes "./a") busy_world refl

getattr-view_example :
    Attributes clean_world
      (view clean_world (clean_path (bytes "d/")))
      (getattr (bytes "d/") clean_world).0
getattr-view_example = getattr-view (bytes "d/") clean_world refl

create_path-view_example :
    (view (create_path hydrator repo (bytes "n") 0o600 9 clean_world).1 (bytes "n")
      ≡ shown_at
          (create_path hydrator repo (bytes "n") 0o600 9 clean_world).0
          (clean_path (bytes "n"))
          (some (
            in_overlay (record {
              path = clean_path (bytes "n");
              kind = create;
              backing_path = backing_path repo (bytes "n");
              mode = 0o600;
              size_bytes = 0;
              mtime = 9;
              ctime = 9;
              source_oid = [];
              target_path = [];
            })))
          clean_world
          (bytes "n"))
    × ((is_ok (create_path hydrator repo (bytes "n") 0o600 9 clean_world).0 ≡ false)
        ⊎ (empty_file_at
              (backing_path repo (bytes "n"))
              (create_path hydrator repo (bytes "n") 0o600 9 clean_world).1
            ≡ true))
create_path-view_example =
    create_path-view hydrator repo (bytes "n") 0o600 9 clean_world (bytes "n")

unlink-view_example :
    view (unlink hydrator repo (bytes "a") 9 clean_world).1 (bytes "a")
    ≡ shown_at
        (unlink hydrator repo (bytes "a") 9 clean_world).0
        (clean_path (bytes "a"))
        none
        clean_world
        (bytes "a")
unlink-view_example = unlink-view hydrator repo (bytes "a") 9 clean_world (bytes "a")

make_directory-view_example :
    (view (make_directory hydrator repo (bytes "e") 0o40000 9 clean_world).1 (bytes "e")
      ≡ shown_at
          (make_directory hydrator repo (bytes "e") 0o40000 9 clean_world).0
          (clean_path (bytes "e"))
          (some (
            in_overlay (record {
              path = clean_path (bytes "e");
              kind = mkdir;
              backing_path = backing_path repo (clean_path (bytes "e"));
              mode = 0o755;
              size_bytes = 0;
              mtime = 9;
              ctime = 9;
              source_oid = [];
              target_path = [];
            })))
          clean_world
          (bytes "e"))
    × ((is_ok (make_directory hydrator repo (bytes "e") 0o40000 9 clean_world).0 ≡ false)
        ⊎ (directory_at
              (backing_path repo (clean_path (bytes "e")))
              (make_directory hydrator repo (bytes "e") 0o40000 9 clean_world).1
            ≡ true))
make_directory-view_example =
    make_directory-view hydrator repo (bytes "e") 0o40000 9 clean_world (bytes "e")

rmdir_ok : is_ok (rmdir hydrator repo (bytes "d") 9 clean_world).0 ≡ true
unfolding rmdir readdir gitfs.Resolver.readdir_typed gitfs.Snapshot.list_children
    gitfs.Overlay.Store.list_by_prefix gitfs.Resolver.merge_entries gitfs.Overlay.Table.select_like
    gitfs.Resolver.Dirents.add_base gitfs.Snapshot.Rows.children text_eq clean_path gitfs.Path.clean
    gitfs.Path.join_words gitfs.Path.split gitfs.Path.push_word gitfs.Overlay.Store.remove
    gitfs.Overlay.Store.get select gitfs.Overlay.Store.upsert_entry gitfs.Overlay.Table.delete_path
    gitfs.Overlay.Table.upsert gitfs.Prelude.keep gitfs.Prelude.insert_by gitfs.Prelude.sort_by
    gitfs.Prelude.text_le
rmdir_ok = refl

rmdir-view_example :
    ((readdir (bytes "d") clean_world).0 ≡ ok [])
    × (view (rmdir hydrator repo (bytes "d") 9 clean_world).1 (bytes "d") ≡ (
        if text_eq (clean_path (bytes "d")) (bytes "d")
        then none
        else view clean_world (bytes "d")))
rmdir-view_example = rmdir-view hydrator repo (bytes "d") 9 clean_world (bytes "d") rmdir_ok

-- Nothing has the path "n": the write makes the file.
write_ok :
    ((write hydrator repo (bytes "n") 2 (bytes "hi") 9 clean_world).0 ≡ ok tt)
    × ((write hydrator repo (bytes "n") 2 (bytes "hi") 9 clean_world).1.trouble ≡ [])
unfolding write gitfs.Engine.ensure_overlay gitfs.Overlay.Store.get select resolve_path
    gitfs.Resolver.base_node gitfs.Snapshot.get_node gitfs.Snapshot.Rows.find_row text_eq clean_path
    gitfs.Path.clean gitfs.Path.join_words gitfs.Path.split gitfs.Path.push_word
    gitfs.Overlay.Store.create_file gitfs.Machine.Disk.mkdir_all gitfs.Machine.Disk.find_node
    gitfs.Machine.Disk.write_empty gitfs.Machine.Disk.drop_node gitfs.Machine.Disk.open_create
    gitfs.Machine.Disk.put_node gitfs.Machine.Disk.stat_size gitfs.Machine.Disk.write_at
    gitfs.Machine.Disk.write_open backing_path gitfs.Overlay.Store.upsert_entry
    gitfs.Overlay.Store.write_entry gitfs.Overlay.Store.write_file gitfs.Overlay.Table.delete_path
    gitfs.Overlay.Table.upsert gitfs.Path.Names.dir gitfs.Path.Names.up_to_slash gitfs.Path.join
    gitfs.Prelude.keep
write_ok = (refl, refl)

read-write_example :
    (read hydrator repo
      (bytes "n")
      2
      (length (bytes "hi"))
      (write hydrator repo (bytes "n") 2 (bytes "hi") 9 clean_world).1).0
    ≡ ok (bytes "hi")
read-write_example =
    read-write hydrator repo (bytes "n") 2 (bytes "hi") 9 clean_world write_ok.0 write_ok.1

truncate_ok : (truncate hydrator repo (bytes "a") 1 9 dirty_world).0 ≡ ok tt
unfolding truncate gitfs.Engine.ensure_overlay gitfs.Overlay.Store.get select text_eq clean_path
    gitfs.Path.clean gitfs.Path.join_words gitfs.Path.split gitfs.Path.push_word
    gitfs.Overlay.Store.truncate gitfs.Overlay.Store.truncate_entry gitfs.Machine.Disk.os_truncate
    gitfs.Machine.Disk.find_node gitfs.Overlay.Store.upsert_entry
truncate_ok = refl

truncate_calm : (truncate hydrator repo (bytes "a") 1 9 dirty_world).1.trouble ≡ []
unfolding truncate gitfs.Engine.ensure_overlay gitfs.Overlay.Store.get select text_eq clean_path
    gitfs.Path.clean gitfs.Path.join_words gitfs.Path.split gitfs.Path.push_word
    gitfs.Overlay.Store.truncate gitfs.Overlay.Store.truncate_entry gitfs.Machine.Disk.os_truncate
    gitfs.Machine.Disk.find_node gitfs.Overlay.Store.upsert_entry
truncate_calm = refl

getattr-truncate_example :
    (a : Attrs) × ((getattr (bytes "a") (truncate hydrator repo (bytes "a") 1 9 dirty_world).1).0
      ≡ ok a)
    × (a.size ≡ 1)
    × (a.mtime ≡ 9)
getattr-truncate_example =
    getattr-truncate hydrator repo (bytes "a") 1 9 dirty_world truncate_ok truncate_calm

clean_d_e : clean_path (bytes "d") ≢ clean_path (bytes "e")
unfolding clean_path gitfs.Path.clean gitfs.Path.join_words gitfs.Path.split gitfs.Path.push_word
    gitfs.Prelude.text_eq
clean_d_e = ground arith

d_is_base_dir : base_dir_at busy_world (clean_path (bytes "d")) ≡ true
unfolding clean_path gitfs.Snapshot.Rows.find_row text_eq gitfs.Path.clean gitfs.Path.join_words
    gitfs.Path.split gitfs.Path.push_word
d_is_base_dir = refl

d_is_untouched : untouched_dir (select (clean_path (bytes "d")) busy_world.table) ≡ true
unfolding clean_path select text_eq gitfs.Path.clean gitfs.Path.join_words gitfs.Path.split
    gitfs.Path.push_word
d_is_untouched = refl

rename-base_dir_example :
    rename hydrator repo (bytes "d") (bytes "e") 9 busy_world ≡ (err invalid, busy_world)
rename-base_dir_example =
    rename-base_dir hydrator repo (bytes "d") (bytes "e") 9 busy_world refl clean_d_e d_is_base_dir
      d_is_untouched

clean_a_d : clean_path (bytes "a") ≢ clean_path (bytes "d")
unfolding clean_path gitfs.Path.clean gitfs.Path.join_words gitfs.Path.split gitfs.Path.push_word
    gitfs.Prelude.text_eq
clean_a_d = ground arith

a_is_modified : select (clean_path (bytes "a")) busy_world.table ≡ some modified_a
unfolding clean_path select text_eq gitfs.Path.clean gitfs.Path.join_words gitfs.Path.split
    gitfs.Path.push_word
a_is_modified = refl

rename-onto_base_dir_example :
    rename hydrator repo (bytes "a") (bytes "d") 9 busy_world ≡ (err invalid, busy_world)
rename-onto_base_dir_example =
    rename-onto_base_dir hydrator repo (bytes "a") (bytes "d") 9 busy_world modified_a refl
      clean_a_d d_is_base_dir a_is_modified refl

resolve_path-unlink_example :
    ((unlink hydrator repo (bytes "a") 9 busy_world).0 ≡ ok tt)
    × ((resolve_path (bytes "a") (unlink hydrator repo (bytes "a") 9 busy_world).1).0
        ≡ err not_exist)
resolve_path-unlink_example = resolve_path-unlink hydrator repo (bytes "a") 9 busy_world refl
