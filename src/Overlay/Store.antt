-- ===== src/Overlay/Store.antt =====
-- The methods of internal/overlay/store.go that read and write one entry. `now` is `time.Now()`.
use gitfs.Prelude.{
  ℕ, Text, bytes, text_eq, Bool, true, false, ◌&&◌, Option, none, some, List, [], ◌++◌,
  if◌then◌else◌,
}
use gitfs.Errors.{Error, not_exist, fault}
use gitfs.Model.{
  OverlayEntry, OverlayKind, BaseNode, RepoConfig, kind_eq, is_deleted, create, modify, delete,
  mkdir, normalize_git_dir_mode,
}
use gitfs.Machine.{
  Exec, ◌>>=◌, ◌>>◌, pure, raise, gets, modify_world, attempt, ignore, on_error, when,
}
use gitfs.Machine.Disk.{
  mkdir_all, write_empty, os_remove, os_rename, stat_size, chmod, os_truncate, write_at, existing,
  store_node,
}
use gitfs.Path.{dot, clean_path, join}
use gitfs.Path.Names.{dir}
use gitfs.Overlay.Table.{select, upsert, update_path, count_live, select_like}

-- One statement on the table outside a transaction.
abbrev pub execute : (List OverlayEntry → List OverlayEntry) → Exec (Unit {0})
execute f = do attempt; modify_world (λ w. record w { table = f w.table })

unfoldable pub backing_path : RepoConfig → Text → Text
backing_path repo path = join repo.upper_dir (clean_path path)

-- `Get`: a statement that fails is answered like a row that is missing.
unfoldable pub get : Text → Exec (Option OverlayEntry)
get path = on_error (do attempt; gets (λ w. select (clean_path path) w.table)) (λ e. pure none)

-- The condition `ok && !e.IsDeleted()`.
abbrev pub live : Option OverlayEntry → Option OverlayEntry
live none = none
live (some e) = if is_deleted e then none else some e

unfoldable pub upsert_entry : OverlayEntry → Exec (Unit {0})
upsert_entry e = if text_eq e.path [] then raise (fault 0) else execute (upsert e)

-- `copyFileContents`: open, truncate the destination, copy, sync, close.
unfoldable pub copy_file_contents : Text → Text → Exec (Unit {0})
copy_file_contents src dst = do
  attempt
  from ← existing src
  attempt
  to ← existing dst
  store_node (record to { content = [] })
  attempt
  store_node (record to { content = from.content })
  attempt
  attempt

abbrev is_not_exist : Error → Bool
is_not_exist not_exist = true
is_not_exist _ = false

unfoldable pub copy_cached : RepoConfig → BaseNode → Text → Exec (Unit {0})
copy_cached repo base tmp =
    if text_eq base.object_oid []
    then pure tt
    else on_error (copy_file_contents (join repo.blob_cache_dir base.object_oid) tmp)
        (λ e. if is_not_exist e then pure tt else (do ignore (os_remove tmp); raise e))

-- The rest of `EnsureCopyOnWrite` where no live entry is found.
unfoldable pub promote : RepoConfig → Text → BaseNode → ℕ → Exec OverlayEntry
promote repo path base now = do
  let backing = backing_path repo path
  mkdir_all (dir backing) 0o755
  let tmp = backing ++ bytes ".tmp"
  write_empty tmp base.mode
  copy_cached repo base tmp
  os_rename tmp backing
  size ← stat_size backing
  let e : OverlayEntry = record {
    path = clean_path path;
    kind = modify;
    backing_path = backing;
    mode = base.mode;
    size_bytes = size;
    mtime = now;
    ctime = now;
    source_oid = base.object_oid;
    target_path = [];
  }
  upsert_entry e
  pure e

unfoldable pub ensure_copy_on_write : RepoConfig → Text → BaseNode → ℕ → Exec OverlayEntry
ensure_copy_on_write repo path base now = do
  found ← get path
  elim (live found) [ some e ↦ pure e | none ↦ promote repo path base now ]

-- A row for a path that has no base version.
abbrev pub new_entry : Text → OverlayKind → Text → ℕ → ℕ → OverlayEntry
new_entry path kind backing mode now = record {
  path = path;
  kind = kind;
  backing_path = backing;
  mode = mode;
  size_bytes = 0;
  mtime = now;
  ctime = now;
  source_oid = [];
  target_path = [];
}

unfoldable pub create_file : RepoConfig → Text → ℕ → ℕ → Exec OverlayEntry
create_file repo path mode now = do
  let backing = backing_path repo path
  mkdir_all (dir backing) 0o755
  write_empty backing mode
  let e = new_entry (clean_path path) create backing mode now
  upsert_entry e
  pure e

-- The new row after the contents of a live entry changed.
abbrev pub touched : OverlayEntry → ℕ → ℕ → OverlayEntry
touched e size now = record e {
  kind = if kind_eq e.kind create then create else modify;
  size_bytes = size;
  mtime = now;
  ctime = now;
}

-- `WriteFile` and `Truncate` where the path has a live entry. WriteFile does not look at the error of
-- its `Stat` and would panic where that fails, which is an error here.
unfoldable pub write_entry : OverlayEntry → ℕ → Text → ℕ → Exec (Unit {0})
write_entry e off contents now = do
  write_at e.backing_path e.mode off contents
  size ← stat_size e.backing_path
  upsert_entry (touched e size now)

unfoldable pub truncate_entry : OverlayEntry → ℕ → ℕ → Exec (Unit {0})
truncate_entry e size now = do os_truncate e.backing_path size; upsert_entry (touched e size now)

-- `if !ok || e.IsDeleted() { return os.ErrNotExist }`, and the rest for a live entry.
abbrev pub with_live : Option OverlayEntry → (OverlayEntry → Exec (Unit {0})) → Exec (Unit {0})
with_live found f = elim (live found) [ none ↦ raise not_exist | some e ↦ f e ]

-- The number of bytes written is `length data`.
unfoldable pub write_file : Text → ℕ → Text → ℕ → Exec (Unit {0})
write_file path off contents now = do
  found ← get path
  with_live found (λ e. write_entry e off contents now)

unfoldable pub truncate : Text → ℕ → ℕ → Exec (Unit {0})
truncate path size now = do found ← get path; with_live found (λ e. truncate_entry e size now)

abbrev pub remove_backing : Option OverlayEntry → Exec (Unit {0})
remove_backing none = pure tt
remove_backing (some e) =
    if text_eq e.backing_path [] then pure tt else ignore (os_remove e.backing_path)

unfoldable pub remove : Text → ℕ → Exec (Unit {0})
remove path now = do
  found ← get (clean_path path)
  remove_backing found
  upsert_entry (new_entry (clean_path path) delete [] 0 now)

unfoldable pub make_dir : RepoConfig → Text → ℕ → ℕ → Exec (Unit {0})
make_dir repo path mode now = do
  let (mode', normalized) = normalize_git_dir_mode mode
  let backing = backing_path repo (clean_path path)
  mkdir_all backing mode'
  when normalized (chmod backing mode')
  upsert_entry (new_entry (clean_path path) mkdir backing mode' now)

-- The directory row whose mode `SetMtime` repairs, with the repaired mode.
abbrev repairable : Option OverlayEntry → Option (OverlayEntry × ℕ)
repairable none = none
repairable (some e) =
    if kind_eq e.kind mkdir && (normalize_git_dir_mode e.mode).1
    then some (e, (normalize_git_dir_mode e.mode).0)
    else none

unfoldable pub set_mtime : Text → ℕ → ℕ → Exec (Unit {0})
set_mtime path t now = do
  found ← get (clean_path path)
  elim (repairable found) [
    | some (e, mode) ↦ do
      chmod e.backing_path mode
      execute
          (update_path (clean_path path) (λ d. record d { mode = mode; mtime = t; ctime = now }))
    | none ↦ execute (update_path (clean_path path) (λ d. record d { mtime = t; ctime = now }))
  ]

unfoldable pub dirty_count : Exec ℕ
dirty_count = do attempt; gets (λ w. count_live w.table)

-- The argument of LIKE in `ListByPrefix`.
abbrev pub prefix_pattern : Text → Text
prefix_pattern p = if text_eq p dot then bytes "%" else p ++ bytes "/%"

unfoldable pub list_by_prefix : Text → Exec (List OverlayEntry)
list_by_prefix prefix = do
  attempt
  gets (λ w. select_like (prefix_pattern (clean_path prefix)) w.table)
