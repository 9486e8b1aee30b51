-- ===== src/Overlay/Rename.antt =====
-- `Rename` and `RenameAndMarkModifiedFromBase` of internal/overlay/store.go.
use gitfs.Prelude.{
  ℕ, Text, text_eq, Bool, true, false, Option, none, some, List, [], ◌∷◌, ◌++◌, if◌then◌else◌,
}
use gitfs.Errors.{invalid}
use gitfs.Model.{
  OverlayEntry, OverlayKind, RepoConfig, kind_eq, create, modify, delete, rename, mkdir,
  normalize_git_dir_mode,
}
use gitfs.Machine.{
  Exec, ◌>>=◌, ◌>>◌, pure, raise, gets, modify_world, attempt, ignore, on_error, when, transaction,
}
use gitfs.Machine.Disk.{mkdir_all, os_rename, chmod}
use gitfs.Path.{slash, clean_path}
use gitfs.Path.Names.{dir}
use gitfs.Overlay.Table.{
  constraint, delete_path, upsert, insert_row, upsert_whiteout, select_whiteouts, delete_whiteouts,
  has_live_below, update_path,
}
use gitfs.Overlay.Store.{execute, backing_path, get, with_live, new_entry}

-- What the `switch` on the entry's kind decides.
pub record Plan : Type 0 where
  pub kind : OverlayKind
  pub target : Text
  pub whiteout : Bool
  pub mode : ℕ
  pub normalized : Bool
  pub whiteouts_below : List OverlayEntry

unfoldable pub has_overlay_descendants : Text → Exec Bool
has_overlay_descendants path = do attempt; gets (λ w. has_live_below (path ++ (slash ∷ [])) w.table)

unfoldable pub deleted_descendants : Text → Exec (List OverlayEntry)
deleted_descendants path = do
  attempt
  gets (λ w. select_whiteouts (clean_path path ++ (slash ∷ [])) w.table)

abbrev moved_target : OverlayEntry → Text → Text
moved_target e old =
    if kind_eq e.kind rename then (if text_eq e.target_path [] then old else e.target_path) else old

abbrev same_kind : OverlayEntry → OverlayKind → Plan
same_kind e kind = record {
  kind = kind;
  target = [];
  whiteout = false;
  mode = e.mode;
  normalized = false;
  whiteouts_below = [];
}

unfoldable pub plan_dir : OverlayEntry → Text → Exec Plan
plan_dir e old = do
  busy ← has_overlay_descendants old
  if busy then raise invalid else do
    below ← deleted_descendants old
    let (mode, normalized) = normalize_git_dir_mode e.mode
    pure (record (same_kind e mkdir) {
      mode = mode;
      normalized = normalized;
      whiteouts_below = below;
    })

unfoldable pub plan : OverlayEntry → Text → Exec Plan
plan e old = elim e.kind [
  | OverlayKind.create ↦ pure (same_kind e create)
  | OverlayKind.symlink ↦ pure (same_kind e OverlayKind.symlink)
  | OverlayKind.mkdir ↦ plan_dir e old
  | _ ↦ pure (record (same_kind e rename) { target = moved_target e old; whiteout = true })
]

abbrev inserted : Option (List OverlayEntry) → Exec (Unit {0})
inserted none = raise constraint
inserted (some t) = modify_world (λ w. record w { table = t })

unfoldable pub insert : OverlayEntry → Exec (Unit {0})
insert e = do attempt; t ← gets (λ w. insert_row e w.table); inserted t

-- The row at the new path.
abbrev pub renamed_entry : OverlayEntry → Plan → Text → Text → ℕ → OverlayEntry
renamed_entry e p new backing now = record e {
  path = new;
  kind = p.kind;
  backing_path = backing;
  mode = p.mode;
  ctime = now;
  target_path = p.target;
}

abbrev pub source_whiteout : Text → Text → ℕ → OverlayEntry
source_whiteout old target now = record (new_entry old delete [] 0 now) { target_path = target }

-- The body of the transaction.
unfoldable pub rename_rows : OverlayEntry → Plan → Text → Text → Text → ℕ → Exec (Unit {0})
rename_rows e p old new backing now = do
  execute (delete_path old)
  insert (renamed_entry e p new backing now)
  when (kind_eq e.kind mkdir) (execute (delete_whiteouts (old ++ (slash ∷ []))))
  when p.whiteout (execute (upsert_whiteout (source_whiteout old p.target now)))

unfoldable pub restore_rows : List OverlayEntry → Exec (Unit {0})
restore_rows [] = pure tt
restore_rows (d ∷ ds) = do ignore (execute (upsert d)); restore_rows ds

unfoldable pub restore_db : OverlayEntry → Plan → Text → Text → Exec (Unit {0})
restore_db e p old new = do
  ignore (execute (delete_path new))
  ignore (execute (upsert (record e { path = old })))
  restore_rows p.whiteouts_below

-- What follows the commit: the backing file moves too, or the rows are put back.
unfoldable pub move_backing : OverlayEntry → Plan → Text → Text → Text → Exec (Unit {0})
move_backing e p old new backing = if text_eq e.backing_path [] then pure tt else do
  on_error (os_rename e.backing_path backing) (λ x. do restore_db e p old new; raise x)
  when p.normalized (
      on_error (chmod backing p.mode)
        (λ x. do restore_db e p old new; ignore (os_rename backing e.backing_path); raise x))

unfoldable pub rename_entry : RepoConfig → OverlayEntry → Text → Text → ℕ → Exec (Unit {0})
rename_entry repo e old new now = do
  let backing = backing_path repo new
  mkdir_all (dir backing) 0o755
  p ← plan e old
  transaction (rename_rows e p old new backing now)
  move_backing e p old new backing

unfoldable pub rename_path : RepoConfig → Text → Text → ℕ → Exec (Unit {0})
rename_path repo old_path new_path now = do
  let old = clean_path old_path
  let new = clean_path new_path
  found ← get old
  with_live found (λ e. if text_eq old new then pure tt else rename_entry repo e old new now)

-- The row that a path gets when it replaces a file of the base.
abbrev pub modified_entry : OverlayEntry → Text → Text → Text → ℕ → OverlayEntry
modified_entry e new backing oid now = record e {
  path = new;
  kind = modify;
  backing_path = backing;
  ctime = now;
  source_oid = oid;
  target_path = [];
}

unfoldable pub mark_modified : RepoConfig → OverlayEntry → Text → Text → Text → ℕ → Exec (Unit {0})
mark_modified repo e old new oid now = do
  let backing = backing_path repo new
  mkdir_all (dir backing) 0o755
  transaction (do execute (delete_path old); insert (modified_entry e new backing oid now))
  if text_eq e.backing_path []
      then pure tt
      else on_error (os_rename e.backing_path backing) (λ x. do
        ignore (execute (delete_path new))
        ignore (execute (upsert (record e { path = old })))
        raise x)

unfoldable pub rename_and_mark_modified_from_base :
    RepoConfig → Text → Text → Text → ℕ → Exec (Unit {0})
rename_and_mark_modified_from_base repo old_path new_path oid now = do
  let old = clean_path old_path
  let new = clean_path new_path
  found ← get old
  with_live found (λ e.
      if text_eq old new
      then execute
          (update_path old (λ d. record d { kind = modify; source_oid = oid; target_path = [] }))
      else mark_modified repo e old new oid now)
