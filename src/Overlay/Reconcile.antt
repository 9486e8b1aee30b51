-- ===== src/Overlay/Reconcile.antt =====
-- `Reconcile` of internal/overlay/store.go: entries that are stale against a new snapshot are
-- pruned.
use gitfs.Prelude.{
  Text, text_eq, Bool, true, false, not, ◌&&◌, ◌||◌, Option, none, some, List, [], ◌∷◌, ◌++◌,
  reverse, any, keep, sort_by, if◌then◌else◌, is_some,
}
use gitfs.Model.{OverlayEntry, OverlayKind, BaseNode, kind_eq, type_eq, rename, dir}
use gitfs.Machine.{Exec, ◌>>=◌, ◌>>◌, pure, gets, modify_world, attempt, ignore, transaction}
use gitfs.Machine.Disk.{os_remove}
use gitfs.Overlay.Table.{same_version, delete_version}

-- What `baseLookup` answers.
abbrev pub Base : Type 0
Base = Text → Option BaseNode

abbrev pub oid_differs : OverlayEntry → Option BaseNode → Bool
oid_differs e none = true
oid_differs e (some n) = not (text_eq e.source_oid n.object_oid)

-- `sourcePath` of a renamed entry.
abbrev pub source_path : OverlayEntry → Text
source_path e = if text_eq e.target_path [] then e.path else e.target_path

-- The condition of the first loop.
unfoldable pub is_stale_change : Base → OverlayEntry → Bool
is_stale_change base e = elim e.kind [
  | OverlayKind.modify ↦ oid_differs e (base e.path)
  | OverlayKind.rename ↦ oid_differs e (base (source_path e))
  | _ ↦ false
]

-- The keys of `staleRenameSources`.
unfoldable pub is_stale_source : Base → List OverlayEntry → Text → Bool
unfolding is_stale_change any
is_stale_source base all p =
    any (λ e. kind_eq e.kind rename && (is_stale_change base e && text_eq (source_path e) p)) all

abbrev pub is_dir : Option BaseNode → Bool
is_dir none = false
is_dir (some n) = type_eq n.node_type dir

-- The condition of the second loop; `all` are the entries that were read.
unfoldable pub is_stale_other : Base → List OverlayEntry → OverlayEntry → Bool
is_stale_other base all e = elim e.kind [
  | OverlayKind.delete ↦
      is_stale_source base all e.path
      || (is_stale_source base all e.target_path || not (is_some (base e.path)))
  | OverlayKind.create ↦ is_some (base e.path)
  | OverlayKind.mkdir ↦ is_dir (base e.path)
  | _ ↦ false
]

-- `toRemove`, in its order.
unfoldable pub to_remove : Base → List OverlayEntry → List OverlayEntry
unfolding keep is_stale_change is_stale_other
to_remove base entries =
    keep (is_stale_change base) entries ++ keep (is_stale_other base entries) entries

-- The deletes of the transaction, and the entries for which one deleted a row.
unfoldable pub delete_versions : List OverlayEntry → Exec (List OverlayEntry)
unfolding any
delete_versions [] = pure []
delete_versions (e ∷ es) = do
  attempt
  hit ← gets (λ w. any (λ d. same_version d e) w.table)
  modify_world (λ w. record w { table = delete_version e w.table })
  rest ← delete_versions es
  pure (if hit then e ∷ rest else rest)

unfoldable pub remove_backings : List OverlayEntry → Exec (Unit {0})
remove_backings [] = pure tt
remove_backings (e ∷ es) = do
  if text_eq e.backing_path [] then pure tt else ignore (os_remove e.backing_path)
  remove_backings es

-- The part from `BeginTx` on, which other writers may precede.
unfoldable pub prune : List OverlayEntry → Exec (Unit {0})
prune stale = do
  deleted ← transaction (do attempt; delete_versions stale)
  remove_backings (reverse deleted)

unfoldable pub query_entries : Exec (List OverlayEntry)
query_entries = do attempt; gets (λ w. sort_by (λ e. e.path) w.table)

abbrev pub prune_some : List OverlayEntry → Exec (Unit {0})
prune_some [] = pure tt
prune_some (e ∷ es) = prune (e ∷ es)

unfoldable pub reconcile : Option Base → Exec (Unit {0})
reconcile none = pure tt
reconcile (some base) = do entries ← query_entries; prune_some (to_remove base entries)
