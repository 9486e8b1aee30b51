-- ===== src/Overlay/Survivors.antt =====
-- What `Reconcile` of internal/overlay/store.go keeps, by the rules in its comment.
use gitfs.Prelude.{
  Text, text_eq, Option, is_some, fun_ext, Bool, true, false, not, ◌&&◌, ◌||◌, none, some, List, [],
  ◌∷◌, ◌≡◌, refl, ap, arith, any, if◌then◌else◌,
}
use gitfs.Prelude.Any.{any-sort_by}
use gitfs.Errors.{is_ok}
use gitfs.Model.{OverlayEntry, OverlayKind, NodeType, BaseNode, rename, kind_eq}
use gitfs.Machine.{World, attempt}
use gitfs.Machine.Transact.{attempt-table}
use gitfs.Overlay.Table.{select}
use gitfs.Overlay.Rows.{IsKeyed, passing}
use gitfs.Overlay.Reconcile.{
  Base, oid_differs, source_path, is_dir, is_stale_source, is_stale_change, is_stale_other,
  to_remove, query_entries, reconcile,
}
use gitfs.Overlay.Pruned.{in_order, is_stale, not-stale, prune_some-rows}

-- Whether the snapshot still has the object that a row was made of.
abbrev pub same_object : Text → Option BaseNode → Bool
same_object oid none = false
same_object oid (some n) = text_eq oid n.object_oid

abbrev pub came_from : Text → Text → Text
came_from path [] = path
came_from path (b ∷ t) = b ∷ t

-- Whether a row that was renamed from the path `p` has lost the object that it was made of.
abbrev pub lost_rename : Base → Text → OverlayEntry → Bool
lost_rename base p e = elim e.kind [
  | OverlayKind.rename ↦
      not (same_object e.source_oid (base (came_from e.path e.target_path)))
      && text_eq (came_from e.path e.target_path) p
  | _ ↦ false
]

abbrev pub lost_from : Base → List OverlayEntry → Text → Bool
lost_from base t p = any (lost_rename base p) t

abbrev pub dir_there : Option BaseNode → Bool
dir_there none = false
dir_there (some n) = elim n.node_type [ NodeType.dir ↦ true | _ ↦ false ]

-- The rules by which a row of the table `t` is kept.
abbrev pub survives : Base → List OverlayEntry → OverlayEntry → Bool
survives base t e = elim e.kind [
  | OverlayKind.modify ↦ same_object e.source_oid (base e.path)
  | OverlayKind.rename ↦ same_object e.source_oid (base (came_from e.path e.target_path))
  | OverlayKind.create ↦ not (is_some (base e.path))
  | OverlayKind.mkdir ↦ not (dir_there (base e.path))
  | OverlayKind.delete ↦
      is_some (base e.path) && not (lost_from base t e.path || lost_from base t e.target_path)
  | OverlayKind.symlink ↦ true
]

oid_differs-same_object :
    (e : OverlayEntry) (o : Option BaseNode) → oid_differs e o ≡ not (same_object e.source_oid o)
oid_differs-same_object e none = refl
oid_differs-same_object e (some n) = refl

source_path-came_from : (e : OverlayEntry) → source_path e ≡ came_from e.path e.target_path
unfolding text_eq
source_path-came_from e = go e.target_path
  where
    go : (t : Text) → (if text_eq t [] then e.path else t) ≡ came_from e.path t
    go [] = refl
    go (b ∷ t) = refl

is_dir-dir_there : (o : Option BaseNode) → is_dir o ≡ dir_there o
is_dir-dir_there none = refl
is_dir-dir_there (some n) = ground arith

stale_source-lost_rename :
    (base : Base) (p : Text) (e : OverlayEntry)
    → (kind_eq e.kind rename && (is_stale_change base e && text_eq (source_path e) p))
      ≡ lost_rename base p e
unfolding is_stale_change
stale_source-lost_rename base p e =
    ground (arith, oid_differs-same_object e (base (source_path e)), source_path-came_from e)

is_stale_source-lost_from :
    (base : Base) (t : List OverlayEntry) (p : Text) → is_stale_source base t p ≡ lost_from base t p
unfolding is_stale_source any
is_stale_source-lost_from base [] p = refl
is_stale_source-lost_from base (e ∷ es) p =
    ground (arith, stale_source-lost_rename base p e, is_stale_source-lost_from base es p)

lost_from-in_order :
    (base : Base) (t : List OverlayEntry) (p : Text)
    → lost_from base (in_order t) p ≡ lost_from base t p
lost_from-in_order base t p = any-sort_by (λ e. e.path) (lost_rename base p) t

is_stale-survives :
    (base : Base) (t : List OverlayEntry) (e : OverlayEntry)
    → not (is_stale base (in_order t) e) ≡ survives base t e
unfolding is_stale_change is_stale_other
is_stale-survives base t e = ground (
  arith,
  oid_differs-same_object e (base e.path),
  oid_differs-same_object e (base (source_path e)),
  source_path-came_from e,
  is_dir-dir_there (base e.path),
  is_stale_source-lost_from base (in_order t) e.path,
  is_stale_source-lost_from base (in_order t) e.target_path,
  lost_from-in_order base t e.path,
  lost_from-in_order base t e.target_path,
)

survivors :
    (base : Base) (t : List OverlayEntry) (q : Text)
    → passing (λ d. not (is_stale base (in_order t) d)) (select q t)
      ≡ passing (λ d. survives base t d) (select q t)
survivors base t q = ap (λ f. passing f (select q t)) (fun_ext (λ d. is_stale-survives base t d))

-- Reconcile against a new snapshot, over rows with unique paths: where it fails it keeps every row,
-- and where it succeeds it keeps of each path the row that was there if it survives, which a row does
-- in these cases: it was modified, or renamed, and the snapshot still has the object that it was made
-- of at its path, or at the one it was renamed from; it was created, and the snapshot has nothing at
-- its path; it is a new directory, and the snapshot has none at its path; it is a whiteout, the
-- snapshot has its path, and no row that was renamed from its path or from its target path has lost
-- its object; or it is a symbolic link.
pub reconcile-rows :
    (base : Base) (w : World) (q : Text)
    → IsKeyed w.table
    → select q (reconcile (some base) w).1.table ≡ (
        if is_ok (reconcile (some base) w).0
        then passing (λ d. survives base w.table d) (select q w.table)
        else select q w.table)
unfolding reconcile query_entries
reconcile-rows base w q k =
    unfold query_entries in
    ground (
      arith,
      attempt-table w,
      prune_some-rows (to_remove base (in_order (attempt w).1.table)) (attempt w).1 q,
      not-stale base (attempt w).1.table q,
      survivors base (attempt w).1.table q,
    )
