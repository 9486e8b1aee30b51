-- ===== src/Resolver.antt =====
-- internal/fusefs/merged.go: the view that lays the overlay over the snapshot.
pub mod Dirents
pub mod View
use Prim.Native.Nat.{bit_and}
use gitfs.Prelude.{
  ℕ, ◌*◌, Text, text_eq, Bool, true, false, ◌&&◌, ◌||◌, Option, none, some, List, [], ◌∷◌, map,
  sort_by, ◌==◌, if◌then◌else◌,
}
use gitfs.Errors.{Error, not_exist}
use gitfs.Model.{
  OverlayEntry, BaseNode, NodeType, file, dir, type_eq, is_deleted, overlay_node_type, zero_node,
}
use gitfs.Machine.{World, Exec, ◌>>=◌, ◌>>◌, pure, raise, gets, on_error}
use gitfs.Path.{dot, clean_path, join}
use gitfs.Path.Names.{child_name}
use gitfs.Overlay.Store.{get, list_by_prefix}
use gitfs.Snapshot.{get_node, list_children}
use Dirents.{ReaddirEntry, base_entries, overlay_entry, put_entry, without}

-- `FromOverlay` is the constructor, and the field that it leaves out is the zero value.
pub data ResolvedNode : Type 0 where
  in_overlay : OverlayEntry → ResolvedNode
  in_base : BaseNode → ResolvedNode

abbrev pub resolved_base : ResolvedNode → BaseNode
resolved_base (in_overlay e) = zero_node
resolved_base (in_base n) = n

abbrev or_not_exist : Option BaseNode → Exec ResolvedNode
or_not_exist none = raise not_exist
or_not_exist (some n) = pure (in_base n)

-- `r.Snapshot.GetNode(r.Generation(), path)`
unfoldable pub base_node : Text → Exec (Option BaseNode)
base_node path = do gen ← gets (λ w. w.generation); get_node gen path

unfoldable pub resolve_path : Text → Exec ResolvedNode
resolve_path path = do
  found ← get (clean_path path)
  elim found [
    | some e ↦ if is_deleted e then raise not_exist else pure (in_overlay e)
    | none ↦ do n ← base_node (clean_path path); or_not_exist n
  ]

unfoldable pub lookup : Text → Text → Exec ResolvedNode
lookup parent name =
    resolve_path (clean_path (join (if text_eq parent [] then dot else parent) name))

-- Times are in nanoseconds since 1970.
pub record Attrs : Type 0 where
  pub mode : ℕ
  pub size : ℕ
  pub node_type : NodeType
  pub mtime : ℕ
  pub ctime : ℕ

unfoldable pub normalize_mode : ℕ → NodeType → ℕ
normalize_mode mode t =
    let bare = bit_and mode 0o777 == 0 in
    if type_eq t dir && bare
    then 0o755
    else if (type_eq t file || type_eq t NodeType.symlink) && bare
    then 0o644
    else mode

abbrev pub base_time : World → ℕ
base_time w = (if w.commit_time == 0 then w.generation else w.commit_time) * 1_000_000_000

abbrev pub overlay_attrs : OverlayEntry → Attrs
overlay_attrs e = record {
  mode = e.mode;
  size = e.size_bytes;
  node_type = overlay_node_type e;
  mtime = e.mtime;
  ctime = e.ctime;
}

abbrev pub base_attrs : BaseNode → ℕ → Attrs
base_attrs n t = record {
  mode = normalize_mode n.mode n.node_type;
  size = n.size_bytes;
  node_type = n.node_type;
  mtime = t;
  ctime = t;
}

unfoldable pub getattr : Text → Exec Attrs
getattr path = do
  n ← resolve_path path
  elim n [
    | in_overlay e ↦ pure (overlay_attrs e)
    | in_base b ↦ gets (λ w. base_attrs b (base_time w))
  ]

abbrev is_whiteout : Option OverlayEntry → Bool
is_whiteout none = false
is_whiteout (some e) = is_deleted e

-- The body of the loop over the overlay's entries.
unfoldable pub merge_entry : Text → OverlayEntry → List ReaddirEntry → Exec (List ReaddirEntry)
merge_entry path e set = if text_eq e.path path then pure set else elim (child_name path e.path) [
  | none ↦ pure set
  | some name ↦
      let child = clean_path (join path name) in
      if is_deleted e && text_eq e.path child then pure (without name set) else do
        ov ← get child
        pure (if is_whiteout ov then set else put_entry (overlay_entry name e) set)
]

unfoldable pub merge_entries :
    Text → List OverlayEntry → List ReaddirEntry → Exec (List ReaddirEntry)
merge_entries path [] set = pure set
merge_entries path (e ∷ es) set = do set' ← merge_entry path e set; merge_entries path es set'

abbrev pub is_not_exist : Error → Bool
is_not_exist not_exist = true
is_not_exist _ = false

unfoldable pub readdir_typed : Text → Exec (List ReaddirEntry)
readdir_typed path = do
  gen ← gets (λ w. w.generation)
  nodes ←
      on_error (list_children gen (clean_path path))
        (λ e. if is_not_exist e then pure [] else raise e)
  entries ← on_error (list_by_prefix (clean_path path)) (λ e. pure [])
  set ← merge_entries (clean_path path) entries (base_entries nodes)
  pure (sort_by (λ (d : ReaddirEntry). d.name) set)

unfoldable pub readdir : Text → Exec (List Text)
readdir path = do entries ← readdir_typed path; pure (map (λ (d : ReaddirEntry). d.name) entries)
