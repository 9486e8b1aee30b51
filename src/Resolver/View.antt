-- ===== src/Resolver/View.antt =====
-- What internal/fusefs/merged.go shows of each path, against a plain description of the view.
use Prim.Native.Nat.{bit_and}
use gitfs.Prelude.{
  ℕ, ◌*◌, ◌==◌, ◌≢◌, ◌⊎◌, inl, inr, refl, sym, subst, true, Bool-cases, Text, Option, none, some,
  ◌≡◌, arith, if◌then◌else◌, [],
}
use gitfs.Errors.{Result, ok, err, not_exist}
use gitfs.Model.{OverlayEntry, BaseNode, NodeType, unset, file, dir, is_deleted, overlay_node_type}
use gitfs.Machine.{World}
use gitfs.Path.{clean_path}
use gitfs.Path.Normal.{clean_path_idem}
use gitfs.Overlay.Table.{select}
use gitfs.Overlay.Store.{get}
use gitfs.Snapshot.{get_node}
use gitfs.Snapshot.Rows.{find_row}
use gitfs.Resolver.{
  ResolvedNode, in_overlay, in_base, resolve_path, base_node, getattr, Attrs, overlay_attrs,
  base_attrs, base_time, normalize_mode,
}

-- A live row of the overlay wins, a whiteout hides the path, and else the snapshot decides.
abbrev pub shown : Option OverlayEntry → Option BaseNode → Option ResolvedNode
shown (some e) n = if is_deleted e then none else some (in_overlay e)
shown none (some n) = some (in_base n)
shown none none = none

abbrev pub view : World → Text → Option ResolvedNode
view w p = shown (select p w.table) (find_row w.generation p w.snapshot.base_nodes)

abbrev pub or_absent {ℓ} : {A : Type ℓ} → Option A → Result A
or_absent none = err not_exist
or_absent (some a) = ok a

pub get-calm :
    (p : Text) (w : World) → w.trouble ≡ [] → get p w ≡ (ok (select (clean_path p) w.table), w)
unfolding get
get-calm p w h = ground arith

pub base_node-calm :
    (p : Text) (w : World)
    → w.trouble ≡ []
    → base_node p w ≡ (ok (find_row w.generation p w.snapshot.base_nodes), w)
unfolding base_node get_node
base_node-calm p w h = ground arith

-- Where no call of the database fails, resolving a path gives what the view has at its clean form,
-- and ErrNotExist where it has nothing; it changes nothing.
pub resolve_path-view :
    (path : Text) (w : World)
    → w.trouble ≡ []
    → resolve_path path w ≡ (or_absent (view w (clean_path path)), w)
unfolding resolve_path
resolve_path-view path w h = ground (
  arith,
  get-calm (clean_path path) w h,
  base_node-calm (clean_path path) w h,
  clean_path_idem path,
)

abbrev pub node_attrs : World → ResolvedNode → Attrs
node_attrs w (in_overlay e) = overlay_attrs e
node_attrs w (in_base n) = base_attrs n (base_time w)

abbrev pub attrs_at : World → Option ResolvedNode → Result Attrs
attrs_at w none = err not_exist
attrs_at w (some n) = ok (node_attrs w n)

pub getattr-attrs_at :
    (path : Text) (w : World)
    → w.trouble ≡ []
    → (getattr path w).0 ≡ attrs_at w (view w (clean_path path))
unfolding getattr
getattr-attrs_at path w h = ground (arith, resolve_path-view path w h)

-- What stands in for a mode without permission bits.
abbrev pub usual_mode : ℕ → NodeType → ℕ
usual_mode mode dir = 0o755
usual_mode mode file = 0o644
usual_mode mode NodeType.symlink = 0o644
usual_mode mode unset = mode

abbrev pub ShownMode : ℕ → NodeType → ℕ → Type 0
ShownMode mode t m =
    ((bit_and mode 0o777 ≢ 0) × (m ≡ mode)) ⊎ ((bit_and mode 0o777 ≡ 0) × (m ≡ usual_mode mode t))

normalize_mode-ShownMode : (mode : ℕ) (t : NodeType) → ShownMode mode t (normalize_mode mode t)
unfolding normalize_mode
normalize_mode-ShownMode mode t = elim (Bool-cases (bit_and mode 0o777 == 0)) [
  | inl e ↦ inr (ground arith, bare t e)
  | inr e ↦ inl (ground arith, ground arith)
]
  where
    bare :
        (u : NodeType)
        → (bit_and mode 0o777 == 0) ≡ true
        → normalize_mode mode u ≡ usual_mode mode u
    bare dir e = ground arith
    bare file e = ground arith
    bare NodeType.symlink e = ground arith
    bare unset e = ground arith

-- In seconds: the time of the commit, or the generation where the commit has none.
abbrev pub ShownTime : World → ℕ → Type 0
ShownTime w t =
    ((w.commit_time ≢ 0) × (t ≡ w.commit_time * 1_000_000_000))
    ⊎ ((w.commit_time ≡ 0) × (t ≡ w.generation * 1_000_000_000))

base_time-ShownTime : (w : World) → ShownTime w (base_time w)
base_time-ShownTime w = elim (Bool-cases (w.commit_time == 0)) [
  | inl e ↦ inr (ground arith, ground arith)
  | inr e ↦ inl (ground arith, ground arith)
]

-- What the attributes of a node of the view are to be.
abbrev pub Attributes : World → Option ResolvedNode → Result Attrs → Type 0
Attributes w none r = r ≡ err not_exist
Attributes w (some (in_overlay e)) r =
    (a : Attrs) × (r ≡ ok a)
    × (a.mode ≡ e.mode)
    × (a.size ≡ e.size_bytes)
    × (a.node_type ≡ overlay_node_type e)
    × (a.mtime ≡ e.mtime)
    × (a.ctime ≡ e.ctime)
Attributes w (some (in_base n)) r =
    (a : Attrs) × (r ≡ ok a)
    × ShownMode n.mode n.node_type a.mode
    × (a.size ≡ n.size_bytes)
    × (a.node_type ≡ n.node_type)
    × ShownTime w a.mtime
    × ShownTime w a.ctime

attrs_at-Attributes : (w : World) (o : Option ResolvedNode) → Attributes w o (attrs_at w o)
attrs_at-Attributes w none = refl
attrs_at-Attributes w (some (in_overlay e)) = (overlay_attrs e, refl, refl, refl, refl, refl, refl)
attrs_at-Attributes w (some (in_base n)) =
    let time = base_time-ShownTime w in
    (
      base_attrs n (base_time w),
      refl,
      normalize_mode-ShownMode n.mode n.node_type,
      refl,
      refl,
      time,
      time,
    )

-- Where no call of the database fails, the attributes of a path are those of what the view has at
-- its clean form: an overlay row's own. For a node of the snapshot they are its size and type; its
-- mode, or, where that has no permission bits, 0o755 for a directory and 0o644 for a file or a
-- symbolic link; and the commit's time, or the generation where there is none. They are ErrNotExist
-- where the view has nothing.
pub getattr-view :
    (path : Text) (w : World)
    → w.trouble ≡ []
    → Attributes w (view w (clean_path path)) (getattr path w).0
getattr-view path w h =
    subst (Attributes w (view w (clean_path path))) (sym (getattr-attrs_at path w h))
      (attrs_at-Attributes w (view w (clean_path path)))
