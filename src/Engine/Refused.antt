-- ===== src/Engine/Refused.antt =====
-- The renames of directories that internal/fusefs/ops.go refuses.
use gitfs.Prelude.{ℕ, Text, text_eq_iff, Bool, true, false, Option, none, some, [], ◌≡◌, ◌≢◌, arith}
use gitfs.Errors.{err, invalid}
use gitfs.Model.{OverlayEntry, BaseNode, RepoConfig, dir, mkdir, is_deleted, kind_eq, type_eq}
use gitfs.Machine.{World}
use gitfs.Path.{clean_path}
use gitfs.Path.Normal.{clean_path_idem}
use gitfs.Overlay.Table.{select}
use gitfs.Snapshot.Rows.{find_row}
use gitfs.Resolver.View.{get-calm, base_node-calm}
use gitfs.Engine.{Hydrator, rename, rename_overlay, rename_base}

-- The overlay has no row of the path, or a directory that was made in it.
abbrev pub untouched_dir : Option OverlayEntry → Bool
untouched_dir none = true
untouched_dir (some e) = kind_eq e.kind mkdir

abbrev pub base_dir_at : World → Text → Bool
base_dir_at w p = is_dir_node (find_row w.generation p w.snapshot.base_nodes)
  where
    is_dir_node : Option BaseNode → Bool
    is_dir_node none = false
    is_dir_node (some n) = type_eq n.node_type dir

-- A directory of the snapshot cannot be renamed: where no call of the database fails, where the
-- overlay has no row of the old path or a directory's, and where the two paths are not the same,
-- renaming it fails with ErrInvalid and changes nothing.
pub rename-base_dir :
    (h : Hydrator) (repo : RepoConfig) (old_path new_path : Text) (now : ℕ) (w : World)
    → w.trouble ≡ []
    → clean_path old_path ≢ clean_path new_path
    → base_dir_at w (clean_path old_path) ≡ true
    → untouched_dir (select (clean_path old_path) w.table) ≡ true
    → rename h repo old_path new_path now w ≡ (err invalid, w)
unfolding rename rename_overlay rename_base
rename-base_dir h repo old_path new_path now w calm differ dir_there untouched = ground (
  arith,
  text_eq_iff (clean_path old_path) (clean_path new_path),
  clean_path_idem old_path,
  get-calm (clean_path old_path) w calm,
  base_node-calm (clean_path old_path) w calm,
)

-- Nothing is renamed over a directory of the snapshot either: where no call of the database fails,
-- where the overlay has a live row of the old path, and where the two paths are not the same,
-- renaming to it fails with ErrInvalid and changes nothing.
pub rename-onto_base_dir :
    (h : Hydrator) (repo : RepoConfig) (old_path new_path : Text) (now : ℕ) (w : World)
    (e : OverlayEntry)
    → w.trouble ≡ []
    → clean_path old_path ≢ clean_path new_path
    → base_dir_at w (clean_path new_path) ≡ true
    → select (clean_path old_path) w.table ≡ some e
    → is_deleted e ≡ false
    → rename h repo old_path new_path now w ≡ (err invalid, w)
unfolding rename rename_overlay
rename-onto_base_dir h repo old_path new_path now w e calm differ dir_there row alive = ground (
  arith,
  text_eq_iff (clean_path old_path) (clean_path new_path),
  clean_path_idem old_path,
  get-calm (clean_path old_path) w calm,
  base_node-calm (clean_path old_path) w calm,
  base_node-calm (clean_path new_path) w calm,
)
