-- ===== src/Overlay/Effects.antt =====
-- What a successful call of each method of internal/overlay/store.go does to the row of every path.
use gitfs.Prelude.{ℕ, Text, text_eq, Option, some, List, [], ◌≡◌, arith, if◌then◌else◌}
use gitfs.Errors.{Result, is_ok}
use gitfs.Model.{OverlayEntry, RepoConfig, delete, create, mkdir, normalize_git_dir_mode}
use gitfs.Machine.{World}
use gitfs.Machine.Disk.{mkdir_all, chmod}
use gitfs.Machine.Frame.{Frame, mkdir_all-Frame, write_empty-Frame, os_remove-Frame, chmod-Frame}
use gitfs.Path.{clean_path}
use gitfs.Overlay.Table.{select}
use gitfs.Overlay.Rows.{select-upsert}
use gitfs.Overlay.Store.{backing_path, get, upsert_entry, new_entry, create_file, remove, make_dir}

-- Reading one entry changes no table, and in a world without trouble it is the row.
pub get-Frame : (p : Text) (w : World) → Frame w (get p w).1
unfolding get
get-Frame p w = ground arith

-- The row of `q` after a call that writes the row `e` if it succeeds and nothing if it fails.
abbrev pub written {ℓ} :
    {A : Type ℓ} → Result A → OverlayEntry → Text → List OverlayEntry → Option OverlayEntry
written r e q t = if is_ok r then (if text_eq e.path q then some e else select q t) else select q t

pub upsert_entry-rows :
    (e : OverlayEntry) (w : World) (q : Text)
    → select q (upsert_entry e w).1.table ≡ written (upsert_entry e w).0 e q w.table
unfolding upsert_entry
upsert_entry-rows e w q = ground (arith, select-upsert e q w.table)

-- `CreateFile` either succeeds, and then the path has a new `create` row and every other path the
-- row that it had, or fails and changes no row.
pub create_file-rows :
    (repo : RepoConfig) (path : Text) (mode now : ℕ) (w : World) (q : Text)
    → select q (create_file repo path mode now w).1.table
      ≡ written
          (create_file repo path mode now w).0
          (new_entry (clean_path path) create (backing_path repo path) mode now)
          q
          w.table
unfolding create_file
create_file-rows repo path mode now w q =
    grind (arith, mkdir_all-Frame, write_empty-Frame, upsert_entry-rows)

-- `Remove` either leaves a whiteout at the path and every other row as it was, or fails and
-- changes no row.
pub remove-rows :
    (path : Text) (now : ℕ) (w : World) (q : Text)
    → select q (remove path now w).1.table
      ≡ written (remove path now w).0 (new_entry (clean_path path) delete [] 0 now) q w.table
unfolding remove
remove-rows path now w q = grind (arith, get-Frame, os_remove-Frame, upsert_entry-rows)

-- `Mkdir` does so with a `mkdir` row, whose mode is the normalized one.
pub make_dir-rows :
    (repo : RepoConfig) (path : Text) (mode now : ℕ) (w : World) (q : Text)
    → select q (make_dir repo path mode now w).1.table
      ≡ written
          (make_dir repo path mode now w).0
          (new_entry
            (clean_path path)
            mkdir
            (backing_path repo (clean_path path))
            (normalize_git_dir_mode mode).0
            now)
          q
          w.table
unfolding make_dir
make_dir-rows repo path mode now w q = ground (
  arith,
  mkdir_all-Frame backing mode' w,
  chmod-Frame backing mode' w1,
  upsert_entry-rows e w1 q,
  upsert_entry-rows e (chmod backing mode' w1).1 q,
)
  where
    backing : Text
    backing = backing_path repo (clean_path path)

    mode' : ℕ
    mode' = (normalize_git_dir_mode mode).0

    w1 : World
    w1 = (mkdir_all backing mode' w).1

    e : OverlayEntry
    e = new_entry (clean_path path) mkdir backing mode' now
