-- ===== src/Engine/Frame.antt =====
-- What the operations of internal/fusefs/ops.go and the listings of internal/fusefs/merged.go leave
-- as it was.
use gitfs.Prelude.{ℕ, Text, List, [], ◌∷◌, ◌≡◌, refl, arith, if◌then◌else◌}
use gitfs.Errors.{Result, ok, err}
use gitfs.Model.{OverlayEntry, BaseNode, RepoConfig, mkdir, normalize_git_dir_mode}
use gitfs.Machine.{World, continue, Exec, gets, on_error, pure, raise, ◌>>=◌}
use gitfs.Machine.Disk.{mkdir_all, chmod}
use gitfs.Machine.Frame.{mkdir_all-Frame, write_empty-Frame, os_remove-Frame, chmod-Frame}
use gitfs.Path.{clean_path}
use gitfs.Overlay.Effects.{get-Frame}
use gitfs.Overlay.Store.{
  upsert_entry, new_entry, backing_path, create_file, remove, make_dir, get, list_by_prefix,
}
use gitfs.Resolver.{readdir, readdir_typed, merge_entry, merge_entries, is_not_exist}
use gitfs.Resolver.Dirents.{ReaddirEntry, base_entries}
use gitfs.Snapshot.{list_children}

-- The snapshot and the resolver's generation are the same.
abbrev pub SameBase : World → World → Type 0
SameBase w w' = (w'.snapshot ≡ w.snapshot) × (w'.generation ≡ w.generation)

upsert_entry-SameBase : (e : OverlayEntry) (w : World) → SameBase w (upsert_entry e w).1
unfolding upsert_entry
upsert_entry-SameBase e w = ground arith

pub create_file-SameBase :
    (repo : RepoConfig) (path : Text) (mode now : ℕ) (w : World)
    → SameBase w (create_file repo path mode now w).1
unfolding create_file
create_file-SameBase repo path mode now w =
    grind (arith, mkdir_all-Frame, write_empty-Frame, upsert_entry-SameBase)

pub remove-SameBase : (path : Text) (now : ℕ) (w : World) → SameBase w (remove path now w).1
unfolding remove
remove-SameBase path now w = grind (arith, get-Frame, os_remove-Frame, upsert_entry-SameBase)

pub make_dir-SameBase :
    (repo : RepoConfig) (path : Text) (mode now : ℕ) (w : World)
    → SameBase w (make_dir repo path mode now w).1
unfolding make_dir
make_dir-SameBase repo path mode now w = ground (
  arith,
  mkdir_all-Frame backing mode' w,
  chmod-Frame backing mode' w1,
  upsert_entry-SameBase e w1,
  upsert_entry-SameBase e (chmod backing mode' w1).1,
)
  where
    backing : Text
    backing = backing_path repo (clean_path path)

    mode' : ℕ
    mode' = (normalize_git_dir_mode mode).0

    w1 : World
    w1 = (mkdir_all backing mode' w).1

    e : OverlayEntry
    e = new_entry (clean_path path) mkdir backing mode' now

-- Listing a directory changes none of the state.
unfoldable pub Reads : World → World → Type 0
Reads w w' = (w'.table ≡ w.table) × (w'.snapshot ≡ w.snapshot) × (w'.generation ≡ w.generation)

merge_entry-Reads :
    (path : Text) (e : OverlayEntry) (set : List ReaddirEntry) (w : World)
    → Reads w (merge_entry path e set w).1
unfolding merge_entry get Reads
merge_entry-Reads path e set w = ground arith

continue-Reads :
    {A B : Type 0} (w : World) (r : Result A × World) (f : A → Exec B)
    → Reads w r.1
    → ((a : A) (v : World) → Reads v (f a v).1)
    → Reads w (continue r f).1
unfolding Reads
continue-Reads w (ok a, v) f h k = ground (arith, k a v)
continue-Reads w (err e, v) f h k = h

merge_entries-Reads :
    (path : Text) (es : List OverlayEntry) (set : List ReaddirEntry) (w : World)
    → Reads w (merge_entries path es set w).1
unfolding merge_entries Reads
merge_entries-Reads path [] set w = ground arith
merge_entries-Reads path (e ∷ es) set w =
    continue-Reads w (merge_entry path e set w) (λ set'. merge_entries path es set')
      (merge_entry-Reads path e set w) (λ set' v. merge_entries-Reads path es set' v)

typed_base : Text → Exec (List BaseNode)
typed_base path = do
  gen ← gets (λ w. w.generation)
  on_error (list_children gen (clean_path path)) (λ e. if is_not_exist e then pure [] else raise e)

typed_overlay : Text → Exec (List OverlayEntry)
typed_overlay path = on_error (list_by_prefix (clean_path path)) (λ e. pure [])

typed_base-Reads : (path : Text) (w : World) → Reads w (typed_base path w).1
unfolding typed_base list_children Reads
typed_base-Reads path w = ground arith

typed_overlay-Reads : (path : Text) (w : World) → Reads w (typed_overlay path w).1
unfolding typed_overlay list_by_prefix Reads
typed_overlay-Reads path w = ground arith

readdir_typed-Reads : (path : Text) (w : World) → Reads w (readdir_typed path w).1
unfolding readdir_typed typed_base typed_overlay Reads
readdir_typed-Reads path w =
    continue-Reads w (typed_base path w) _ (typed_base-Reads path w) λ nodes v.
      continue-Reads v (typed_overlay path v) _ (typed_overlay-Reads path v) λ entries u.
        continue-Reads u (merge_entries (clean_path path) entries (base_entries nodes) u) _
          (merge_entries-Reads (clean_path path) entries (base_entries nodes) u)
          (λ set x. (refl, refl, refl))

pub readdir-Reads : (path : Text) (w : World) → Reads w (readdir path w).1
unfolding readdir Reads
readdir-Reads path w =
    continue-Reads w (readdir_typed path w) _ (readdir_typed-Reads path w)
      (λ entries v. (refl, refl, refl))
