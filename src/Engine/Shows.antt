-- ===== src/Engine/Shows.antt =====
-- What the operations of internal/fusefs/ops.go that write one row make of the view.
use Prim.Native.Nat.{bit_and}
use gitfs.Prelude.{
  ℕ, false, ◌⊎◌, ◌==◌, ◌&&◌, Text, text_eq, true, Option, none, some, [], ◌≡◌, arith, if◌then◌else◌,
}
use gitfs.Errors.{Result, ok, is_ok}
use gitfs.Model.{RepoConfig, create, mkdir, normalize_git_dir_mode}
use gitfs.Machine.{World}
use gitfs.Path.{clean_path}
use gitfs.Overlay.Created.{empty_file_at, create_file-empty_file, directory_at, make_dir-directory}
use gitfs.Overlay.Effects.{create_file-rows, remove-rows, make_dir-rows}
use gitfs.Overlay.Store.{backing_path}
use gitfs.Resolver.{ResolvedNode, in_overlay, readdir}
use gitfs.Resolver.View.{view}
use gitfs.Engine.{Hydrator, create_path, unlink, make_directory, rmdir}
use gitfs.Engine.Frame.{
  create_file-SameBase, remove-SameBase, make_dir-SameBase, Reads, readdir-Reads,
}

-- The view after a call that changes what it shows at one path if it succeeds, and shows what it
-- did if it fails.
abbrev pub shown_at {ℓ} :
    {A : Type ℓ} → Result A → Text → Option ResolvedNode → World → Text → Option ResolvedNode
shown_at r p n w q = if is_ok r then (if text_eq p q then n else view w q) else view w q

-- The mode of a directory, with permission bits where git has a directory and no such bits.
abbrev pub usable_dir_mode : ℕ → ℕ
usable_dir_mode mode =
    if bit_and mode 0o170000 == 0o40000 && bit_and mode 0o777 == 0 then 0o755 else mode

module _ (h : Hydrator) (repo : RepoConfig) where
  -- Creating a file that succeeds shows at the path, whatever stood there, a new row of a file with
  -- the mode that was asked for, the size 0 and the time of the call, and there is an empty file under
  -- the name of its backing file, whatever that had in it before; where it fails, and at every other
  -- path, the view shows what it did.
  pub create_path-view :
      (path : Text) (mode now : ℕ) (w : World) (q : Text)
      → (view (create_path h repo path mode now w).1 q
          ≡ shown_at
              (create_path h repo path mode now w).0
              (clean_path path)
              (some (
                in_overlay (record {
                  path = clean_path path;
                  kind = create;
                  backing_path = backing_path repo path;
                  mode = mode;
                  size_bytes = 0;
                  mtime = now;
                  ctime = now;
                  source_oid = [];
                  target_path = [];
                })))
              w
              q)
        × ((is_ok (create_path h repo path mode now w).0 ≡ false)
            ⊎ (empty_file_at (backing_path repo path) (create_path h repo path mode now w).1
                ≡ true))
  unfolding create_path
  create_path-view path mode now w q = (
    ground
        (arith, create_file-rows repo path mode now w q, create_file-SameBase repo path mode now w),
    ground (arith, create_file-empty_file repo path mode now w),
  )

  -- Unlinking that succeeds shows nothing at the path, whatever stood there in the overlay or the
  -- snapshot; where it fails, and at every other path, the view shows what it did.
  pub unlink-view :
      (path : Text) (now : ℕ) (w : World) (q : Text)
      → view (unlink h repo path now w).1 q
        ≡ shown_at (unlink h repo path now w).0 (clean_path path) none w q
  unfolding unlink
  unlink-view path now w q = ground (arith, remove-rows path now w q, remove-SameBase path now w)

  -- Making a directory that succeeds shows a new row of a directory at the path, with the mode that
  -- was asked for, or with 0o755 where that is git's mode of a directory, without permission bits, and
  -- there is a directory under the name of its backing file; where it fails, and at every other path,
  -- the view shows what it did.
  pub make_directory-view :
      (path : Text) (mode now : ℕ) (w : World) (q : Text)
      → (view (make_directory h repo path mode now w).1 q
          ≡ shown_at
              (make_directory h repo path mode now w).0
              (clean_path path)
              (some (
                in_overlay (record {
                  path = clean_path path;
                  kind = mkdir;
                  backing_path = backing_path repo (clean_path path);
                  mode = usable_dir_mode mode;
                  size_bytes = 0;
                  mtime = now;
                  ctime = now;
                  source_oid = [];
                  target_path = [];
                })))
              w
              q)
        × ((is_ok (make_directory h repo path mode now w).0 ≡ false)
            ⊎ (directory_at
                  (backing_path repo (clean_path path))
                  (make_directory h repo path mode now w).1
                ≡ true))
  unfolding make_directory normalize_git_dir_mode
  make_directory-view path mode now w q = (
    ground (arith, make_dir-rows repo path mode now w q, make_dir-SameBase repo path mode now w),
    ground (arith, make_dir-directory repo path mode now w),
  )

  -- Removing a directory that succeeds listed nothing in it before; it shows nothing at the path
  -- then, and at every other path what it did.
  pub rmdir-view :
      (path : Text) (now : ℕ) (w : World) (q : Text)
      → is_ok (rmdir h repo path now w).0 ≡ true
      → ((readdir path w).0 ≡ ok [])
        × (view (rmdir h repo path now w).1 q
            ≡ (if text_eq (clean_path path) q then none else view w q))
  unfolding rmdir Reads
  rmdir-view path now w q r = ground (
    arith,
    readdir-Reads path w,
    remove-rows path now (readdir path w).1 q,
    remove-SameBase path now (readdir path w).1,
  )
