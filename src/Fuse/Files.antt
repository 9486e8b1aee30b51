-- ===== src/Fuse/Files.antt =====
-- The operations of internal/fusefs/fuse_unix.go on files and symbolic links.
pub mod ReadBack
use gitfs.Prelude.{ℕ, Text, text_eq, none, some, [], take, drop, ltb, if◌then◌else◌}
use gitfs.Errors.{Error, Result, ok, err, blob_too_large}
use gitfs.Model.{BaseNode, RepoConfig, file, is_known}
use gitfs.Machine.{World, Exec}
use gitfs.Resolver.{resolve_path, resolved_base}
use gitfs.Engine.{Hydrator, create_path}
use gitfs.Engine
use gitfs.Fuse.{
  Call, ◌>>=◌, ◌>>◌, reply, fail, update, run, Mount, Reply, done, failed, Errno, estale, enoent,
  enametoolong, eio, always_eio, enoent_or_eio, require_inode, child_path, alloc, file_handle,
  add_file_handle, close_cached_files_for_path, at_handle, gitfile_content, gitfile_name,
}
use gitfs.Fuse.Handle.{FileHandle, new_file_handle, read_handle}
use gitfs.Fuse.Attributes.{InodeAttributes, inode_attrs}

unfoldable pub open_file : ℕ → Call ℕ
unfolding require_inode add_file_handle
open_file id = do ref ← require_inode id estale; add_file_handle (new_file_handle ref.path)

-- `maxSymlinkTargetBytes`
abbrev pub max_symlink_target_bytes : ℕ
max_symlink_target_bytes = 4096

-- Sizes are not negative here.
unfoldable pub validate_known_symlink_target_size : BaseNode → Call (Unit {0})
validate_known_symlink_target_size n =
    if is_known n.size_state
    then (if ltb max_symlink_target_bytes n.size_bytes then fail enametoolong else reply tt)
    else reply tt

abbrev enametoolong_or_eio : Error → Errno
enametoolong_or_eio blob_too_large = enametoolong
enametoolong_or_eio _ = eio

abbrev always_enoent : Error → Errno
always_enoent e = enoent

module _ (h : Hydrator) (repo : RepoConfig) where
  -- The read of a handle, which stays in the table as the read leaves it.
  abbrev pub read_stored : ℕ → Mount → Result Text × (FileHandle × World) → Reply Text × Mount
  read_stored id m (ok t, (fh, w)) =
      (done t, record m { file_handles = at_handle id (some fh) m.file_handles; world = w })
  read_stored id m (err e, (fh, w)) = (
    failed (enoent_or_eio e),
    record m { file_handles = at_handle id (some fh) m.file_handles; world = w },
  )

  unfoldable pub read_file : ℕ → ℕ → ℕ → Call Text
  unfolding file_handle at_handle
  read_file id off size = do
    fh ← file_handle id
    if text_eq fh.path gitfile_name
        then reply (take size (drop off (gitfile_content repo.git_dir)))
        else (λ m. read_stored id m (read_handle h repo off size fh m.world))

  unfoldable pub write_file : ℕ → ℕ → Text → ℕ → Call (Unit {0})
  unfolding file_handle close_cached_files_for_path
  write_file id off bytes now = do
    fh ← file_handle id
    close_cached_files_for_path fh.path
    run always_eio (Engine.write h repo fh.path off bytes now)
    close_cached_files_for_path fh.path

  -- The inode of the new file, its attributes and its handle.
  unfoldable pub create_file : ℕ → Text → ℕ → ℕ → Call (ℕ × InodeAttributes × ℕ)
  unfolding child_path add_file_handle
  create_file parent name mode now = do
    path ← child_path parent name
    run always_eio (create_path h repo path mode now)
    ref ← alloc path file mode
    handle ← add_file_handle (new_file_handle path)
    reply (ref.id, inode_attrs mode 0 file now now, handle)

  -- `read_blob` is `ReadBlob` of the hydrator.
  unfoldable pub read_symlink : (BaseNode → ℕ → Exec Text) → ℕ → Call Text
  unfolding require_inode validate_known_symlink_target_size
  read_symlink read_blob id = do
    ref ← require_inode id estale
    n ← run always_enoent (resolve_path ref.path)
    if text_eq (resolved_base n).object_oid [] then fail enoent else do
      validate_known_symlink_target_size (resolved_base n)
      run enametoolong_or_eio (read_blob (resolved_base n) max_symlink_target_bytes)

-- The cached file of a handle that is gone is closed, which changes no state.
unfoldable pub release_file_handle : ℕ → Call (Unit {0})
unfolding at_handle
release_file_handle id = update (λ m. record m { file_handles = at_handle id none m.file_handles })
