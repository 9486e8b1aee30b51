-- ===== src/Fuse/Directories.antt =====
-- The operations of internal/fusefs/fuse_unix.go on directories and names. OpenDir also starts a
-- goroutine that prefetches the blobs, which is that of Hydrator/Prefetch.antt.
pub mod Paging
use Prim.Native.Nat.{bit_or}
use gitfs.Prelude.{
  ℕ, suc, ◌+◌, ◌-◌, Text, Bool, Option, none, List, [], ◌∷◌, drop, leb, ◌==◌, if◌then◌else◌,
}
use gitfs.Model.{NodeType, RepoConfig, file, dir, SizeState, unknown}
use gitfs.Resolver.{readdir_typed}
use gitfs.Resolver.Dirents.{ReaddirEntry}
use gitfs.Inodes.{InodeRef, root_inode_id}
use gitfs.Engine.{Hydrator, make_directory, rmdir, unlink, rename}
use gitfs.Fuse.{
  Call, ◌>>=◌, ◌>>◌, reply, update, run, DirHandle, estale, enoent, always_eio, enotempty_or_eio,
  enotsup_or_eio, require_inode, child_path, clean_child_path, alloc, dir_handle, add_dir_handle,
  close_cached_files_for_path, at_handle, gitfile_name,
}
use gitfs.Fuse.Attributes.{InodeAttributes, inode_attrs, mode_dir}

abbrev gitfile_entry : ReaddirEntry
gitfile_entry = record {
  name = gitfile_name;
  node_type = file;
  object_oid = [];
  size_state = unknown;
  size_bytes = 0;
}

unfoldable pub open_dir : ℕ → Call ℕ
unfolding require_inode add_dir_handle
open_dir id = do
  ref ← require_inode id estale
  entries ← run always_eio (readdir_typed ref.path)
  add_dir_handle
      (record { inode = ref; entries = if ref.is_root then gitfile_entry ∷ entries else entries })

pub data DirentType : Type 0 where
  dt_file dt_directory dt_link : DirentType

-- `fuseutil.Dirent`
pub record Dirent : Type 0 where
  pub offset : ℕ
  pub inode : ℕ
  pub name : Text
  pub dirent_type : DirentType

abbrev pub dirent_type_of : NodeType → DirentType
dirent_type_of NodeType.dir = dt_directory
dirent_type_of NodeType.symlink = dt_link
dirent_type_of _ = dt_file

abbrev pub dirent_at : ℕ → ReaddirEntry → Dirent
dirent_at i e = record {
  offset = i + 1;
  inode = root_inode_id + 1;
  name = e.name;
  dirent_type = dirent_type_of e.node_type;
}

-- `dirent_size` is what `fuseutil.WriteDirent` takes of the buffer for an entry, where it fits; it
-- writes nothing where the entry does not fit, and never gives 0 for one that it writes.
module _ (dirent_size : Dirent → ℕ) where
  -- The loop of `ReadDir` over the entries from index `i` on, with `space` bytes left in the buffer.
  unfoldable pub write_dirents : ℕ → ℕ → List ReaddirEntry → List Dirent
  write_dirents i space [] = []
  write_dirents i space (e ∷ es) =
      let n = dirent_size (dirent_at i e) in
      let rest = dirent_at i e ∷ write_dirents (suc i) (space - n) es in
      if leb n space then rest else []

  unfoldable pub read_dir : ℕ → ℕ → ℕ → Call (List Dirent)
  unfolding dir_handle write_dirents
  read_dir handle offset space = do
    dh ← dir_handle handle
    reply (write_dirents offset space (drop offset dh.entries))

unfoldable pub release_dir_handle : ℕ → Call (Unit {0})
unfolding at_handle
release_dir_handle handle =
    update (λ m. record m { dir_handles = at_handle handle none m.dir_handles })

module _ (h : Hydrator) (repo : RepoConfig) where
  -- The inode of the new directory and its attributes.
  unfoldable pub mk_dir : ℕ → Text → ℕ → ℕ → Call (ℕ × InodeAttributes)
  unfolding child_path
  mk_dir parent name mode now = do
    path ← child_path parent name
    run always_eio (make_directory h repo path mode now)
    ref ← alloc path dir mode
    reply (ref.id, inode_attrs (bit_or mode mode_dir) 4096 dir now now)

  unfoldable pub rm_dir : ℕ → Text → ℕ → Call (Unit {0})
  unfolding child_path
  rm_dir parent name now = do
    path ← child_path parent name
    run enotempty_or_eio (rmdir h repo path now)

  unfoldable pub unlink_child : ℕ → Text → ℕ → Call (Unit {0})
  unfolding child_path close_cached_files_for_path
  unlink_child parent name now = do
    path ← child_path parent name
    close_cached_files_for_path path
    run always_eio (unlink h repo path now)
    close_cached_files_for_path path

  unfoldable pub rename_child : ℕ → Text → ℕ → Text → ℕ → Call (Unit {0})
  unfolding require_inode clean_child_path close_cached_files_for_path
  rename_child old_parent old_name new_parent new_name now = do
    from ← require_inode old_parent enoent
    to ← require_inode new_parent enoent
    let old = clean_child_path from.path old_name
    let new = clean_child_path to.path new_name
    close_cached_files_for_path old
    close_cached_files_for_path new
    run enotsup_or_eio (rename h repo old new now)
    close_cached_files_for_path old
    close_cached_files_for_path new
