-- ===== src/Fuse/Attributes.antt =====
-- The operations of internal/fusefs/fuse_unix.go on attributes, and LookUpInode. A time to live is in
-- seconds; the time of the call is `now`, in nanoseconds.
use Prim.Native.Nat.{bit_and, bit_or}
use gitfs.Prelude.{
  ℕ, Text, text_eq, Bool, not, ◌&&◌, Option, none, some, [], length, ◌==◌, if◌then◌else◌,
}
use gitfs.Model.{BaseNode, NodeType, RepoConfig, file, dir, type_eq, is_known}
use gitfs.Machine.{Exec}
use gitfs.Machine
use gitfs.Resolver.{
  Attrs, in_overlay, in_base, resolve_path, getattr, overlay_attrs, base_attrs, base_time,
}
use gitfs.Inodes.{InodeRef, forget_inode}
use gitfs.Engine.{Hydrator, truncate, set_mtime}
use gitfs.Fuse.{
  Call, ◌>>=◌, ◌>>◌, reply, update, run, Mount, Reply, done, failed, estale, enoent, always_eio,
  enoent_or_eio, enotsup_or_eio, require_inode, clean_child_path, alloc,
  close_cached_files_for_path, gitfile_content, gitfile_name,
}

-- `fuseops.InodeAttributes`; the access time is the modification time, and the user and the group
-- are those of the process.
pub record InodeAttributes : Type 0 where
  pub size : ℕ
  pub nlink : ℕ
  pub mode : ℕ
  pub mtime : ℕ
  pub ctime : ℕ

-- os.ModeDir and os.ModeSymlink
abbrev pub mode_dir : ℕ
mode_dir = 0x80000000

abbrev pub mode_symlink : ℕ
mode_symlink = 0x8000000

abbrev pub type_bits : NodeType → ℕ → ℕ
type_bits NodeType.dir m = bit_or m mode_dir
type_bits NodeType.symlink m = bit_or m mode_symlink
type_bits _ m = m

unfoldable pub inode_attrs : ℕ → ℕ → NodeType → ℕ → ℕ → InodeAttributes
inode_attrs mode size type mtime ctime = record {
  size = if type_eq type dir && size == 0 then 4096 else size;
  nlink = 1;
  mode = type_bits type (bit_and mode 0o777);
  mtime = mtime;
  ctime = ctime;
}

abbrev pub attrs_of : Attrs → InodeAttributes
attrs_of a = inode_attrs a.mode a.size a.node_type a.mtime a.ctime

-- Attributes with the seconds that the kernel may keep them.
abbrev pub Timed : Type 0
Timed = InodeAttributes × ℕ

abbrev second : ℕ
second = 1

abbrev minute : ℕ
minute = 60

-- Whether the size of a node is only known once its blob is there.
abbrev pub lacks_size : BaseNode → Bool
lacks_size n =
    type_eq n.node_type file && (not (is_known n.size_state) && not (text_eq n.object_oid []))

module _ (h : Hydrator) (repo : RepoConfig) where
  unfoldable pub git_file_attrs : ℕ → InodeAttributes
  git_file_attrs now = record {
    size = length (gitfile_content repo.git_dir);
    nlink = 1;
    mode = 0o644;
    mtime = now;
    ctime = now;
  }

  abbrev pub base_resolved : BaseNode → Exec Attrs
  base_resolved n =
      if lacks_size n
      then Machine.◌>>=◌ (h.ensure_hydrated n)
          (λ (_, size). Machine.gets (λ w. record (base_attrs n (base_time w)) { size = size }))
      else Machine.gets (λ w. base_attrs n (base_time w))

  unfoldable pub resolve_attrs : Text → Exec Attrs
  resolve_attrs path =
      Machine.◌>>=◌ (resolve_path path) (λ n. elim n [
        | in_overlay e ↦ Machine.pure (overlay_attrs e)
        | in_base b ↦ base_resolved b
      ])

  -- The inode with its attributes.
  unfoldable pub look_up_inode : ℕ → Text → ℕ → Call (ℕ × Timed)
  unfolding require_inode clean_child_path git_file_attrs
  look_up_inode parent_id name now = do
    parent ← require_inode parent_id enoent
    if parent.is_root && text_eq name gitfile_name
        then (do ref ← alloc gitfile_name file 0o644; reply (ref.id, (git_file_attrs now, minute)))
        else (do
          a ← run enoent_or_eio (resolve_attrs (clean_child_path parent.path name))
          ref ← alloc (clean_child_path parent.path name) a.node_type a.mode
          reply (ref.id, (attrs_of a, second)))

  -- The attributes that the root falls back on.
  abbrev root_reply : InodeRef → ℕ → Reply Attrs × Mount → Reply Timed × Mount
  root_reply ref now (done a, m) = (done (attrs_of a, second), m)
  root_reply ref now (failed e, m) = (done (inode_attrs ref.mode 4096 dir now now, second), m)

  unfoldable pub get_inode_attributes : ℕ → ℕ → Call Timed
  unfolding require_inode git_file_attrs
  get_inode_attributes id now = do
    ref ← require_inode id estale
    if ref.is_root
        then (λ m. root_reply ref now (run always_eio (getattr ref.path) m))
        else if text_eq ref.path gitfile_name
        then reply (git_file_attrs now, minute)
        else (do a ← run enoent_or_eio (resolve_attrs ref.path); reply (attrs_of a, second))

  abbrev pub set_size : Text → ℕ → Option ℕ → Call (Unit {0})
  set_size path now none = reply tt
  set_size path now (some size) = do
    close_cached_files_for_path path
    run always_eio (truncate h repo path size now)
    close_cached_files_for_path path

  abbrev pub set_time : Text → ℕ → Option ℕ → Call (Unit {0})
  set_time path now none = reply tt
  set_time path now (some t) = do
    close_cached_files_for_path path
    run enotsup_or_eio (set_mtime h repo path t now)
    close_cached_files_for_path path

  unfoldable pub set_inode_attributes : ℕ → Option ℕ → Option ℕ → ℕ → Call Timed
  unfolding require_inode close_cached_files_for_path
  set_inode_attributes id size mtime now = do
    ref ← require_inode id estale
    set_size ref.path now size
    set_time ref.path now mtime
    a ← run always_eio (getattr ref.path)
    reply (attrs_of a, second)

-- `ForgetInode`
unfoldable pub forget : ℕ → ℕ → Call (Unit {0})
forget id n = update (λ m. record m { table = forget_inode id n m.table })
