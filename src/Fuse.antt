-- ===== src/Fuse.antt =====
-- The state of `ArtifactFuse` in internal/fusefs/fuse_unix.go, and what its operations share. The
-- inode table is that of Inodes.antt; the maps of handles are functions.
pub mod Handle
pub mod Attributes
pub mod Directories
pub mod Files
use gitfs.Prelude.{
  ℕ, suc, Text, bytes, text_eq, Bool, Option, none, some, List, [], ◌++◌, ◌==◌, if◌then◌else◌, ◌∷◌,
}
use gitfs.Errors.{Error, Result, ok, err, not_exist, exist, invalid}
use gitfs.Model.{NodeType}
use gitfs.Machine.{World, Exec}
use gitfs.Path.{clean_path, join}
use gitfs.Resolver.Dirents.{ReaddirEntry}
use gitfs.Inodes.{InodeRef, InodeTable, new_table, alloc_inode}
use Handle.{FileHandle, close_cached_file}

pub data Errno : Type 0 where
  enoent estale ebadf eio enotempty enotsup enametoolong enosys : Errno

-- The error of a FUSE operation for one of the engine.
abbrev pub always_eio : Error → Errno
always_eio e = eio

abbrev pub enoent_or_eio : Error → Errno
enoent_or_eio not_exist = enoent
enoent_or_eio _ = eio

abbrev pub enotsup_or_eio : Error → Errno
enotsup_or_eio invalid = enotsup
enotsup_or_eio _ = eio

abbrev pub enotempty_or_eio : Error → Errno
enotempty_or_eio exist = enotempty
enotempty_or_eio _ = eio

pub record DirHandle : Type 0 where
  pub inode : InodeRef
  pub entries : List ReaddirEntry

pub record Mount : Type 0 where
  pub table : InodeTable
  pub dir_handles : ℕ → Option DirHandle
  pub file_handles : ℕ → Option FileHandle
  pub next_handle_id : ℕ
  pub world : World

-- `NewArtifactFuse`
abbrev pub new_mount : World → Mount
new_mount w = record {
  table = new_table;
  dir_handles = λ i. none;
  file_handles = λ i. none;
  next_handle_id = 1;
  world = w;
}

pub data Reply {ℓ} (A : Type ℓ) : Type ℓ where
  done : A → Reply A
  failed : Errno → Reply A

abbrev pub Call : Type 0 → Type 0
Call A = Mount → Reply A × Mount

abbrev pub continue : {A B : Type 0} → Reply A × Mount → (A → Call B) → Reply B × Mount
continue (done a, m) f = f a m
continue (failed e, m) f = (failed e, m)

infixl 5 ◌>>=◌ ◌>>◌
abbrev pub ◌>>=◌ : {A B : Type 0} → Call A → (A → Call B) → Call B
◌>>=◌ c f m = continue (c m) f

abbrev pub ◌>>◌ : {B : Type 0} → Call (Unit {0}) → Call B → Call B
c >> k = c >>= λ _. k

abbrev pub reply : {A : Type 0} → A → Call A
reply a m = (done a, m)

abbrev pub fail : {A : Type 0} → Errno → Call A
fail e m = (failed e, m)

abbrev pub gets : {A : Type 0} → (Mount → A) → Call A
gets f m = (done (f m), m)

abbrev pub update : (Mount → Mount) → Call (Unit {0})
update f m = (done tt, f m)

abbrev ran : {A : Type 0} → (Error → Errno) → Mount → Result A × World → Reply A × Mount
ran errno m (ok a, w) = (done a, record m { world = w })
ran errno m (err e, w) = (failed (errno e), record m { world = w })

-- A call of the engine or the resolver, and the operation's error for an error of it.
abbrev pub run : {A : Type 0} → (Error → Errno) → Exec A → Call A
run errno c m = ran errno m (c m.world)

-- handles[id] = h, and delete(handles, id)
unfoldable pub at_handle : {A : Type 0} → ℕ → Option A → (ℕ → Option A) → ℕ → Option A
at_handle id v f i = if id == i then v else f i

abbrev pub or_fail : {A : Type 0} → Errno → Option A → Call A
or_fail e none = fail e
or_fail e (some a) = reply a

unfoldable pub require_inode : ℕ → Errno → Call InodeRef
require_inode id missing = do found ← gets (λ m. m.table.inodes id); or_fail missing found

unfoldable pub clean_child_path : Text → Text → Text
clean_child_path parent name = clean_path (join parent name)

-- The inode itself is not used by the callers.
unfoldable pub child_path : ℕ → Text → Call Text
unfolding require_inode clean_child_path
child_path parent name = do
  ref ← require_inode parent enoent
  reply (clean_child_path ref.path name)

unfoldable pub dir_handle : ℕ → Call DirHandle
dir_handle id = do found ← gets (λ m. m.dir_handles id); or_fail ebadf found

unfoldable pub file_handle : ℕ → Call FileHandle
file_handle id = do found ← gets (λ m. m.file_handles id); or_fail ebadf found

-- `fs.allocInode` under the lock.
abbrev pub alloc : Text → NodeType → ℕ → Call InodeRef
alloc path type mode m = (
  done (alloc_inode path type mode m.table).0,
  record m { table = (alloc_inode path type mode m.table).1 },
)

abbrev pub closed_for : Text → Option FileHandle → Option FileHandle
closed_for path none = none
closed_for path (some fh) = some (if text_eq fh.path path then close_cached_file fh else fh)

unfoldable pub close_cached_files_for_path : Text → Call (Unit {0})
unfolding close_cached_file
close_cached_files_for_path path =
    update (λ m. record m { file_handles = λ i. closed_for path (m.file_handles i) })

-- The next handle, under which the file is stored.
unfoldable pub add_file_handle : FileHandle → Call ℕ
unfolding at_handle
add_file_handle fh m = (
  done m.next_handle_id,
  record m {
    file_handles = at_handle m.next_handle_id (some fh) m.file_handles;
    next_handle_id = suc m.next_handle_id;
  },
)

unfoldable pub add_dir_handle : DirHandle → Call ℕ
unfolding at_handle
add_dir_handle dh m = (
  done m.next_handle_id,
  record m {
    dir_handles = at_handle m.next_handle_id (some dh) m.dir_handles;
    next_handle_id = suc m.next_handle_id;
  },
)

-- `gitfileContent`
abbrev pub gitfile_content : Text → Text
gitfile_content git_dir = bytes "gitdir: " ++ (git_dir ++ (b'\n' ∷ []))

abbrev pub gitfile_name : Text
gitfile_name = bytes ".git"
