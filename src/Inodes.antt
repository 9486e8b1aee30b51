-- ===== src/Inodes.antt =====
-- The inode table of internal/fusefs/fuse_unix.go.
pub mod Bijection
use gitfs.Prelude.{
  ℕ, suc, ◌+◌, Text, text_eq, Bool, true, false, not, ◌&&◌, Option, none, some, ◌==◌, leb,
  if◌then◌else◌,
}
use gitfs.Model.{NodeType, dir}
use gitfs.Path.{dot}

-- `Refcnt` is `looked_up - forgotten`, which may be negative for the root.
pub record InodeRef : Type 0 where
  pub id : ℕ
  pub path : Text
  pub node_type : NodeType
  pub mode : ℕ
  pub looked_up : ℕ
  pub forgotten : ℕ
  pub is_root : Bool

pub record InodeTable : Type 0 where
  pub inodes : ℕ → Option InodeRef
  pub path_to_inode : Text → Option ℕ
  pub next_inode_id : ℕ

-- `fuseops.RootInodeID`
abbrev pub root_inode_id : ℕ
root_inode_id = 1

-- m[id] = ref, and delete(m, id)
unfoldable pub at_id : ℕ → Option InodeRef → (ℕ → Option InodeRef) → ℕ → Option InodeRef
at_id id v f i = if id == i then v else f i

unfoldable pub at_path : Text → Option ℕ → (Text → Option ℕ) → Text → Option ℕ
at_path p v f q = if text_eq p q then v else f q

abbrev pub root : InodeRef
root = record {
  id = root_inode_id;
  path = dot;
  node_type = dir;
  mode = 0o755;
  looked_up = 1;
  forgotten = 0;
  is_root = true;
}

-- The table of `NewArtifactFuse`.
unfoldable pub new_table : InodeTable
unfolding at_id at_path
new_table = record {
  inodes = at_id root_inode_id (some root) (λ i. none);
  path_to_inode = at_path dot (some root_inode_id) (λ p. none);
  next_inode_id = suc root_inode_id;
}

-- The two ends of `allocInode`, each with the inode that it gives.
unfoldable pub reuse : InodeRef → ℕ → InodeTable → InodeRef × InodeTable
unfolding at_id
reuse ref id t =
    let again : InodeRef = record ref { looked_up = suc ref.looked_up } in
    (again, record t { inodes = at_id id (some again) t.inodes })

unfoldable pub fresh_inode : Text → NodeType → ℕ → InodeTable → InodeRef × InodeTable
unfolding at_id at_path
fresh_inode path type mode t =
    let ref : InodeRef = record {
      id = t.next_inode_id;
      path = path;
      node_type = type;
      mode = mode;
      looked_up = 1;
      forgotten = 0;
      is_root = false;
    } in
    (
      ref,
      record {
        inodes = at_id t.next_inode_id (some ref) t.inodes;
        path_to_inode = at_path path (some t.next_inode_id) t.path_to_inode;
        next_inode_id = suc t.next_inode_id;
      },
    )

abbrev pub alloc_ref :
    Option InodeRef → ℕ → Text → NodeType → ℕ → InodeTable → InodeRef × InodeTable
alloc_ref (some ref) id path type mode t = reuse ref id t
alloc_ref none id path type mode t = fresh_inode path type mode t

abbrev pub alloc_id : Option ℕ → Text → NodeType → ℕ → InodeTable → InodeRef × InodeTable
alloc_id none path type mode t = fresh_inode path type mode t
alloc_id (some id) path type mode t = alloc_ref (t.inodes id) id path type mode t

unfoldable pub alloc_inode : Text → NodeType → ℕ → InodeTable → InodeRef × InodeTable
alloc_inode path type mode t = alloc_id (t.path_to_inode path) path type mode t

-- `ForgetInode` of `n` references to an inode that the table has.
unfoldable pub forget_ref : InodeRef → ℕ → ℕ → InodeTable → InodeTable
unfolding at_id at_path
forget_ref ref id n t =
    let left : InodeRef = record ref { forgotten = ref.forgotten + n } in
    if leb left.looked_up left.forgotten && not ref.is_root
    then record t {
      inodes = at_id id none t.inodes;
      path_to_inode = at_path ref.path none t.path_to_inode;
    }
    else record t { inodes = at_id id (some left) t.inodes }

abbrev pub forget_found : Option InodeRef → ℕ → ℕ → InodeTable → InodeTable
forget_found none id n t = t
forget_found (some ref) id n t = forget_ref ref id n t

unfoldable pub forget_inode : ℕ → ℕ → InodeTable → InodeTable
forget_inode id n t = forget_found (t.inodes id) id n t
