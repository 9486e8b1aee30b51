-- ===== src/Model.antt =====
-- internal/model/types.go: the records that the stores exchange. `RepoID` is left out: each store
-- serves one repository. Sizes, modes and times are natural numbers.
use Prim.Native.Nat.{bit_and}
use gitfs.Prelude.{ℕ, Text, Bool, true, false, ◌&&◌, [], ◌==◌, if◌then◌else◌}

-- The values of `Type`; a zero `BaseNode` has the empty one.
pub data NodeType : Type 0 where
  unset file dir symlink : NodeType

pub data SizeState : Type 0 where
  unknown known : SizeState

pub record BaseNode : Type 0 where
  pub path : Text
  pub node_type : NodeType
  pub mode : ℕ
  pub object_oid : Text
  pub size_state : SizeState
  pub size_bytes : ℕ

pub data OverlayKind : Type 0 where
  create modify delete rename mkdir symlink : OverlayKind

pub record OverlayEntry : Type 0 where
  pub path : Text
  pub kind : OverlayKind
  pub backing_path : Text
  pub mode : ℕ
  pub size_bytes : ℕ
  pub mtime : ℕ
  pub ctime : ℕ
  pub source_oid : Text
  pub target_path : Text

-- Tests on the enumerations.
abbrev pub kind_eq : OverlayKind → OverlayKind → Bool
kind_eq create create = true
kind_eq modify modify = true
kind_eq delete delete = true
kind_eq rename rename = true
kind_eq mkdir mkdir = true
kind_eq OverlayKind.symlink OverlayKind.symlink = true
kind_eq _ _ = false

abbrev pub type_eq : NodeType → NodeType → Bool
type_eq unset unset = true
type_eq file file = true
type_eq dir dir = true
type_eq NodeType.symlink NodeType.symlink = true
type_eq _ _ = false

abbrev pub is_known : SizeState → Bool
is_known known = true
is_known unknown = false

abbrev pub is_deleted : OverlayEntry → Bool
is_deleted e = kind_eq e.kind delete

abbrev pub node_type_of : OverlayKind → NodeType
node_type_of mkdir = dir
node_type_of OverlayKind.symlink = NodeType.symlink
node_type_of _ = file

abbrev pub overlay_node_type : OverlayEntry → NodeType
overlay_node_type e = node_type_of e.kind

-- `BaseNode{}`
abbrev pub zero_node : BaseNode
zero_node = record {
  path = [];
  node_type = unset;
  mode = 0;
  object_oid = [];
  size_state = unknown;
  size_bytes = 0;
}

pub record RepoConfig : Type 0 where
  pub upper_dir : Text
  pub blob_cache_dir : Text
  pub git_dir : Text

-- `normalizeGitDirMode` of internal/overlay/store.go: the mode, and whether it was changed.
unfoldable pub normalize_git_dir_mode : ℕ → ℕ × Bool
normalize_git_dir_mode mode =
    if bit_and mode 0o170000 == 0o40000 && bit_and mode 0o777 == 0
    then (0o755, true)
    else (mode, false)
