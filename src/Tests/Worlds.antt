-- ===== src/Tests/Worlds.antt =====
-- Concrete repositories, snapshots and disks for the runs.
use gitfs.Prelude.{ℕ, Text, bytes, false, some, List, [], ◌∷◌}
use gitfs.Model.{
  OverlayEntry, OverlayKind, BaseNode, NodeType, RepoConfig, modify, delete, file, dir, known,
  mkdir,
}
use gitfs.Machine.{World, DiskNode, Snapshot, Row, pure}
use gitfs.Engine.{Hydrator}

abbrev pub repo : RepoConfig
repo = record { upper_dir = bytes "/u"; blob_cache_dir = bytes "/c"; git_dir = bytes "/g" }

-- A hydrator that has every blob in one cache file.
abbrev pub hydrator : Hydrator
hydrator = record { ensure_hydrated = λ n. pure (bytes "/c/blob", 0) }

abbrev pub node : Text → NodeType → Text → BaseNode
node path type oid = record {
  path = path;
  node_type = type;
  mode = 0o644;
  object_oid = oid;
  size_state = known;
  size_bytes = 3;
}

abbrev pub row : ℕ → Text → BaseNode → Row
row gen parent n = record { generation = gen; parent_path = parent; node = n }

-- A snapshot with the file "a" and the directory "d".
abbrev pub two_nodes : List BaseNode
two_nodes = node (bytes "a") file (bytes "f0") ∷ (node (bytes "d") dir [] ∷ [])

abbrev pub snapshot : Snapshot
snapshot = record {
  current_generation = some 1;
  head_oid = some (bytes "c1");
  head_ref = some (bytes "main");
  base_nodes =
      row 1 (bytes ".") (node (bytes "a") file (bytes "f0"))
      ∷ (row 1 (bytes ".") (node (bytes "d") dir []) ∷ []);
}

abbrev pub world : List OverlayEntry → List DiskNode → World
world table disk = record {
  table = table;
  disk = disk;
  snapshot = snapshot;
  generation = 1;
  commit_time = 7;
  trouble = [];
}

abbrev pub clean_world : World
clean_world = world [] []

abbrev pub entry : Text → OverlayKind → Text → Text → OverlayEntry
entry path kind backing oid = record {
  path = path;
  kind = kind;
  backing_path = backing;
  mode = 0o644;
  size_bytes = 2;
  mtime = 1;
  ctime = 1;
  source_oid = oid;
  target_path = [];
}

abbrev pub modified_a : OverlayEntry
modified_a = entry (bytes "a") modify (bytes "/u/a") (bytes "f0")

abbrev pub deleted_b : OverlayEntry
deleted_b = entry (bytes "b") delete [] []

abbrev pub directory_d : OverlayEntry
directory_d = entry (bytes "d") mkdir (bytes "/u/d") []

abbrev pub disk_file : Text → Text → DiskNode
disk_file name content = record { name = name; is_dir = false; mode = 0o644; content = content }

-- "a" was written.
abbrev pub dirty_world : World
dirty_world = world (modified_a ∷ []) (disk_file (bytes "/u/a") (bytes "hi") ∷ [])

-- "a" was written, and "b" was removed.
abbrev pub busy_world : World
busy_world = world (modified_a ∷ (deleted_b ∷ [])) (disk_file (bytes "/u/a") (bytes "hi") ∷ [])

-- "d" was made in the overlay too.
abbrev pub directory_world : World
directory_world = world (directory_d ∷ []) []
