-- ===== src/Resolver/Dirents.antt =====
-- The map from names to directory entries in `ReaddirTyped` of internal/fusefs/merged.go.
use gitfs.Prelude.{ℕ, Text, text_eq, not, List, [], ◌∷◌, keep, if◌then◌else◌}
use gitfs.Model.{OverlayEntry, BaseNode, NodeType, SizeState, unknown, overlay_node_type}
use gitfs.Path.{dot}
use gitfs.Path.Names.{base}

pub record ReaddirEntry : Type 0 where
  pub name : Text
  pub node_type : NodeType
  pub object_oid : Text
  pub size_state : SizeState
  pub size_bytes : ℕ

-- delete(set, name)
unfoldable pub without : Text → List ReaddirEntry → List ReaddirEntry
unfolding keep
without name set = keep (λ d. not (text_eq d.name name)) set

-- set[name] = …
unfoldable pub put_entry : ReaddirEntry → List ReaddirEntry → List ReaddirEntry
unfolding without
put_entry d set = d ∷ without d.name set

abbrev pub base_entry : BaseNode → ReaddirEntry
base_entry n = record {
  name = base n.path;
  node_type = n.node_type;
  object_oid = n.object_oid;
  size_state = n.size_state;
  size_bytes = n.size_bytes;
}

-- The entry of an overlay row has the zero `BaseNode`.
abbrev pub overlay_entry : Text → OverlayEntry → ReaddirEntry
overlay_entry name e = record {
  name = name;
  node_type = overlay_node_type e;
  object_oid = [];
  size_state = unknown;
  size_bytes = 0;
}

-- The loop over the snapshot's children, from the set that is built so far.
unfoldable pub add_base : List BaseNode → List ReaddirEntry → List ReaddirEntry
unfolding put_entry
add_base [] set = set
add_base (n ∷ ns) set =
    add_base ns (if text_eq (base n.path) dot then set else put_entry (base_entry n) set)

abbrev pub base_entries : List BaseNode → List ReaddirEntry
base_entries nodes = add_base nodes []
