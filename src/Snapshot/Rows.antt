-- ===== src/Snapshot/Rows.antt =====
-- The SQL statements of internal/snapshot/store.go, on the rows of `base_nodes`.
use gitfs.Prelude.{
  ℕ, Text, text_eq, Bool, not, ◌&&◌, Option, none, some, List, [], ◌∷◌, map, keep, sort_by, ltb,
  ◌==◌, if◌then◌else◌,
}
use gitfs.Model.{BaseNode, known}
use gitfs.Machine.{Row}

abbrev pub is_row : ℕ → Text → Row → Bool
is_row gen p r = r.generation == gen && text_eq r.node.path p

-- SELECT … WHERE generation=? AND path=?
unfoldable pub find_row : ℕ → Text → List Row → Option BaseNode
find_row gen p [] = none
find_row gen p (r ∷ rs) = if is_row gen p r then some r.node else find_row gen p rs

-- DELETE … WHERE generation=?
unfoldable pub delete_generation : ℕ → List Row → List Row
unfolding keep
delete_generation gen rs = keep (λ r. not (r.generation == gen)) rs

-- DELETE … WHERE generation < ?
unfoldable pub delete_below : ℕ → List Row → List Row
unfolding keep
delete_below gen rs = keep (λ r. not (ltb r.generation gen)) rs

-- SELECT … WHERE generation=? AND parent_path=? ORDER BY path
unfoldable pub children : ℕ → Text → List Row → List BaseNode
unfolding keep sort_by
children gen parent rs =
    sort_by (λ (n : BaseNode). n.path)
      (map (λ (r : Row). r.node)
        (keep (λ r. r.generation == gen && text_eq r.parent_path parent) rs))

-- UPDATE … SET size_bytes=?, size_state='known' WHERE generation=? AND object_oid=?
abbrev pub sized : ℕ → Text → ℕ → Row → Row
sized gen oid size r =
    if r.generation == gen && text_eq r.node.object_oid oid
    then record r { node = record (r.node) { size_bytes = size; size_state = known } }
    else r

unfoldable pub set_sizes : ℕ → Text → ℕ → List Row → List Row
set_sizes gen oid size [] = []
set_sizes gen oid size (r ∷ rs) = sized gen oid size r ∷ set_sizes gen oid size rs
