-- ===== src/Snapshot/Generations.antt =====
-- The statements of internal/snapshot/store.go by what they leave for a read of one generation.
use gitfs.Prelude.{
  ℕ, Text, text_eq, Bool, false, ◌&&◌, ◌||◌, Option, none, some, List, [], ◌∷◌, ◌≡◌, refl, arith,
  map, keep, any, ltb, ◌==◌, Bool-cases, inl, inr, if◌then◌else◌,
}
use gitfs.Prelude.Any.{any-keep, any-sort_by}
use gitfs.Model.{BaseNode, known}
use gitfs.Machine.{Row}
use gitfs.Path.Names.{parent_dir}
use gitfs.Snapshot.Rows.{find_row, delete_generation, delete_below, children, set_sizes}

pub find_row-delete_generation :
    (gen k : ℕ) (p : Text) (rs : List Row)
    → find_row k p (delete_generation gen rs) ≡ (if k == gen then none else find_row k p rs)
unfolding find_row delete_generation keep
find_row-delete_generation gen k p [] = ground arith
find_row-delete_generation gen k p (r ∷ rs) = ground (arith, find_row-delete_generation gen k p rs)

pub find_row-delete_below :
    (gen k : ℕ) (p : Text) (rs : List Row)
    → find_row k p (delete_below gen rs) ≡ (if ltb k gen then none else find_row k p rs)
unfolding find_row delete_below keep
find_row-delete_below gen k p [] = ground arith
find_row-delete_below gen k p (r ∷ rs) = ground (arith, find_row-delete_below gen k p rs)

-- The row that an insert adds.
abbrev pub row_of : ℕ → BaseNode → Row
row_of gen n = record { generation = gen; parent_path = parent_dir n.path; node = n }

-- The rows after one insert for each node, in order.
abbrev pub stack : ℕ → List BaseNode → List Row → List Row
stack gen [] rs = rs
stack gen (n ∷ ns) rs = stack gen ns (row_of gen n ∷ rs)

-- The node of a path among nodes: the last one that has the path, or the default.
abbrev pub node_at : Text → List BaseNode → Option BaseNode → Option BaseNode
node_at p [] o = o
node_at p (n ∷ ns) o = node_at p ns (if text_eq n.path p then some n else o)

pub find_row-stack :
    (gen k : ℕ) (p : Text) (ns : List BaseNode) (rs : List Row)
    → find_row k p (stack gen ns rs)
      ≡ (if k == gen then node_at p ns (find_row k p rs) else find_row k p rs)
unfolding find_row
find_row-stack gen k p [] rs = ground arith
find_row-stack gen k p (n ∷ ns) rs = elim (Bool-cases (text_eq n.path p)) [
  | inl h ↦ rw h (ground (arith, find_row-stack gen k p ns (row_of gen n ∷ rs), h))
  | inr h ↦ rw h (ground (arith, find_row-stack gen k p ns (row_of gen n ∷ rs), h))
]

-- A test on the rows of one generation.
abbrev pub of_generation : ℕ → (Row → Bool) → Row → Bool
of_generation g f r = r.generation == g && f r

pub any-delete_generation :
    (g : ℕ) (f : Row → Bool) (rs : List Row)
    → any (of_generation g f) (delete_generation g rs) ≡ false
unfolding any delete_generation keep
any-delete_generation g f [] = refl
any-delete_generation g f (r ∷ rs) = ground (arith, any-delete_generation g f rs)

pub any-delete_below :
    (g k : ℕ) (f : Row → Bool) (rs : List Row)
    → ltb k g ≡ false
    → any (of_generation k f) (delete_below g rs) ≡ any (of_generation k f) rs
unfolding any delete_below keep
any-delete_below g k f [] h = refl
any-delete_below g k f (r ∷ rs) h = ground (arith, any-delete_below g k f rs h)

pub any-stack :
    (g : ℕ) (f : Row → Bool) (ns : List BaseNode) (rs : List Row)
    → any (of_generation g f) (stack g ns rs)
      ≡ (any (λ n. f (row_of g n)) ns || any (of_generation g f) rs)
unfolding any
any-stack g f [] rs = refl
any-stack g f (n ∷ ns) rs = ground (arith, any-stack g f ns (row_of g n ∷ rs))

any-map :
    {A B : Type 0} (f : A → B) (q : B → Bool) (xs : List A)
    → any q (map f xs) ≡ any (λ x. q (f x)) xs
unfolding any
any-map f q [] = refl
any-map f q (x ∷ xs) = ground (arith, any-map f q xs)

pub any-children :
    (g : ℕ) (parent : Text) (q : BaseNode → Bool) (rs : List Row)
    → any q (children g parent rs)
      ≡ any (λ r. (r.generation == g && text_eq r.parent_path parent) && q r.node) rs
unfolding children
any-children g parent q rs =
    let under = λ (r : Row). r.generation == g && text_eq r.parent_path parent in
    ground (
      arith,
      any-sort_by (λ (n : BaseNode). n.path) q (map (λ (r : Row). r.node) (keep under rs)),
      any-map (λ (r : Row). r.node) q (keep under rs),
      any-keep (λ (r : Row). q r.node) under rs,
    )

-- What one UPDATE makes of a node.
abbrev pub with_size : Text → ℕ → BaseNode → BaseNode
with_size oid size n =
    if text_eq n.object_oid oid then record n { size_bytes = size; size_state = known } else n

abbrev pub mapped_node : (BaseNode → BaseNode) → Option BaseNode → Option BaseNode
mapped_node f none = none
mapped_node f (some n) = some (f n)

pub find_row-set_sizes :
    (gen k : ℕ) (oid p : Text) (size : ℕ) (rs : List Row)
    → find_row k p (set_sizes gen oid size rs)
      ≡ (if k == gen then mapped_node (with_size oid size) (find_row k p rs) else find_row k p rs)
unfolding find_row set_sizes
find_row-set_sizes gen k oid p size [] = ground arith
find_row-set_sizes gen k oid p size (r ∷ rs) =
    ground (arith, find_row-set_sizes gen k oid p size rs)
