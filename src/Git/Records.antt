-- ===== src/Git/Records.antt =====
-- What internal/gitstore/gitstore.go reads of the output of git ls-tree and git cat-file.
use Prim.Native.Nat.{bit_and}
use gitfs.Prelude.{
  ℕ, zero, suc, ◌+◌, ◌-◌, ◌*◌, Text, bytes, text_eq, Bool, true, false, not, ◌&&◌, Option, none,
  some, List, [], ◌∷◌, ◌++◌, keep, length, take, drop, ltb, leb, ◌==◌, if◌then◌else◌,
}
use gitfs.Strings.{fields, index_byte}
use gitfs.Strings.Search.{split_byte}
use gitfs.Model.{BaseNode, NodeType, file, dir, known, unknown}
use gitfs.Path.{dot}

unfoldable pub root_node : BaseNode
root_node = record {
  path = dot;
  node_type = dir;
  mode = 0o755;
  object_oid = [];
  size_state = known;
  size_bytes = 0;
}

unfoldable pub normalize_git_type : Text → ℕ → NodeType
normalize_git_type type mode =
    if bit_and mode 0o170000 == 0o120000
    then NodeType.symlink
    else if text_eq type (bytes "tree")
    then dir
    else file

-- The records of `readNullDelimited`, for an output that is read to its end.
unfoldable pub read_null_delimited : Text → List Text
read_null_delimited out = keep (λ record_. not (text_eq record_ [])) (split_byte 0 out)

-- The loop of strconv.ParseUint over the digits of a base. A text that is no number gives 0, and one
-- that is too large gives the largest value, as the error is not looked at.
unfoldable pub parse_digits : ℕ → ℕ → ℕ → Text → Option ℕ
parse_digits base max acc [] = some acc
parse_digits base max acc (b ∷ t) =
    let next = acc * base + (b - b'0') in
    let rest = parse_digits base max next t in
    if leb b'0' b && ltb (b - b'0') base then (if ltb max next then some max else rest) else none

abbrev or_zero : Option ℕ → ℕ
or_zero none = 0
or_zero (some n) = n

-- strconv.ParseUint(s, 8, 32)
unfoldable pub parse_mode : Text → ℕ
unfolding parse_digits
parse_mode s = if text_eq s [] then 0 else or_zero (parse_digits 8 4294967295 0 s)

abbrev tree_node : Text → Text → Text → Text → BaseNode
tree_node mode type oid path = record {
  path = path;
  node_type = normalize_git_type type (parse_mode mode);
  mode = parse_mode mode;
  object_oid = oid;
  size_state = unknown;
  size_bytes = 0;
}

abbrev from_meta : List Text → Text → Option (BaseNode × Text)
from_meta (mode ∷ (type ∷ (oid ∷ more))) path =
    if text_eq type (bytes "commit") then none else some (tree_node mode type oid path, type)
from_meta _ path = none

-- The node and git's type of the object.
unfoldable pub parse_tree_record : Text → Option (BaseNode × Text)
unfolding normalize_git_type parse_mode
parse_tree_record line = elim (index_byte b'\t' line) [
  | none ↦ none
  | some i ↦ from_meta (fields (take i line)) (drop (i + 1) line)
]

-- The variables of the callback in `BuildTreeIndex`.
pub record TreeIndex : Type 0 where
  pub nodes : List BaseNode
  pub blob_oids : List Text
  pub blob_index : Text → List ℕ

abbrev pub new_index : TreeIndex
new_index = record { nodes = root_node ∷ []; blob_oids = []; blob_index = λ o. [] }

abbrev is_first : List ℕ → Bool
is_first [] = true
is_first (i ∷ is) = false

abbrev pub with_blob : Text → ℕ → TreeIndex → TreeIndex
with_blob oid i t = record t {
  blob_oids = if is_first (t.blob_index oid) then t.blob_oids ++ (oid ∷ []) else t.blob_oids;
  blob_index = λ o. if text_eq oid o then t.blob_index o ++ (i ∷ []) else t.blob_index o;
}

abbrev pub with_node : BaseNode → Text → TreeIndex → TreeIndex
with_node n type t =
    let added : TreeIndex = record t { nodes = t.nodes ++ (n ∷ []) } in
    if text_eq type (bytes "blob") && not (text_eq n.object_oid [])
    then with_blob n.object_oid (length t.nodes) added
    else added

unfoldable pub index_record : TreeIndex → Text → TreeIndex
unfolding parse_tree_record
index_record t line = elim (parse_tree_record line) [
  | none ↦ t
  | some (n, type) ↦ with_node n type t
]

unfoldable pub index_records : TreeIndex → List Text → TreeIndex
unfolding index_record
index_records t [] = t
index_records t (line ∷ lines) = index_records (index_record t line) lines

-- nodes[i] with its size, which is known then.
unfoldable pub set_size_at : ℕ → ℕ → List BaseNode → List BaseNode
set_size_at i size [] = []
set_size_at zero size (n ∷ ns) = record n { size_bytes = size; size_state = known } ∷ ns
set_size_at (suc i) size (n ∷ ns) = n ∷ set_size_at i size ns

unfoldable pub set_sizes_at : List ℕ → ℕ → List BaseNode → List BaseNode
unfolding set_size_at
set_sizes_at [] size ns = ns
set_sizes_at (i ∷ is) size ns = set_sizes_at is size (set_size_at i size ns)

-- strconv.ParseInt(s, 10, 64) of a size, which has no sign; an error leaves the node as it is, and a
-- number that is too large is an error.
abbrev below_limit : Option ℕ → Option ℕ
below_limit none = none
below_limit (some n) = if ltb 9223372036854775807 n then none else some n

unfoldable pub parse_size : Text → Option ℕ
unfolding parse_digits
parse_size s = if text_eq s [] then none else below_limit (parse_digits 10 9223372036854775808 0 s)

abbrev apply_fields : List BaseNode → (Text → List ℕ) → List Text → List BaseNode
apply_fields nodes index (oid ∷ (type ∷ (size ∷ more))) = elim (parse_size size) [
  | none ↦ nodes
  | some n ↦ set_sizes_at (index oid) n nodes
]
apply_fields nodes index _ = nodes

unfoldable pub apply_batch_check_line : List BaseNode → (Text → List ℕ) → Text → List BaseNode
unfolding parse_size set_sizes_at
apply_batch_check_line nodes index line = apply_fields nodes index (fields line)

-- `batchPool`: the processes that wait for the next use, the last one first out. A process is a
-- number, and `alive` is what `b.alive()` gives; none of `acquire` is a new process.
pub record BatchPool : Type 0 where
  pub free : List ℕ
  pub max_size : ℕ

unfoldable pub split_last : ℕ → List ℕ → List ℕ × ℕ
split_last b [] = ([], b)
split_last b (c ∷ cs) = let (front, last) = split_last c cs in (b ∷ front, last)

abbrev reused : (ℕ → Bool) → List ℕ × ℕ → BatchPool → Option ℕ × BatchPool
reused alive (front, b) p = (if alive b then some b else none, record p { free = front })

abbrev take_free : (ℕ → Bool) → List ℕ → BatchPool → Option ℕ × BatchPool
take_free alive [] p = (none, p)
take_free alive (b ∷ bs) p = reused alive (split_last b bs) p

unfoldable pub acquire : (ℕ → Bool) → BatchPool → Option ℕ × BatchPool
unfolding split_last
acquire alive p = take_free alive p.free p

unfoldable pub release : (ℕ → Bool) → ℕ → BatchPool → BatchPool
release alive b p =
    if alive b && ltb (length p.free) p.max_size then record p { free = p.free ++ (b ∷ []) } else p

unfoldable pub close_all : BatchPool → BatchPool
close_all p = record p { free = [] }

unfoldable pub set_max_size : ℕ → BatchPool → BatchPool
set_max_size n p = record p { max_size = n; free = take n p.free }
