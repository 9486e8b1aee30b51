-- ===== src/Inodes/Bijection.antt =====
-- Inodes and paths of internal/fusefs/fuse_unix.go stand for each other, after any number of
-- lookups and forgets.
use gitfs.Prelude.{
  ℕ, ◌<◌, Text, text_eq_iff, text_eq_refl, Bool, true, false, Option, none, some, ◌≡◌, refl, arith,
  Option-cases, inl, inr,
}
use gitfs.Model.{NodeType}
use gitfs.Path.{dot}
use gitfs.Inodes.{
  InodeRef, InodeTable, root_inode_id, at_id, at_path, new_table, reuse, fresh_inode, alloc_inode,
  forget_inode, forget_ref, forget_found, alloc_ref, alloc_id,
}

abbrev pub path_of : Option InodeRef → Option Text
path_of none = none
path_of (some r) = some r.path

abbrev pub is_root_ref : Option InodeRef → Bool
is_root_ref none = false
is_root_ref (some r) = r.is_root

pub record IsSound (t : InodeTable) : Type 0 where
  pub named :
      (i : ℕ) (r : InodeRef) → t.inodes i ≡ some r → (t.path_to_inode r.path ≡ some i) × (r.id ≡ i)
  pub known : (p : Text) (i : ℕ) → t.path_to_inode p ≡ some i → path_of (t.inodes i) ≡ some p
  pub below : (i : ℕ) (r : InodeRef) → t.inodes i ≡ some r → i < t.next_inode_id
  pub rooted : is_root_ref (t.inodes root_inode_id) ≡ true
  pub root_path : path_of (t.inodes root_inode_id) ≡ some dot

new_table-IsSound : IsSound new_table
unfolding new_table at_id at_path
new_table-IsSound = record {
  named = λ i r h. ground (arith, text_eq_refl dot);
  known = λ p i h. ground (arith, text_eq_iff dot p);
  below = λ i r h. ground arith;
  rooted = refl;
  root_path = refl;
}

reuse-IsSound :
    (r : InodeRef) (i : ℕ) (t : InodeTable)
    → IsSound t
    → t.inodes i ≡ some r
    → IsSound (reuse r i t).1
unfolding reuse at_id
reuse-IsSound r i t v e = record {
  named = λ j s h. ground (arith, v.named j s, v.named i r e);
  known = λ p j h. ground (arith, v.known p j);
  below = λ j s h. ground (arith, v.below j s, v.below i r e);
  rooted = ground (arith, v.rooted);
  root_path = ground (arith, v.root_path);
}

unused_id : (t : InodeTable) → IsSound t → t.inodes t.next_inode_id ≡ none
unused_id t v = elim (Option-cases (t.inodes t.next_inode_id)) [
  | inl e ↦ e
  | inr (r, e) ↦ absurd (ground (arith, v.below t.next_inode_id r e))
]

fresh_inode-IsSound :
    (path : Text) (type : NodeType) (mode : ℕ) (t : InodeTable)
    → IsSound t
    → t.path_to_inode path ≡ none
    → IsSound (fresh_inode path type mode t).1
unfolding fresh_inode at_id at_path
fresh_inode-IsSound path type mode t v free = record {
  named =
      λ j s h. ground (arith, v.named j s, v.below j s, text_eq_iff path s.path, text_eq_refl path);
  known = λ p j h. ground (arith, v.known p j, unused_id t v, text_eq_iff path p);
  below = λ j s h. ground (arith, v.below j s);
  rooted = ground (arith, v.rooted, unused_id t v);
  root_path = ground (arith, v.root_path, unused_id t v);
}

forget_ref-IsSound :
    (r : InodeRef) (id n : ℕ) (t : InodeTable)
    → IsSound t
    → t.inodes id ≡ some r
    → IsSound (forget_ref r id n t)
unfolding forget_ref at_id at_path
forget_ref-IsSound r id n t v e = record {
  named = λ j s h. ground (arith, v.named j s, v.named id r e, text_eq_iff r.path s.path);
  known = λ p j h. ground (arith, v.known p j, v.named id r e, text_eq_iff r.path p);
  below = λ j s h. ground (arith, v.below j s, v.below id r e);
  rooted = ground (arith, v.rooted);
  root_path = ground (arith, v.root_path, v.rooted);
}

forget_found-IsSound :
    (o : Option InodeRef) (id n : ℕ) (t : InodeTable)
    → IsSound t
    → t.inodes id ≡ o
    → IsSound (forget_found o id n t)
forget_found-IsSound none id n t v e = v
forget_found-IsSound (some r) id n t v e = forget_ref-IsSound r id n t v e

alloc_ref-IsSound :
    (o : Option InodeRef) (i : ℕ) (path : Text) (type : NodeType) (mode : ℕ) (t : InodeTable)
    → IsSound t
    → t.inodes i ≡ o
    → t.path_to_inode path ≡ some i
    → IsSound (alloc_ref o i path type mode t).1
alloc_ref-IsSound (some r) i path type mode t v e h = reuse-IsSound r i t v e
alloc_ref-IsSound none i path type mode t v e h = absurd (ground (arith, v.known path i h))

alloc_id-IsSound :
    (o : Option ℕ) (path : Text) (type : NodeType) (mode : ℕ) (t : InodeTable)
    → IsSound t
    → t.path_to_inode path ≡ o
    → IsSound (alloc_id o path type mode t).1
alloc_id-IsSound none path type mode t v h = fresh_inode-IsSound path type mode t v h
alloc_id-IsSound (some i) path type mode t v h =
    alloc_ref-IsSound (t.inodes i) i path type mode t v refl h

-- A lookup or a forget.
pub data Step (t : InodeTable) : InodeTable → Type 0 where
  allocs : (path : Text) (type : NodeType) (mode : ℕ) → Step t (alloc_inode path type mode t).1
  forgets : (id n : ℕ) → Step t (forget_inode id n t)

pub data Reach : InodeTable → Type 0 where
  start : Reach new_table
  later : {t t' : InodeTable} → Reach t → Step t t' → Reach t'

Step-IsSound : {t t' : InodeTable} → Step t t' → IsSound t → IsSound t'
unfolding alloc_inode forget_inode
Step-IsSound {t} (allocs path type mode) v =
    alloc_id-IsSound (t.path_to_inode path) path type mode t v refl
Step-IsSound {t} (forgets id n) v = forget_found-IsSound (t.inodes id) id n t v refl

Reach-IsSound : {t : InodeTable} → Reach t → IsSound t
Reach-IsSound start = new_table-IsSound
Reach-IsSound (later r st) = Step-IsSound st (Reach-IsSound r)

-- Two inodes of the table that have the same path are the same, and
-- the path leads to them.
inode-path :
    {t : InodeTable}
    → Reach t
    → (i j : ℕ) (r s : InodeRef) → t.inodes i ≡ some r
    → t.inodes j ≡ some s
    → r.path ≡ s.path
    → (i ≡ j) × (t.path_to_inode r.path ≡ some i)
inode-path {t} reach i j r s hi hj same =
    let v : IsSound t = Reach-IsSound reach in ground (arith, v.named i r hi, v.named j s hj)

-- The root is still the inode 1 with the path ".", however often it
-- was forgotten.
root_stays :
    {t : InodeTable}
    → Reach t
    → (is_root_ref (t.inodes root_inode_id) ≡ true)
      × (path_of (t.inodes root_inode_id) ≡ some dot)
      × (t.path_to_inode dot ≡ some root_inode_id)
root_stays {t} reach =
    let v : IsSound t = Reach-IsSound reach in
    (v.rooted, v.root_path, root_named v (t.inodes root_inode_id) refl)
  where
    root_named :
        IsSound t
        → (o : Option InodeRef) → t.inodes root_inode_id ≡ o
        → t.path_to_inode dot ≡ some root_inode_id
    root_named v none e = absurd (ground (arith, v.rooted))
    root_named v (some r) e = ground (arith, v.named root_inode_id r e, v.root_path)

-- After any lookups and forgets, two inodes of the table that have the same path are the same, and
-- the path leads to them; and the root is still the inode 1 with the path ".", however often it was
-- forgotten.
pub inode_table_consistent :
    {t : InodeTable}
    → Reach t
    → (i j : ℕ) (r s : InodeRef) → t.inodes i ≡ some r
    → t.inodes j ≡ some s
    → r.path ≡ s.path
    → ((i ≡ j) × (t.path_to_inode r.path ≡ some i))
      × ((is_root_ref (t.inodes root_inode_id) ≡ true)
          × (path_of (t.inodes root_inode_id) ≡ some dot)
          × (t.path_to_inode dot ≡ some root_inode_id))
inode_table_consistent reach i j r s hi hj same =
    (inode-path reach i j r s hi hj same, root_stays reach)
