-- ===== src/Tests/Inodes.antt =====
-- Runs of the inode table of internal/fusefs/fuse_unix.go.
use gitfs.Prelude.{ℕ, ◌≡◌, refl, true, false, bytes, some, text_eq}
use gitfs.Model.{file}
use gitfs.Path.{dot}
use gitfs.Inodes.{
  InodeRef, InodeTable, root_inode_id, new_table, alloc_inode, forget_inode, fresh_inode, reuse,
  forget_ref,
}
use gitfs.Inodes.Bijection.{
  Reach, start, later, allocs, forgets, path_of, is_root_ref, inode_table_consistent,
}

-- Two lookups of "a", and more forgets of the root than lookups.
abbrev looked_up : InodeTable
looked_up = (alloc_inode (bytes "a") file 0o644 (alloc_inode (bytes "a") file 0o644 new_table).1).1

abbrev forgotten : InodeTable
forgotten = forget_inode 1 5 looked_up

forgotten_reached : Reach forgotten
forgotten_reached =
    later (later (later start (allocs (bytes "a") file 0o644)) (allocs (bytes "a") file 0o644))
      (forgets 1 5)

abbrev inode_a : InodeRef
inode_a = record {
  id = 2;
  path = bytes "a";
  node_type = file;
  mode = 0o644;
  looked_up = 2;
  forgotten = 0;
  is_root = false;
}

abbrev id_a : ℕ
id_a = 2

a_is_two : forgotten.inodes id_a ≡ some inode_a
unfolding forget_inode alloc_inode new_table text_eq fresh_inode reuse forget_ref
a_is_two = refl

inode_table_consistent_example :
    ((id_a ≡ id_a) × (forgotten.path_to_inode (bytes "a") ≡ some id_a))
    × ((is_root_ref (forgotten.inodes root_inode_id) ≡ true)
        × (path_of (forgotten.inodes root_inode_id) ≡ some dot)
        × (forgotten.path_to_inode dot ≡ some root_inode_id))
inode_table_consistent_example =
    inode_table_consistent forgotten_reached id_a id_a inode_a inode_a a_is_two a_is_two refl
