-- ===== src/Machine/Disk.antt =====
-- The calls of Go's os package that internal/overlay/store.go and internal/fusefs/ops.go make, on
-- files under the full names that the program builds. A call may fail for a reason of its own
-- (`attempt`) before it has any effect, and fails with ErrNotExist where its file is missing.
use gitfs.Prelude.{
  ℕ, ◌+◌, Text, text_eq, Bool, true, false, not, ◌&&◌, ◌||◌, Option, none, some, List, [], ◌∷◌,
  ◌++◌, map, keep, drop, length, if◌then◌else◌,
}
use gitfs.Errors.{Error, not_exist, fault}
use gitfs.Machine.{DiskNode, Exec, ◌>>=◌, ◌>>◌, pure, raise, gets, modify_world, attempt}
use gitfs.Path.{slash}
use gitfs.Path.Names.{has_prefix, cut_prefix}

unfoldable pub find_node : Text → List DiskNode → Option DiskNode
find_node p [] = none
find_node p (n ∷ ns) = if text_eq n.name p then some n else find_node p ns

unfoldable pub drop_node : Text → List DiskNode → List DiskNode
unfolding keep
drop_node p ns = keep (λ n. not (text_eq n.name p)) ns

unfoldable pub put_node : DiskNode → List DiskNode → List DiskNode
unfolding drop_node
put_node n ns = n ∷ drop_node n.name ns

-- Whether a file stands below the directory `p`.
unfoldable pub has_below : Text → List DiskNode → Bool
has_below p [] = false
has_below p (n ∷ ns) = has_prefix n.name (p ++ (slash ∷ [])) || has_below p ns

-- A node is stored under its name; where it was found under `p`, that is `p`.
abbrev pub store_node : DiskNode → Exec (Unit {0})
store_node n = modify_world (λ w. record w { disk = put_node n w.disk })

-- The errors EISDIR and ENOTEMPTY, by their numbers on Linux.
abbrev pub is_a_directory : Error
is_a_directory = fault 21

abbrev pub not_empty : Error
not_empty = fault 39

abbrev or_missing : Option DiskNode → Exec DiskNode
or_missing none = raise not_exist
or_missing (some n) = pure n

abbrev pub existing : Text → Exec DiskNode
existing p = do n ← gets (λ w. find_node p w.disk); or_missing n

-- os.MkdirAll. Parents that are missing come into being with what is below them.
unfoldable pub mkdir_all : Text → ℕ → Exec (Unit {0})
mkdir_all p mode = do
  attempt
  found ← gets (λ w. find_node p w.disk)
  elim found [
    | some n ↦ if n.is_dir then pure tt else raise (fault 20)
    | none ↦ store_node (record { name = p; is_dir = true; mode = mode; content = [] })
  ]

-- os.WriteFile(name, nil, mode): the file is made or truncated.
unfoldable pub write_empty : Text → ℕ → Exec (Unit {0})
write_empty p mode = do
  attempt
  found ← gets (λ w. find_node p w.disk)
  elim found [
    | some n ↦
        if n.is_dir then raise is_a_directory else store_node (record n { name = p; content = [] })
    | none ↦ store_node (record { name = p; is_dir = false; mode = mode; content = [] })
  ]

-- os.Remove: a file, or a directory with nothing in it.
unfoldable pub os_remove : Text → Exec (Unit {0})
os_remove p = do
  attempt
  n ← existing p
  full ← gets (λ w. has_below p w.disk)
  if full && n.is_dir
      then raise not_empty
      else modify_world (λ w. record w { disk = drop_node p w.disk })

-- The name of a node after the file or directory `old` is renamed to `new`.
abbrev pub moved_name : Text → Text → Text → Text
moved_name old new name =
    if text_eq name old then new else elim (cut_prefix name (old ++ (slash ∷ []))) [
      | none ↦ name
      | some rest ↦ new ++ (slash ∷ rest)
    ]

-- Whether the node may take the name: a file replaces a file, and nothing replaces a directory, for
-- which Go's os.Rename answers EEXIST.
abbrev may_replace : DiskNode → Option DiskNode → Bool
may_replace n none = true
may_replace n (some d) = not d.is_dir && not n.is_dir

-- os.Rename: what stood at `new` is replaced, and a directory moves with all that is below it.
unfoldable pub os_rename : Text → Text → Exec (Unit {0})
os_rename old new = do
  attempt
  n ← existing old
  there ← gets (λ w. find_node new w.disk)
  if not (may_replace n there)
      then raise (fault 17)
      else if text_eq old new
      then pure tt
      else modify_world (λ w. record w {
        disk =
            map (λ (d : DiskNode). record d { name = moved_name old new d.name })
              (drop_node new w.disk);
      })

-- Size of `os.Stat` on a file.
unfoldable pub stat_size : Text → Exec ℕ
stat_size p = do attempt; n ← existing p; pure (length n.content)

-- os.Chmod
unfoldable pub chmod : Text → ℕ → Exec (Unit {0})
chmod p mode = do attempt; n ← existing p; store_node (record n { name = p; mode = mode })

-- A file of `size` bytes with the first bytes of `t`, and zero bytes after them.
unfoldable pub resize : ℕ → Text → Text
resize ℕ.zero t = []
resize (ℕ.suc n) [] = 0 ∷ resize n []
resize (ℕ.suc n) (b ∷ t) = b ∷ resize n t

-- os.Truncate
unfoldable pub os_truncate : Text → ℕ → Exec (Unit {0})
os_truncate p size = do
  attempt
  n ← existing p
  if n.is_dir
      then raise is_a_directory
      else store_node (record n { name = p; content = resize size n.content })

-- The bytes after `data` is written at `off`: a gap is filled with zero bytes.
unfoldable pub write_bytes : Text → ℕ → Text → Text
unfolding resize
write_bytes t off bytes = resize off t ++ (bytes ++ drop (off + length bytes) t)

-- os.OpenFile(name, O_WRONLY|O_CREATE, mode)
unfoldable pub open_create : Text → ℕ → Exec (Unit {0})
open_create p mode = do
  attempt
  found ← gets (λ w. find_node p w.disk)
  elim found [
    | none ↦ store_node (record { name = p; is_dir = false; mode = mode; content = [] })
    | some n ↦ if n.is_dir then raise is_a_directory else pure tt
  ]

-- f.WriteAt(data, off); a write of no bytes changes nothing.
abbrev pub after_write : Text → ℕ → Text → Text
after_write old off [] = old
after_write old off (b ∷ bs) = write_bytes old off (b ∷ bs)

unfoldable pub write_open : Text → ℕ → Text → Exec (Unit {0})
write_open p off bytes = do
  attempt
  n ← existing p
  store_node (record n { name = p; content = after_write n.content off bytes })

unfoldable pub write_at : Text → ℕ → ℕ → Text → Exec (Unit {0})
write_at p mode off bytes = do open_create p mode; write_open p off bytes
