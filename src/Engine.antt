-- ===== src/Engine.antt =====
-- internal/fusefs/ops.go: the file operations over the merged view. Each operation calls
-- `time.Now()` once at most, which is `now`.
pub mod Frame
pub mod Shows
pub mod ReadBack
pub mod Refused
pub mod Unlinked
use gitfs.Prelude.{
  ℕ, Text, text_eq, Bool, true, false, not, Option, none, some, [], ◌∷◌, take, drop, is_some,
  if◌then◌else◌,
}
use gitfs.Errors.{Error, not_exist, invalid, exist}
use gitfs.Model.{
  OverlayEntry, BaseNode, NodeType, RepoConfig, OverlayKind, kind_eq, type_eq, is_deleted, dir,
  create, mkdir,
}
use gitfs.Machine.{Exec, ◌>>=◌, ◌>>◌, pure, raise, gets, attempt, on_error, when}
use gitfs.Machine.Disk.{existing, is_a_directory}
use gitfs.Path.{dot, clean_path}
use gitfs.Overlay.Store.{get, ensure_copy_on_write, create_file, write_file, remove, make_dir}
use gitfs.Overlay.Store
use gitfs.Overlay.Rename.{rename_path, rename_and_mark_modified_from_base}
use gitfs.Resolver.{resolved_base, base_node, resolve_path, readdir}

-- What the engine asks of the hydrator: the cache file of a blob, and its size.
pub record Hydrator : Type 0 where
  pub ensure_hydrated : BaseNode → Exec (Text × ℕ)

abbrev is_not_exist : Error → Bool
is_not_exist not_exist = true
is_not_exist _ = false

-- `readFileChunk`: at most `size` bytes from `off` on.
unfoldable pub read_file_chunk : Text → ℕ → ℕ → Exec Text
read_file_chunk path off size = do
  attempt
  n ← existing path
  attempt
  attempt
  if n.is_dir then raise is_a_directory else pure (take size (drop off n.content))

-- Whether the base node at `newPath` stands against a rename of an overlay entry.
abbrev pub blocks_rename : OverlayKind → BaseNode → Bool
blocks_rename k dst = if type_eq dst.node_type dir then true else kind_eq k mkdir

abbrev pub is_fresh : OverlayKind → Bool
is_fresh k = if kind_eq k create then true else kind_eq k OverlayKind.symlink

abbrev pub is_base_dir : Option BaseNode → Bool
is_base_dir none = false
is_base_dir (some n) = type_eq n.node_type dir

module _ (h : Hydrator) (repo : RepoConfig) where
  unfoldable pub ensure_overlay : Text → ℕ → Exec (Unit {0})
  ensure_overlay path now = do
    found ← get path
    elim found [
      | some e ↦ pure tt
      | none ↦ do
        n ← resolve_path path
        when (not (text_eq (resolved_base n).object_oid []))
            (do cached ← h.ensure_hydrated (resolved_base n); pure tt)
        e ← ensure_copy_on_write repo path (resolved_base n) now
        pure tt
    ]

  unfoldable pub read : Text → ℕ → ℕ → Exec Text
  read path off size = do
    found ← get path
    elim found [
      | some e ↦ if is_deleted e then raise not_exist else read_file_chunk e.backing_path off size
      | none ↦ do
        n ← resolve_path path
        (cache_path, _) ← h.ensure_hydrated (resolved_base n)
        read_file_chunk cache_path off size
    ]

  -- The cache file and its generation, or none where the overlay has the path.
  unfoldable pub base_cache_path : Text → Exec (Option (Text × ℕ))
  base_cache_path path = do
    found ← get (clean_path path)
    elim found [
      | some e ↦ if is_deleted e then raise not_exist else pure none
      | none ↦ do
        gen ← gets (λ w. w.generation)
        found_base ← base_node (clean_path path)
        elim found_base [
          | none ↦ raise not_exist
          | some n ↦ do (cache_path, _) ← h.ensure_hydrated n; pure (some (cache_path, gen))
        ]
    ]

  unfoldable pub write : Text → ℕ → Text → ℕ → Exec (Unit {0})
  write path off bytes now = do
    on_error (ensure_overlay path now) (λ e.
        if is_not_exist e then (do made ← create_file repo path 0o644 now; pure tt) else raise e)
    write_file path off bytes now

  unfoldable pub create_path : Text → ℕ → ℕ → Exec (Unit {0})
  create_path path mode now = do made ← create_file repo path mode now; pure tt

  unfoldable pub unlink : Text → ℕ → Exec (Unit {0})
  unlink path now = remove path now

  -- `Rename` of a path that the overlay has.
  unfoldable pub rename_overlay : OverlayEntry → Text → Text → ℕ → Exec (Unit {0})
  rename_overlay e old new now = do
    under ← (if kind_eq e.kind mkdir then base_node old else pure none)
    if is_some under then raise invalid else do
      there ← base_node new
      elim there [
        | none ↦ rename_path repo old new now
        | some dst ↦
            if blocks_rename e.kind dst
            then raise invalid
            else if is_fresh e.kind
            then rename_and_mark_modified_from_base repo old new dst.object_oid now
            else rename_path repo old new now
      ]

  -- `Rename` of a path that only the snapshot has.
  unfoldable pub rename_base : Text → Text → ℕ → Exec (Unit {0})
  rename_base old new now = do
    here ← base_node old
    if is_base_dir here then raise invalid else do
      n ← resolve_path old
      if type_eq (resolved_base n).node_type dir then raise invalid else do
        there ← base_node new
        if is_base_dir there
            then raise invalid
            else do ensure_overlay old now; rename_path repo old new now

  unfoldable pub rename : Text → Text → ℕ → Exec (Unit {0})
  rename old_path new_path now =
      let old = clean_path old_path in
      let new = clean_path new_path in
      if text_eq old new then (do n ← resolve_path old; pure tt) else do
        found ← get old
        elim found [
          | some e ↦ if is_deleted e then raise not_exist else rename_overlay e old new now
          | none ↦ rename_base old new now
        ]

  unfoldable pub make_directory : Text → ℕ → ℕ → Exec (Unit {0})
  make_directory path mode now = make_dir repo path mode now

  unfoldable pub rmdir : Text → ℕ → Exec (Unit {0})
  rmdir path now = do
    names ← readdir path
    elim names [ [] ↦ remove path now | _ ∷ _ ↦ raise exist ]

  abbrev promote_for_mtime : Text → BaseNode → ℕ → Exec (Unit {0})
  promote_for_mtime path n now = elim n.node_type [
    | NodeType.dir ↦ make_dir repo path n.mode now
    | NodeType.file ↦ ensure_overlay path now
    | _ ↦ raise invalid
  ]

  unfoldable pub set_mtime : Text → ℕ → ℕ → Exec (Unit {0})
  set_mtime path t now =
      let p = clean_path path in
      if text_eq p dot then raise invalid else do
        found ← get p
        elim found [
          | some e ↦ pure tt
          | none ↦ do n ← resolve_path p; promote_for_mtime p (resolved_base n) now
        ]
        Store.set_mtime p t now

  unfoldable pub truncate : Text → ℕ → ℕ → Exec (Unit {0})
  truncate path size now = do ensure_overlay path now; Store.truncate path size now
