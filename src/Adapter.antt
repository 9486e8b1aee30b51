-- ===== src/Adapter.antt =====
-- internal/fsadapter/fsadapter.go: the view of io/fs over an engine and a resolver, which are
-- interfaces there too; internal/fusefs/fsfs.go puts those of this repository in their place.
pub mod Chunks
use Prim.Native.Nat.{bit_and, bit_or}
use gitfs.Prelude.{
  ℕ, ◌+◌, Text, bytes, text_eq, Bool, true, false, not, ◌&&◌, ◌||◌, Option, none, some, List, [],
  ◌∷◌, map, any, take, drop, length, ltb, leb, ◌==◌, if◌then◌else◌,
}
use gitfs.Errors.{Error, Result, ok, err, not_exist, invalid}
use gitfs.Model.{NodeType, RepoConfig, type_eq, dir, overlay_node_type}
use gitfs.Machine.{World, Exec}
use gitfs.Path.{dot, slash, clean_path, split}
use gitfs.Path.Names.{after_slash}
use gitfs.Resolver.{ResolvedNode, in_overlay, in_base, Attrs, resolve_path, getattr, readdir_typed}
use gitfs.Resolver.Dirents.{ReaddirEntry}
use gitfs.Engine.{Hydrator}
use gitfs.Engine

-- `WriteEngine` and `Resolver`; the last argument of the writing calls is the time.
pub record Sources : Type 0 where
  pub read : Text → ℕ → ℕ → Exec Text
  pub write : Text → ℕ → Text → ℕ → Exec (Unit {0})
  pub make_directory : Text → ℕ → ℕ → Exec (Unit {0})
  pub unlink : Text → ℕ → Exec (Unit {0})
  pub rename : Text → Text → ℕ → Exec (Unit {0})
  pub resolve : Text → Exec ResolvedNode
  pub attributes : Text → Exec Attrs
  pub list_typed : Text → Exec (List ReaddirEntry)

-- `NewArtifactFS` and `NewResolverAdapter` of internal/fusefs/fsfs.go.
unfoldable pub engine_sources : Hydrator → RepoConfig → Sources
engine_sources h repo = record {
  read = Engine.read h repo;
  write = Engine.write h repo;
  make_directory = Engine.make_directory h repo;
  unlink = Engine.unlink h repo;
  rename = Engine.rename h repo;
  resolve = resolve_path;
  attributes = getattr;
  list_typed = readdir_typed;
}

-- What a PathError wraps.
pub data Cause : Type 0 where
  wraps : Error → Cause
  is_a_directory not_a_directory : Cause

pub data FsError : Type 0 where
  err_closed eof : FsError
  plain : Error → FsError
  path_error : Text → Text → Cause → FsError

pub data Outcome {ℓ} (A : Type ℓ) : Type ℓ where
  good : A → Outcome A
  bad : FsError → Outcome A

-- The error of a call is wrapped with the operation and the name.
abbrev pub wrapped : {A : Type 0} → Text → Text → Result A × World → Outcome A × World
wrapped op name (ok a, w) = (good a, w)
wrapped op name (err e, w) = (bad (path_error op name (wraps e)), w)

abbrev pub refused : {A : Type 0} → Text → Text → World → Outcome A × World
refused op name w = (bad (path_error op name (wraps invalid)), w)

abbrev pub mapped : {A B : Type 0} → (A → B) → Outcome A × World → Outcome B × World
mapped f (good a, w) = (good (f a), w)
mapped f (bad e, w) = (bad e, w)

-- fs.ModeDir and fs.ModeSymlink
abbrev pub mode_dir : ℕ
mode_dir = 0x80000000

abbrev pub mode_symlink : ℕ
mode_symlink = 0x8000000

abbrev pub type_to_file_mode : NodeType → ℕ
type_to_file_mode NodeType.dir = mode_dir
type_to_file_mode NodeType.symlink = mode_symlink
type_to_file_mode _ = 0

abbrev pub uint32_to_file_mode : ℕ → NodeType → ℕ
uint32_to_file_mode mode type = bit_or (bit_and mode 0o777) (type_to_file_mode type)

unfoldable pub path_base : Text → Text
unfolding after_slash
path_base path = if text_eq path dot then dot else after_slash path

pub record DirEntry : Type 0 where
  pub name : Text
  pub type_mode : ℕ

pub record FileInfo : Type 0 where
  pub name : Text
  pub size : ℕ
  pub mode : ℕ
  pub mod_time : ℕ

abbrev pub dir_entry : ReaddirEntry → DirEntry
dir_entry e = record { name = e.name; type_mode = type_to_file_mode e.node_type }

unfoldable pub file_info : Text → Attrs → FileInfo
unfolding path_base
file_info path a = record {
  name = path_base path;
  size = a.size;
  mode = uint32_to_file_mode a.mode a.node_type;
  mod_time = a.mtime;
}

abbrev pub resolved_type : ResolvedNode → NodeType
resolved_type (in_overlay e) = overlay_node_type e
resolved_type (in_base n) = n.node_type

abbrev pub is_dir_node : ResolvedNode → Bool
is_dir_node n = type_eq (resolved_type n) dir

abbrev pub is_symlink_node : ResolvedNode → Bool
is_symlink_node n = type_eq (resolved_type n) NodeType.symlink

abbrev pub symlink_target : ResolvedNode → Text
symlink_target (in_overlay e) = e.target_path
symlink_target (in_base n) = []

-- `artifactFile`
pub record ArtifactFile : Type 0 where
  pub name : Text
  pub path : Text
  pub node : ResolvedNode
  pub off : ℕ
  pub closed : Bool
  pub is_dir : Bool

abbrev pub opened_file : Text → ResolvedNode → ArtifactFile
opened_file name n = record {
  name = name;
  path = clean_path name;
  node = n;
  off = 0;
  closed = false;
  is_dir = is_dir_node n;
}

abbrev bad_word : Text → Bool
bad_word w = text_eq w [] || (text_eq w dot || text_eq w (bytes ".."))

-- What `Read` gives: the bytes, and an error beside them.
pub record Chunk : Type 0 where
  pub got : Text
  pub failure : Option FsError

abbrev chunk_error : FsError → Chunk
chunk_error e = record { got = []; failure = some e }

abbrev read_failure : Error → FsError
read_failure not_exist = eof
read_failure e = plain e

abbrev pub advanced : ArtifactFile → ℕ → Result Text × World → Chunk × (ArtifactFile × World)
advanced f size (err e, w) = (chunk_error (read_failure e), (f, w))
advanced f size (ok bytes, w) =
    let got = take size bytes in
    (
      record { got = got; failure = if ltb (length got) size then some eof else none },
      (record f { off = f.off + length got }, w),
    )

-- `ReadDir(n)` of an open directory, where 0 stands for every n that is not positive.
abbrev pub listed : ArtifactFile → ℕ → List ReaddirEntry → Outcome (List DirEntry) × ArtifactFile
listed f n all =
    let left = drop f.off all in
    if leb (length all) f.off
    then (bad eof, f)
    else if n == 0
    then (good (map dir_entry left), record f { off = length left })
    else (good (map dir_entry (take n left)), record f { off = f.off + length (take n left) })

abbrev pub listed_result :
    ArtifactFile
    → ℕ
    → Result (List ReaddirEntry) × World
    → Outcome (List DirEntry) × (ArtifactFile × World)
listed_result f n (err e, w) = (bad (plain e), (f, w))
listed_result f n (ok all, w) = ((listed f n all).0, ((listed f n all).1, w))

abbrev info_result : Text → Result Attrs × World → Outcome FileInfo × World
info_result path (err e, w) = (bad (plain e), w)
info_result path (ok a, w) = (good (file_info path a), w)

unfoldable pub close : ArtifactFile → Outcome (Unit {0}) × ArtifactFile
close f = if f.closed then (bad err_closed, f) else (good tt, record f { closed = true })

module _ (src : Sources) where
  unfoldable pub file_stat : ArtifactFile → World → Outcome FileInfo × World
  unfolding file_info
  file_stat f w =
      if f.closed then (bad err_closed, w) else info_result f.path (src.attributes f.path w)

  -- `Read` into a buffer of `size` bytes.
  unfoldable pub file_read : ArtifactFile → ℕ → World → Chunk × (ArtifactFile × World)
  file_read f size w =
      if f.closed
      then (chunk_error err_closed, (f, w))
      else if f.is_dir
      then (chunk_error (path_error (bytes "read") f.name is_a_directory), (f, w))
      else advanced f size (src.read f.path f.off size w)

  unfoldable pub file_read_dir :
      ArtifactFile → ℕ → World → Outcome (List DirEntry) × (ArtifactFile × World)
  file_read_dir f n w =
      if f.closed
      then (bad err_closed, (f, w))
      else if not f.is_dir
      then (bad (path_error (bytes "readdir") f.name not_a_directory), (f, w))
      else listed_result f n (src.list_typed f.path w)

-- `valid_utf8` is utf8.ValidString, which fs.ValidPath calls.
module _ (src : Sources) (valid_utf8 : Text → Bool) where
  -- fs.ValidPath
  unfoldable pub valid_path : Text → Bool
  valid_path name = valid_utf8 name && (text_eq name dot || not (any bad_word (split name)))

  -- `Open` follows a link once, and keeps the path of the link.
  abbrev open_resolved : Text → Outcome ResolvedNode × World → Outcome ArtifactFile × World
  open_resolved name (bad e, w) = (bad e, w)
  open_resolved name (good n, w) =
      if is_symlink_node n
      then (if text_eq (symlink_target n) []
          then refused (bytes "open") name w
          else mapped (opened_file name)
              (wrapped (bytes "open") name (src.resolve (symlink_target n) w)))
      else (good (opened_file name n), w)

  unfoldable pub open_name : Text → World → Outcome ArtifactFile × World
  unfolding valid_path
  open_name name w =
      if not (valid_path name)
      then refused (bytes "open") name w
      else open_resolved name (wrapped (bytes "open") name (src.resolve (clean_path name) w))

  unfoldable pub read_dir : Text → World → Outcome (List DirEntry) × World
  unfolding valid_path
  read_dir name w =
      if not (valid_path name)
      then refused (bytes "readdir") name w
      else mapped (map dir_entry)
          (wrapped (bytes "readdir") name (src.list_typed (clean_path name) w))

  unfoldable pub stat : Text → World → Outcome FileInfo × World
  unfolding valid_path file_info
  stat name w =
      if not (valid_path name)
      then refused (bytes "stat") name w
      else mapped (file_info (clean_path name))
          (wrapped (bytes "stat") name (src.attributes (clean_path name) w))

  -- The permissions are not used.
  unfoldable pub write_file : Text → Text → ℕ → World → Outcome (Unit {0}) × World
  unfolding valid_path
  write_file name content now w =
      if not (valid_path name)
      then refused (bytes "write") name w
      else wrapped (bytes "write") name (src.write (clean_path name) 0 content now w)

  unfoldable pub mkdir : Text → ℕ → ℕ → World → Outcome (Unit {0}) × World
  unfolding valid_path
  mkdir name perm now w =
      if not (valid_path name)
      then refused (bytes "mkdir") name w
      else wrapped (bytes "mkdir") name (src.make_directory (clean_path name) perm now w)

  unfoldable pub remove : Text → ℕ → World → Outcome (Unit {0}) × World
  unfolding valid_path
  remove name now w =
      if not (valid_path name)
      then refused (bytes "remove") name w
      else if text_eq (clean_path name) dot
      then refused (bytes "remove") name w
      else wrapped (bytes "remove") name (src.unlink (clean_path name) now w)

  unfoldable pub rename : Text → Text → ℕ → World → Outcome (Unit {0}) × World
  unfolding valid_path
  rename old_name new_name now w =
      if not (valid_path old_name) || not (valid_path new_name)
      then refused (bytes "rename") old_name w
      else wrapped (bytes "rename") old_name
          (src.rename (clean_path old_name) (clean_path new_name) now w)
