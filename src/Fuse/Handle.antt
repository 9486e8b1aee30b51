-- ===== src/Fuse/Handle.antt =====
-- `FileHandle` of internal/fusefs/fuse_unix.go: a handle keeps the cache file of a blob open, for the
-- generation that it belongs to. A file that is open is the node that the name had: files of the
-- blob cache are replaced, and never written in place.
pub mod Stale
use gitfs.Prelude.{
  ℕ, suc, ◌+◌, Text, Bool, not, ◌||◌, Option, none, some, take, drop, ◌==◌, if◌then◌else◌,
}
use gitfs.Errors.{Result, ok, err}
use gitfs.Model.{RepoConfig}
use gitfs.Machine.{World, DiskNode, Exec, ◌>>=◌, ◌>>◌, pure, raise, attempt}
use gitfs.Machine.Disk.{existing, is_a_directory}
use gitfs.Engine.{Hydrator, base_cache_path, read}

pub record FileHandle : Type 0 where
  pub path : Text
  pub cache_file : Option DiskNode
  pub cache_generation : ℕ
  pub invalidate_seq : ℕ

abbrev pub new_file_handle : Text → FileHandle
new_file_handle p = record { path = p; cache_file = none; cache_generation = 0; invalidate_seq = 0 }

unfoldable pub close_cached_file : FileHandle → FileHandle
close_cached_file fh = record fh {
  cache_file = none;
  cache_generation = 0;
  invalidate_seq = suc fh.invalidate_seq;
}

-- The end of the first critical section of `read`: the open file of the current generation, or one
-- of another generation that was dropped and is closed now, or the value of `seq`.
pub data Begun : Type 0 where
  hit : DiskNode → Begun
  dropped : Begun
  missed : ℕ → Begun

unfoldable pub begin_read : ℕ → FileHandle → Begun × FileHandle
unfolding close_cached_file
begin_read generation fh = elim fh.cache_file [
  | none ↦ (missed fh.invalidate_seq, fh)
  | some f ↦
      if fh.cache_generation == generation then (hit f, fh) else (dropped, close_cached_file fh)
]

-- The last critical section of `read`, for a file that was opened: the file to read from, or none
-- where the handle or the generation has moved on.
unfoldable pub install : ℕ → ℕ → ℕ → DiskNode → FileHandle → Option DiskNode × FileHandle
install seq gen generation f fh =
    let kept : FileHandle = record fh { cache_file = some f; cache_generation = gen } in
    if not (fh.invalidate_seq == seq) || not (gen == generation)
    then (none, fh)
    else elim fh.cache_file [
      | none ↦ (some f, kept)
      | some g ↦ if fh.cache_generation == gen then (some g, fh) else (some f, kept)
    ]

-- `readFileChunkFrom`
unfoldable pub read_file_chunk_from : DiskNode → ℕ → ℕ → Exec Text
read_file_chunk_from f off size = do
  attempt
  attempt
  if f.is_dir then raise is_a_directory else pure (take size (drop off f.content))

unfoldable pub os_open : Text → Exec DiskNode
os_open path = do attempt; existing path

-- A read gives the handle back too.
abbrev pub keeping : FileHandle → Result Text × World → Result Text × (FileHandle × World)
keeping fh (r, w) = (r, (fh, w))

module _ (h : Hydrator) (repo : RepoConfig) (off size : ℕ) where
  abbrev pub read_installed :
      Option DiskNode × FileHandle → World → Result Text × (FileHandle × World)
  read_installed (none, fh) w = keeping fh (read h repo fh.path off size w)
  read_installed (some f, fh) w = keeping fh (read_file_chunk_from f off size w)

  abbrev pub read_opened :
      ℕ → ℕ → FileHandle → Result DiskNode × World → Result Text × (FileHandle × World)
  read_opened seq gen fh (err e, w) = (err e, (fh, w))
  read_opened seq gen fh (ok f, w) = read_installed (install seq gen w.generation f fh) w

  -- `read` from the call of `BaseCachePath` on.
  abbrev pub read_missed :
      ℕ → FileHandle → Result (Option (Text × ℕ)) × World → Result Text × (FileHandle × World)
  read_missed seq fh (err e, w) = (err e, (fh, w))
  read_missed seq fh (ok none, w) = keeping fh (read h repo fh.path off size w)
  read_missed seq fh (ok (some (cache_path, gen)), w) =
      read_opened seq gen fh (os_open cache_path w)

  abbrev pub read_begun : Begun × FileHandle → World → Result Text × (FileHandle × World)
  read_begun (hit f, fh) w = keeping fh (read_file_chunk_from f off size w)
  read_begun (dropped, fh) w = read_missed fh.invalidate_seq fh (base_cache_path h repo fh.path w)
  read_begun (missed seq, fh) w = read_missed seq fh (base_cache_path h repo fh.path w)

  -- `FileHandle.read`
  unfoldable pub read_handle : FileHandle → World → Result Text × (FileHandle × World)
  unfolding begin_read
  read_handle fh w = read_begun (begin_read w.generation fh) w
