-- ===== src/Fuse/Files/ReadBack.antt =====
-- Reads through a file handle of internal/fusefs/fuse_unix.go after writes through it.
use gitfs.Prelude.{ℕ, Text, text_eq, text_eq_refl, false, none, some, [], length, ◌≡◌, refl, arith}
use gitfs.Errors.{ok}
use gitfs.Model.{RepoConfig}
use gitfs.Machine.{World}
use gitfs.Engine.{Hydrator, base_cache_path}
use gitfs.Engine
use gitfs.Engine.ReadBack.{read-write, base_cache_path-write}
use gitfs.Fuse.{Mount, done, file_handle, close_cached_files_for_path, gitfile_name}
use gitfs.Fuse.Handle.{FileHandle, close_cached_file, begin_read, read_handle}
use gitfs.Fuse.Files.{write_file, read_file}

module _ (h : Hydrator) (repo : RepoConfig) where
  -- A read through a handle with no open cache file, of a path that the overlay has.
  read_handle-overlay :
      (off size : ℕ) (fh : FileHandle) (w : World) (b : Text)
      → fh.cache_file ≡ none
      → base_cache_path h repo fh.path w ≡ (ok none, w)
      → (Engine.read h repo fh.path off size w).0 ≡ ok b
      → (read_handle h repo off size fh w).0 ≡ ok b
  unfolding read_handle begin_read
  read_handle-overlay off size fh w b c o r = ground arith

  -- What a write leaves behind.
  write_file-done :
      (id off : ℕ) (b : Text) (now : ℕ) (m : Mount) (fh : FileHandle)
      → m.file_handles id ≡ some fh
      → (write_file h repo id off b now m).0 ≡ done tt
      → ((Engine.write h repo fh.path off b now m.world).0 ≡ ok tt)
        × ((write_file h repo id off b now m).1.world
            ≡ (Engine.write h repo fh.path off b now m.world).1)
        × ((write_file h repo id off b now m).1.file_handles id
            ≡ some (close_cached_file (close_cached_file fh)))
  unfolding write_file file_handle close_cached_files_for_path
  write_file-done id off b now m fh e d = (
    ground (arith, text_eq_refl fh.path),
    ground (arith, text_eq_refl fh.path),
    ground (arith, text_eq_refl fh.path),
  )

  read_file-found :
      (id off size : ℕ) (m : Mount) (fh : FileHandle) (b : Text)
      → m.file_handles id ≡ some fh
      → text_eq fh.path gitfile_name ≡ false
      → (read_handle h repo off size fh m.world).0 ≡ ok b
      → (read_file h repo id off size m).0 ≡ done b
  unfolding read_file file_handle
  read_file-found id off size m fh b e g r = ground arith

  -- A WriteFile that succeeds through a handle, which is not that of ".git", is read back through it:
  -- where no later call fails, a ReadFile at its offset for its length gives the bytes that were
  -- written, whatever cache file the handle had open before.
  pub read_file-write_file :
      (id off : ℕ) (b : Text) (now : ℕ) (m : Mount) (fh : FileHandle)
      → m.file_handles id ≡ some fh
      → text_eq fh.path gitfile_name ≡ false
      → (write_file h repo id off b now m).0 ≡ done tt
      → (write_file h repo id off b now m).1.world.trouble ≡ []
      → (read_file h repo id off (length b) (write_file h repo id off b now m).1).0 ≡ done b
  unfolding close_cached_file
  read_file-write_file id off b now m fh e g d calm =
      let m' = (write_file h repo id off b now m).1 in
      let (wrote, world, handle) = write_file-done id off b now m fh e d in
      let closed : FileHandle = close_cached_file (close_cached_file fh) in
      let quiet : (Engine.write h repo fh.path off b now m.world).1.trouble ≡ [] =
        rw (← world) calm in
      let read_back : (read_handle h repo off (length b) closed m'.world).0 ≡ ok b = rw world (
        read_handle-overlay off (length b) closed (Engine.write h repo fh.path off b now m.world).1
          b refl (base_cache_path-write h repo fh.path off b now m.world wrote quiet)
          (read-write h repo fh.path off b now m.world wrote quiet)) in
      read_file-found id off (length b) m' closed b handle g read_back
