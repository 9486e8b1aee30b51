-- ===== src/Overlay/Created.antt =====
-- What `CreateFile` and `Mkdir` of internal/overlay/store.go leave on disk.
use gitfs.Prelude.{
  ℕ, Text, text_eq, text_eq_refl, Bool, true, false, not, ◌&&◌, Option, none, some, [], ◌≡◌, arith,
}
use gitfs.Errors.{is_ok}
use gitfs.Model.{RepoConfig}
use gitfs.Path.{clean_path}
use gitfs.Machine.{World, DiskNode}
use gitfs.Machine.Disk.{find_node, write_empty, mkdir_all, chmod}
use gitfs.Machine.Files.{find_node-put_node}
use gitfs.Overlay.Contents.{upsert_entry-disk}
use gitfs.Overlay.Store.{backing_path, create_file, make_dir}

abbrev pub is_empty_file : Option DiskNode → Bool
is_empty_file none = false
is_empty_file (some n) = not n.is_dir && text_eq n.content []

-- A file is there, with nothing in it.
abbrev pub empty_file_at : Text → World → Bool
empty_file_at p w = is_empty_file (find_node p w.disk)

write_empty-empty_file :
    (p : Text) (mode : ℕ) (w : World)
    → is_ok (write_empty p mode w).0 ≡ true
    → empty_file_at p (write_empty p mode w).1 ≡ true
unfolding write_empty text_eq
write_empty-empty_file p mode w h = grind (arith, text_eq_refl, find_node-put_node)

pub create_file-empty_file :
    (repo : RepoConfig) (path : Text) (mode now : ℕ) (w : World)
    → is_ok (create_file repo path mode now w).0 ≡ true
    → empty_file_at (backing_path repo path) (create_file repo path mode now w).1 ≡ true
unfolding create_file
create_file-empty_file repo path mode now w h =
    grind (arith, write_empty-empty_file, upsert_entry-disk)

abbrev pub is_directory : Option DiskNode → Bool
is_directory none = false
is_directory (some n) = n.is_dir

abbrev pub directory_at : Text → World → Bool
directory_at p w = is_directory (find_node p w.disk)

mkdir_all-directory :
    (p : Text) (mode : ℕ) (w : World)
    → is_ok (mkdir_all p mode w).0 ≡ true
    → directory_at p (mkdir_all p mode w).1 ≡ true
unfolding mkdir_all
mkdir_all-directory p mode w h = grind (arith, text_eq_refl, find_node-put_node)

chmod-directory :
    (p : Text) (mode : ℕ) (w : World)
    → directory_at p w ≡ true
    → directory_at p (chmod p mode w).1 ≡ true
unfolding chmod
chmod-directory p mode w h = grind (arith, text_eq_refl, find_node-put_node)

pub make_dir-directory :
    (repo : RepoConfig) (path : Text) (mode now : ℕ) (w : World)
    → is_ok (make_dir repo path mode now w).0 ≡ true
    → directory_at (backing_path repo (clean_path path)) (make_dir repo path mode now w).1 ≡ true
unfolding make_dir
make_dir-directory repo path mode now w h =
    grind (arith, mkdir_all-directory, chmod-directory, upsert_entry-disk)
