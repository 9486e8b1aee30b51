-- ===== src/Overlay/Backed.antt =====
-- After `WriteFile` of internal/overlay/store.go the row of the path has a file behind it.
use gitfs.Prelude.{
  ℕ, Text, text_eq_refl, Bool, true, false, not, Option, none, some, ◌≡◌, arith, length, [],
}
use gitfs.Errors.{ok}
use gitfs.Model.{OverlayEntry}
use gitfs.Machine.{World, DiskNode}
use gitfs.Machine.Disk.{find_node, open_create, write_open, write_at}
use gitfs.Machine.Files.{find_node-put_node, stat_size-disk, content_at}
use gitfs.Path.{clean_path}
use gitfs.Overlay.Table.{select}
use gitfs.Overlay.Rows.{path-select}
use gitfs.Overlay.Contents.{FoundLive, found_live, Touched, write_entry-Touched, upsert_entry-disk}
use gitfs.Overlay.Store.{touched, write_entry, write_file}

abbrev pub is_file : Option DiskNode → Bool
is_file none = false
is_file (some n) = not n.is_dir

abbrev pub file_at : Text → World → Bool
file_at p w = is_file (find_node p w.disk)

open_create-file :
    (p : Text) (m : ℕ) (w : World)
    → (open_create p m w).0 ≡ ok tt
    → file_at p (open_create p m w).1 ≡ true
unfolding open_create
open_create-file p m w h = ground (
  arith,
  text_eq_refl p,
  find_node-put_node (record { name = p; is_dir = false; mode = m; content = [] }) p w.disk,
)

write_open-file :
    (p : Text) (off : ℕ) (b : Text) (w : World)
    → file_at p w ≡ true
    → (write_open p off b w).0 ≡ ok tt
    → file_at p (write_open p off b w).1 ≡ true
unfolding write_open
write_open-file p off b w f h = grind (arith, text_eq_refl, find_node-put_node)

write_at-file :
    (p : Text) (m off : ℕ) (b : Text) (w : World)
    → (write_at p m off b w).0 ≡ ok tt
    → file_at p (write_at p m off b w).1 ≡ true
unfolding write_at
write_at-file p m off b w h =
    ground (arith, open_create-file p m w, write_open-file p off b (open_create p m w).1)

write_entry-file :
    (e : OverlayEntry) (off : ℕ) (b : Text) (now : ℕ) (w : World)
    → (write_entry e off b now w).0 ≡ ok tt
    → file_at e.backing_path (write_entry e off b now w).1 ≡ true
unfolding write_entry
write_entry-file e off b now w h = grind (arith, write_at-file, stat_size-disk, upsert_entry-disk)

-- The row of the path, with a file behind it.
abbrev pub Backed : Text → World → Type 0
Backed path w =
    (e : OverlayEntry) × (select (clean_path path) w.table ≡ some e)
    × (file_at e.backing_path w ≡ true)

pub write_file-Backed :
    (path : Text) (off : ℕ) (b : Text) (now : ℕ) (w : World)
    → (write_file path off b now w).0 ≡ ok tt
    → Backed path (write_file path off b now w).1
unfolding write_file
write_file-Backed path off b now w h =
    let r : FoundLive path (λ e. write_entry e off b now) w =
      found_live path (λ e. write_entry e off b now) w h in
    let done : (write_entry r.entry off b now r.after_get).0 ≡ ok tt = rw r.goes_on at h in
    let rows : Touched r.entry now r.after_get (write_entry r.entry off b now r.after_get).1 =
      write_entry-Touched r.entry off b now r.after_get done in
    let same : r.entry.path ≡ clean_path path =
      path-select (clean_path path) w.table r.entry r.at_path in
    rw r.goes_on (
      touched r.entry
          (length (content_at r.entry.backing_path (write_entry r.entry off b now r.after_get).1))
          now,
      ground (arith, rows (clean_path path), same, text_eq_refl (clean_path path)),
      write_entry-file r.entry off b now r.after_get done,
    )
