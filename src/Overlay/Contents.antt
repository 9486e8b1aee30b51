-- ===== src/Overlay/Contents.antt =====
-- `WriteFile` and `Truncate` of internal/overlay/store.go: the contents of the backing file and the
-- size in its row.
use gitfs.Prelude.{
  ℕ, Text, text_eq, false, Option, none, some, ◌≡◌, refl, arith, if◌then◌else◌, length, Bool-cases,
  inl, inr,
}
use gitfs.Errors.{Result, ok, err}
use gitfs.Model.{OverlayEntry, is_deleted}
use gitfs.Machine.{World, Exec, continue}
use gitfs.Machine.Disk.{after_write, resize, write_at, stat_size, os_truncate}
use gitfs.Machine.Files.{
  content_at, write_at-content, stat_size-content, stat_size-disk, os_truncate-content,
  length-resize,
}
use gitfs.Machine.Frame.{write_at-Frame, stat_size-Frame, os_truncate-Frame}
use gitfs.Path.{clean_path}
use gitfs.Overlay.Table.{select, upsert}
use gitfs.Overlay.Rows.{select-upsert, path-select}
use gitfs.Overlay.Store.{
  get, with_live, touched, upsert_entry, write_entry, truncate_entry, write_file, truncate,
}

-- A `get` that finds a row finds the row of the table, and changes nothing.
pub get-row :
    (path : Text) (w w' : World) (e : OverlayEntry)
    → get path w ≡ (ok (some e), w')
    → (select (clean_path path) w.table ≡ some e) × (w'.table ≡ w.table) × (w'.disk ≡ w.disk)
unfolding get
get-row path w w' e h = ground arith

-- A call that goes on only with a live entry, and that succeeds, has one.
pub record FoundLive (path : Text) (f : OverlayEntry → Exec (Unit {0})) (w : World) : Type 0 where
  pub entry : OverlayEntry
  pub after_get : World
  pub at_path : select (clean_path path) w.table ≡ some entry
  pub is_live : is_deleted entry ≡ false
  pub same_table : after_get.table ≡ w.table
  pub same_disk : after_get.disk ≡ w.disk
  pub goes_on : continue (get path w) (λ found. with_live found f) ≡ f entry after_get

FoundLive-from :
    (path : Text) (f : OverlayEntry → Exec (Unit {0})) (w : World)
    (r : Result (Option OverlayEntry) × World)
    → get path w ≡ r
    → (continue (get path w) (λ found. with_live found f)).0 ≡ ok tt
    → FoundLive path f w
FoundLive-from path f w (ok (some e), w') g h = elim (Bool-cases (is_deleted e)) [
  | inl gone ↦ absurd (ground arith)
  | inr here ↦
      let (row, table, disk) = get-row path w w' e g in
      record {
        entry = e;
        after_get = w';
        at_path = row;
        is_live = here;
        same_table = table;
        same_disk = disk;
        goes_on = rw g (ground arith);
      }
]
FoundLive-from path f w (ok none, w') g h = absurd (ground arith)
FoundLive-from path f w (err x, w') g h = absurd (ground arith)

pub found_live :
    (path : Text) (f : OverlayEntry → Exec (Unit {0})) (w : World)
    → (continue (get path w) (λ found. with_live found f)).0 ≡ ok tt
    → FoundLive path f w
found_live path f w h = FoundLive-from path f w (get path w) refl h

abbrev pub Touched : OverlayEntry → ℕ → World → World → Type 0
Touched e now w w' =
    (q : Text)
    → select q w'.table ≡ (
        if text_eq e.path q
        then some (touched e (length (content_at e.backing_path w')) now)
        else select q w.table)

upsert_entry-table :
    (e : OverlayEntry) (w : World)
    → (upsert_entry e w).0 ≡ ok tt
    → (upsert_entry e w).1.table ≡ upsert e w.table
unfolding upsert_entry
upsert_entry-table e w h = ground arith

pub upsert_entry-disk : (e : OverlayEntry) (w : World) → (upsert_entry e w).1.disk ≡ w.disk
unfolding upsert_entry
upsert_entry-disk e w = ground arith

write_entry-content :
    (e : OverlayEntry) (off : ℕ) (b : Text) (now : ℕ) (w : World)
    → (write_entry e off b now w).0 ≡ ok tt
    → content_at e.backing_path (write_entry e off b now w).1
      ≡ after_write (content_at e.backing_path w) off b
unfolding write_entry
write_entry-content e off b now w h = ground (
  arith,
  write_at-content e.backing_path e.mode off b w,
  stat_size-content e.backing_path w1,
  stat_size-disk e.backing_path w1,
  upsert_entry-disk (touched e (length (content_at e.backing_path w1)) now)
      (stat_size e.backing_path w1).1,
)
  where
    w1 : World
    w1 = (write_at e.backing_path e.mode off b w).1

pub write_entry-Touched :
    (e : OverlayEntry) (off : ℕ) (b : Text) (now : ℕ) (w : World)
    → (write_entry e off b now w).0 ≡ ok tt
    → Touched e now w (write_entry e off b now w).1
unfolding write_entry
write_entry-Touched e off b now w h q = ground (
  arith,
  write_at-Frame e.backing_path e.mode off b w,
  stat_size-content e.backing_path w1,
  stat_size-disk e.backing_path w1,
  stat_size-Frame e.backing_path w1,
  upsert_entry-disk e' (stat_size e.backing_path w1).1,
  upsert_entry-table e' (stat_size e.backing_path w1).1,
  select-upsert e' q w.table,
)
  where
    w1 : World
    w1 = (write_at e.backing_path e.mode off b w).1

    e' : OverlayEntry
    e' = touched e (length (content_at e.backing_path w1)) now

truncate_entry-content :
    (e : OverlayEntry) (n now : ℕ) (w : World)
    → (truncate_entry e n now w).0 ≡ ok tt
    → content_at e.backing_path (truncate_entry e n now w).1
      ≡ resize n (content_at e.backing_path w)
unfolding truncate_entry
truncate_entry-content e n now w h = ground (
  arith,
  os_truncate-content e.backing_path n w,
  upsert_entry-disk (touched e n now) (os_truncate e.backing_path n w).1,
)

truncate_entry-Touched :
    (e : OverlayEntry) (n now : ℕ) (w : World)
    → (truncate_entry e n now w).0 ≡ ok tt
    → Touched e now w (truncate_entry e n now w).1
unfolding truncate_entry
truncate_entry-Touched e n now w h q = ground (
  arith,
  os_truncate-content e.backing_path n w,
  os_truncate-Frame e.backing_path n w,
  length-resize n (content_at e.backing_path w),
  upsert_entry-disk (touched e n now) (os_truncate e.backing_path n w).1,
  upsert_entry-table (touched e n now) (os_truncate e.backing_path n w).1,
  select-upsert (touched e n now) q w.table,
)

-- The world after a call that gives a live file new contents.
abbrev pub Rewritten : Text → ℕ → World → World → (Text → Text) → Type 0
Rewritten path now w w' change =
    (e : OverlayEntry) × (select (clean_path path) w.table ≡ some e)
    × (is_deleted e ≡ false)
    × (content_at e.backing_path w' ≡ change (content_at e.backing_path w))
    × ((q : Text)
        → select q w'.table ≡ (
            if text_eq (clean_path path) q
            then some (touched e (length (content_at e.backing_path w')) now)
            else select q w.table))

rewritten :
    (path : Text) (now : ℕ) (f : OverlayEntry → Exec (Unit {0})) (change : Text → Text) (w : World)
    → ((e : OverlayEntry) (v : World)
        → (f e v).0 ≡ ok tt
        → (content_at e.backing_path (f e v).1 ≡ change (content_at e.backing_path v))
          × Touched e now v (f e v).1)
    → (continue (get path w) (λ found. with_live found f)).0 ≡ ok tt
    → Rewritten path now w (continue (get path w) (λ found. with_live found f)).1 change
rewritten path now f change w effect h =
    let r : FoundLive path f w = found_live path f w h in
    let (contents, rows) = effect r.entry r.after_get (rw r.goes_on at h) in
    rw r.goes_on (
      r.entry,
      r.at_path,
      r.is_live,
      ground (arith, contents, r.same_disk),
      λ q.
          ground
            (arith, rows q, r.same_table, path-select (clean_path path) w.table r.entry r.at_path),
    )

-- A `WriteFile` that succeeds found a live row for its path. The file behind the row then has the
-- old bytes with the new ones written over them from `off` on, the gap before them filled with
-- zeros; the row has the number of the file's bytes as its size and `now` as both of its times, and
-- is a `create` row if it was one and else a `modify` row; no other row changed.
pub write_file-Rewritten :
    (path : Text) (off : ℕ) (b : Text) (now : ℕ) (w : World)
    → (write_file path off b now w).0 ≡ ok tt
    → Rewritten path now w (write_file path off b now w).1 (λ old. after_write old off b)
unfolding write_file
write_file-Rewritten path off b now w h =
    rewritten path now (λ e. write_entry e off b now) (λ old. after_write old off b) w
      (λ e v g. (write_entry-content e off b now v g, write_entry-Touched e off b now v g)) h

-- A `Truncate` that succeeds found a live row for its path. The file behind the row then has
-- exactly `size` bytes, the old ones and zeros after them; the row changed as by a write, with that
-- size; no other row changed.
pub truncate-Rewritten :
    (path : Text) (size now : ℕ) (w : World)
    → (truncate path size now w).0 ≡ ok tt
    → Rewritten path now w (truncate path size now w).1 (resize size)
unfolding truncate
truncate-Rewritten path size now w h =
    rewritten path now (λ e. truncate_entry e size now) (resize size) w
      (λ e v g. (truncate_entry-content e size now v g, truncate_entry-Touched e size now v g)) h
