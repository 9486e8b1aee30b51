-- ===== src/Engine/ReadBack.antt =====
-- Reads of internal/fusefs/ops.go after its writes.
use gitfs.Prelude.{
  ℕ, zero, suc, ◌+◌, Text, text_eq_refl, true, false, none, some, [], ◌∷◌, ◌++◌, ◌≡◌, refl, arith,
  ap, ◌∙◌, length, take, drop,
}
use gitfs.Errors.{ok}
use gitfs.Model.{OverlayEntry, RepoConfig, is_deleted}
use gitfs.Machine.{World}
use gitfs.Machine.Disk.{after_write, write_bytes, resize}
use gitfs.Machine.Files.{content_at, length-resize}
use gitfs.Machine.Transact.{continue-rule}
use gitfs.Path.{clean_path}
use gitfs.Path.Normal.{clean_path_idem}
use gitfs.Overlay.Table.{select}
use gitfs.Overlay.Contents.{Rewritten, write_file-Rewritten, truncate-Rewritten}
use gitfs.Overlay.Backed.{file_at, Backed, write_file-Backed}
use gitfs.Overlay.Store.{get, touched, write_file}
use gitfs.Overlay.Store
use gitfs.Resolver.{getattr, Attrs, overlay_attrs}
use gitfs.Resolver.View.{get-calm, getattr-attrs_at}
use gitfs.Engine.{Hydrator, read_file_chunk, read, write, truncate, base_cache_path}

drop-resize : (n : ℕ) (t r : Text) → drop n (resize n t ++ r) ≡ r
unfolding resize
drop-resize zero t r = refl
drop-resize (suc n) [] r = drop-resize n [] r
drop-resize (suc n) (b ∷ t) r = drop-resize n t r

take-length : (b r : Text) → take (length b) (b ++ r) ≡ b
take-length [] r = refl
take-length (x ∷ b) r = ground (arith, take-length b r)

-- The bytes that were written stand at their offset.
written-read :
    (old : Text) (off : ℕ) (b : Text) → take (length b) (drop off (after_write old off b)) ≡ b
unfolding write_bytes
written-read old off [] = refl
written-read old off (x ∷ b) = ground (
  arith,
  drop-resize off old ((x ∷ b) ++ drop (off + length (x ∷ b)) old),
  take-length (x ∷ b) (drop (off + length (x ∷ b)) old),
)

-- A read of a live row in a world without trouble gives the bytes of the file behind it.
read-file :
    (h : Hydrator) (repo : RepoConfig) (path : Text) (off size : ℕ) (w : World) (e : OverlayEntry)
    → w.trouble ≡ []
    → select (clean_path path) w.table ≡ some e
    → is_deleted e ≡ false
    → file_at e.backing_path w ≡ true
    → (read h repo path off size w).0 ≡ ok (take size (drop off (content_at e.backing_path w)))
unfolding read read_file_chunk
read-file h repo path off size w e calm row alive file = ground (arith, get-calm path w calm)

live-touched : (e : OverlayEntry) (size now : ℕ) → is_deleted (touched e size now) ≡ false
live-touched e size now = ground arith

-- What a call that rewrote a live row leaves for the reads.
abbrev Wrote : Text → ℕ → (Text → Text) → World → Type 0
Wrote path now change w' =
    (e : OverlayEntry) × (old : Text) × (select (clean_path path) w'.table
      ≡ some (touched e (length (content_at e.backing_path w')) now))
    × (content_at e.backing_path w' ≡ change old)

wrote :
    (path : Text) (now : ℕ) (change : Text → Text) (w w' : World)
    → Rewritten path now w w' change
    → Wrote path now change w'
wrote path now change w w' (e, row, alive, content, rows) = (
  e,
  content_at e.backing_path w,
  ground (arith, rows (clean_path path), text_eq_refl (clean_path path)),
  content,
)

getattr-Wrote :
    (path : Text) (now : ℕ) (change : Text → Text) (w : World)
    → w.trouble ≡ []
    → Wrote path now change w
    → (a : Attrs) × (old : Text) × ((getattr path w).0 ≡ ok a)
      × (a.size ≡ length (change old))
      × (a.mtime ≡ now)
getattr-Wrote path now change w calm (e, old, row, content) =
    let e' = touched e (length (content_at e.backing_path w)) now in
    (
      overlay_attrs e',
      old,
      ground (arith, getattr-attrs_at path w calm, row),
      ap length content,
      refl,
    )

read-Wrote :
    (h : Hydrator) (repo : RepoConfig) (path : Text) (now off : ℕ) (b : Text) (w : World)
    → w.trouble ≡ []
    → Wrote path now (λ old. after_write old off b) w
    → Backed path w
    → (read h repo path off (length b) w).0 ≡ ok b
read-Wrote h repo path now off b w calm (e, old, row, content) (d, row', file) =
    let e' = touched e (length (content_at e.backing_path w)) now in
    ground (
      arith,
      read-file h repo path off (length b) w e' calm row (live-touched e _ now),
      written-read old off b,
    )

base_cache_path-live :
    (h : Hydrator) (repo : RepoConfig) (path : Text) (w : World) (e : OverlayEntry)
    → w.trouble ≡ []
    → select (clean_path path) w.table ≡ some e
    → is_deleted e ≡ false
    → base_cache_path h repo path w ≡ (ok none, w)
unfolding base_cache_path
base_cache_path-live h repo path w e calm row alive =
    ground (arith, get-calm (clean_path path) w calm, clean_path_idem path)

module _ (h : Hydrator) (repo : RepoConfig) where
  write-Wrote :
      (path : Text) (off : ℕ) (b : Text) (now : ℕ) (w : World)
      → (write h repo path off b now w).0 ≡ ok tt
      → Wrote path now (λ old. after_write old off b) (write h repo path off b now w).1
        × Backed path (write h repo path off b now w).1
  unfolding write
  write-Wrote path off b now w r =
      continue-rule (λ w'. Wrote path now (λ old. after_write old off b) w' × Backed path w') _ _ _
        r
        λ a v eq done. (
          wrote path now (λ old. after_write old off b) v (write_file path off b now v).1
              (write_file-Rewritten path off b now v done),
          write_file-Backed path off b now v done,
        )

  truncate-Wrote :
      (path : Text) (size now : ℕ) (w : World)
      → (truncate h repo path size now w).0 ≡ ok tt
      → Wrote path now (resize size) (truncate h repo path size now w).1
  unfolding truncate
  truncate-Wrote path size now w r =
      continue-rule (λ w'. Wrote path now (resize size) w') _ _ _ r
        λ a v eq done.
          wrote path now (resize size) v (Store.truncate path size now v).1
            (truncate-Rewritten path size now v done)

  -- A write that succeeds is read back: where no later call fails, a read at its offset for its
  -- length gives the bytes that were written.
  pub read-write :
      (path : Text) (off : ℕ) (b : Text) (now : ℕ) (w : World)
      → (write h repo path off b now w).0 ≡ ok tt
      → (write h repo path off b now w).1.trouble ≡ []
      → (read h repo path off (length b) (write h repo path off b now w).1).0 ≡ ok b
  read-write path off b now w r calm =
      let (done, backed) = write-Wrote path off b now w r in
      read-Wrote h repo path now off b (write h repo path off b now w).1 calm done backed

  -- Then the overlay has the path, and no cache file stands for it.
  pub base_cache_path-write :
      (path : Text) (off : ℕ) (b : Text) (now : ℕ) (w : World)
      → (write h repo path off b now w).0 ≡ ok tt
      → (write h repo path off b now w).1.trouble ≡ []
      → base_cache_path h repo path (write h repo path off b now w).1
        ≡ (ok none, (write h repo path off b now w).1)
  base_cache_path-write path off b now w r calm =
      let (e, old, row, content) = (write-Wrote path off b now w r).0 in
      base_cache_path-live h repo path (write h repo path off b now w).1
        (touched e (length (content_at e.backing_path (write h repo path off b now w).1)) now) calm
        row
        (live-touched e (length (content_at e.backing_path (write h repo path off b now w).1)) now)

  -- After a truncation that succeeds, and where no later call fails, the attributes of the path
  -- have the size that was asked for and the time of the truncation.
  pub getattr-truncate :
      (path : Text) (size now : ℕ) (w : World)
      → (truncate h repo path size now w).0 ≡ ok tt
      → (truncate h repo path size now w).1.trouble ≡ []
      → (a : Attrs) × ((getattr path (truncate h repo path size now w).1).0 ≡ ok a)
        × (a.size ≡ size)
        × (a.mtime ≡ now)
  getattr-truncate path size now w r calm =
      let (a, old, got, sized, timed) =
        getattr-Wrote path now (resize size) (truncate h repo path size now w).1 calm
          (truncate-Wrote path size now w r) in
      (a, got, sized ∙ length-resize size old, timed)
