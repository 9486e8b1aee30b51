-- ===== src/Overlay/Absent.antt =====
-- `WriteFile` and `Truncate` of internal/overlay/store.go on a path that has no live row.
use gitfs.Prelude.{ℕ, Text, Option, none, some, List, ◌≡◌, refl, arith, inl, inr, ◌⊎◌, [], ◌∷◌}
use gitfs.Errors.{Error, ok, err, not_exist}
use gitfs.Model.{OverlayEntry}
use gitfs.Machine.{World, attempt}
use gitfs.Path.{clean_path}
use gitfs.Overlay.Table.{select}
use gitfs.Overlay.Store.{get, live, write_file, truncate}

attempt_result : (w : World) → ((attempt w).0 ≡ ok tt) ⊎ ((e : Error) × ((attempt w).0 ≡ err e))
attempt_result w = go w.trouble refl
  where
    go :
        (t : List (Option Error))
        → w.trouble ≡ t
        → ((attempt w).0 ≡ ok tt) ⊎ ((e : Error) × ((attempt w).0 ≡ err e))
    go [] p = inl (rw p refl)
    go (none ∷ t) p = inl (rw p refl)
    go (some e ∷ t) p = inr (e, rw p refl)

get-live :
    (path : Text) (w : World)
    → live (select (clean_path path) w.table) ≡ none
    → (r : Option OverlayEntry) × ((get path w).0 ≡ ok r)
      × (live r ≡ none)
      × ((get path w).1.table ≡ w.table)
      × ((get path w).1.disk ≡ w.disk)
unfolding get
get-live path w h = elim (attempt_result w) [
  | inl e ↦ (select (clean_path path) w.table, ground arith, h, ground arith, ground arith)
  | inr e ↦ (none, ground arith, refl, ground arith, ground arith)
]

-- A path with no row, or with a whiteout, is neither written nor truncated: both calls fail with
-- ErrNotExist, and change no row and nothing on disk.
absent_fails :
    (path : Text) (off size now : ℕ) (b : Text) (w : World)
    → live (select (clean_path path) w.table) ≡ none
    → ((write_file path off b now w).0 ≡ err not_exist)
      × ((write_file path off b now w).1.table ≡ w.table)
      × ((write_file path off b now w).1.disk ≡ w.disk)
      × ((truncate path size now w).0 ≡ err not_exist)
      × ((truncate path size now w).1.table ≡ w.table)
      × ((truncate path size now w).1.disk ≡ w.disk)
unfolding write_file truncate
absent_fails path off size now b w h =
    let (r, found, gone, table, disk) = get-live path w h in
    (ground arith, ground arith, ground arith, ground arith, ground arith, ground arith)
