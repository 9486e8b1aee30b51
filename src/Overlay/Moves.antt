-- ===== src/Overlay/Moves.antt =====
-- What `Rename` of internal/overlay/store.go does to the rows, and when it cannot succeed.
use gitfs.Prelude.{
  ℕ, Text, text_eq, text_eq_iff, false, Option, none, some, List, ◌≡◌, ◌≢◌, refl, arith,
  if◌then◌else◌, ◌∙◌,
}
use gitfs.Errors.{Result, ok, err, is_ok}
use gitfs.Model.{OverlayEntry, RepoConfig}
use gitfs.Machine.{World, Exec, attempt, transaction, continue, pure}
use gitfs.Machine.Transact.{transaction-table, transaction-fails, attempt-table}
use gitfs.Machine.Disk.{mkdir_all}
use gitfs.Machine.Frame.{Frame, mkdir_all-Frame}
use gitfs.Path.{clean_path}
use gitfs.Path.Names.{dir}
use gitfs.Overlay.Table.{select, insert_row}
use gitfs.Overlay.Rows.{select-delete_path}
use gitfs.Overlay.Store.{get, backing_path, with_live}
use gitfs.Overlay.Rename.{
  Plan, plan, plan_dir, insert, rename_rows, rename_entry, rename_path, has_overlay_descendants,
  deleted_descendants,
}

-- Looking at an entry and its descendants changes nothing.
plan-Frame : (e : OverlayEntry) (old : Text) (w : World) → Frame w (plan e old w).1
unfolding plan plan_dir has_overlay_descendants deleted_descendants
plan-Frame e old w = ground arith

get-Frame : (p : Text) (w : World) → Frame w (get p w).1
unfolding get
get-Frame p w = ground arith

-- The insert meets the row that stands at the new path.
rename_rows-conflict :
    (e : OverlayEntry) (p : Plan) (old new backing : Text) (now : ℕ) (w : World) (d : OverlayEntry)
    → select new w.table ≡ some d
    → old ≢ new
    → is_ok (rename_rows e p old new backing now w).0 ≡ false
unfolding rename_rows insert insert_row
rename_rows-conflict e p old new backing now w d h n =
    ground (arith, select-delete_path old new w.table, text_eq_iff old new)

-- At rows `t` a call fails and leaves them alone.
abbrev pub Refuses : {A : Type 0} → List OverlayEntry → Exec A → Type 0
Refuses t m = (v : World) → v.table ≡ t → (is_ok (m v).0 ≡ false) × ((m v).1.table ≡ t)

-- So does one that goes on to such a call after one that leaves the rows alone.
continue-Refuses :
    {A : Type 0} (r : Result A × World) (f : A → Exec (Unit {0})) (t : List OverlayEntry)
    → r.1.table ≡ t
    → ((a : A) → Refuses t (f a))
    → (is_ok (continue r f).0 ≡ false) × ((continue r f).1.table ≡ t)
continue-Refuses (ok a, w) f t e h = h a w e
continue-Refuses (err x, w) f t e h = (refl, e)

transaction-Refuses :
    (body : Exec (Unit {0})) (f : Unit {0} → Exec (Unit {0})) (t : List OverlayEntry)
    → ((v : World) → v.table ≡ t → is_ok (body v).0 ≡ false)
    → (w : World) → w.table ≡ t
    → (is_ok (continue (transaction body w) f).0 ≡ false)
      × ((continue (transaction body w) f).1.table ≡ t)
transaction-Refuses body f t h w e =
    let fails : is_ok (transaction body w).0 ≡ false =
      transaction-fails body w (h (attempt w).1 (attempt-table w ∙ e)) in
    refused (transaction body w) fails (ground (arith, transaction-table body w))
  where
    refused :
        (r : Result (Unit {0}) × World)
        → is_ok r.0 ≡ false
        → r.1.table ≡ t
        → (is_ok (continue r f).0 ≡ false) × ((continue r f).1.table ≡ t)
    refused (ok a, v) b e' = cc
    refused (err x, v) b e' = (refl, e')

rename_entry-conflict :
    (repo : RepoConfig) (e : OverlayEntry) (old new : Text) (now : ℕ) (t : List OverlayEntry)
    (d : OverlayEntry)
    → select new t ≡ some d
    → old ≢ new
    → Refuses t (rename_entry repo e old new now)
unfolding rename_entry
rename_entry-conflict repo e old new now t d h n w same =
    let backing = backing_path repo new in
    continue-Refuses (mkdir_all (dir backing) 0o755 w) _ t
      (ground (arith, mkdir_all-Frame (dir backing) 0o755 w))
      λ _ v same_v. continue-Refuses (plan e old v) _ t (ground (arith, plan-Frame e old v)) λ p.
        transaction-Refuses (rename_rows e p old new backing now) _ t
          (λ u same_u. rename_rows-conflict e p old new backing now u d (rw same_u h) n)

with_live-Refuses :
    (found : Option OverlayEntry) (f : OverlayEntry → Exec (Unit {0})) (t : List OverlayEntry)
    → ((e : OverlayEntry) → Refuses t (f e))
    → Refuses t (with_live found f)
with_live-Refuses none f t h w same = (refl, same)
with_live-Refuses (some e) f t h w same = ground (arith, h e w same)

-- A rename to a path that has a row of any kind, a whiteout included, never succeeds, and leaves
-- every row as it was.
pub rename_path-conflict :
    (repo : RepoConfig) (old_path new_path : Text) (now : ℕ) (w : World) (d : OverlayEntry)
    → select (clean_path new_path) w.table ≡ some d
    → clean_path old_path ≢ clean_path new_path
    → (is_ok (rename_path repo old_path new_path now w).0 ≡ false)
      × ((rename_path repo old_path new_path now w).1.table ≡ w.table)
unfolding rename_path
rename_path-conflict repo old_path new_path now w d h n =
    continue-Refuses (get (clean_path old_path) w) _ w.table
      (ground (arith, get-Frame (clean_path old_path) w))
      (λ found. with_live-Refuses found _ w.table λ e. differs e)
  where
    differs :
        (e : OverlayEntry)
        → Refuses w.table (
            if text_eq (clean_path old_path) (clean_path new_path)
            then pure tt
            else rename_entry repo e (clean_path old_path) (clean_path new_path) now)
    differs e =
        let different : text_eq (clean_path old_path) (clean_path new_path) ≡ false =
          ground (arith, text_eq_iff (clean_path old_path) (clean_path new_path)) in
        rw different (
          rename_entry-conflict repo e (clean_path old_path) (clean_path new_path) now w.table d h
            n)
