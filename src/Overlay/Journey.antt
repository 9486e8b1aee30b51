-- ===== src/Overlay/Journey.antt =====
-- `Rename` of internal/overlay/store.go as a whole: what a call that succeeds did.
use gitfs.Prelude.{
  ℕ, Text, text_eq, text_eq_iff, Bool, true, false, not, ◌&&◌, some, List, ◌≡◌, ◌≢◌, refl, arith,
  if◌then◌else◌, [], ◌∙◌, ap,
}
use gitfs.Errors.{Result, ok}
use gitfs.Model.{
  OverlayEntry, OverlayKind, RepoConfig, kind_eq, create, delete, rename, mkdir, is_deleted,
  normalize_git_dir_mode,
}
use gitfs.Machine.{World, Exec, attempt, transaction, continue, pure}
use gitfs.Machine.Disk.{mkdir_all, os_rename}
use gitfs.Machine.Frame.{mkdir_all-Frame, os_rename-Frame, chmod-Frame}
use gitfs.Machine.Transact.{continue-rule, transaction-table, transaction-ok, attempt-table}
use gitfs.Path.{clean_path}
use gitfs.Path.Normal.{clean_path_idem}
use gitfs.Path.Names.{dir}
use gitfs.Overlay.Table.{select}
use gitfs.Overlay.Rows.{IsKeyed}
use gitfs.Overlay.Store.{backing_path}
use gitfs.Overlay.Contents.{FoundLive, found_live}
use gitfs.Overlay.Rename.{
  Plan, plan, plan_dir, rename_rows, move_backing, rename_entry, rename_path,
  has_overlay_descendants, deleted_descendants,
}
use gitfs.Overlay.Renamed.{moved_row, rename_rows-moved}

-- What a rename makes of an entry. A chain of renames keeps the path that the first one left.
abbrev pub kept_kind : OverlayKind → OverlayKind
kept_kind create = create
kept_kind OverlayKind.symlink = OverlayKind.symlink
kept_kind mkdir = mkdir
kept_kind _ = rename

abbrev pub has_base : OverlayKind → Bool
has_base create = false
has_base OverlayKind.symlink = false
has_base mkdir = false
has_base _ = true

abbrev pub origin : OverlayEntry → Text → Text
origin e old =
    if kind_eq e.kind rename && not (text_eq e.target_path []) then e.target_path else old

abbrev pub settled : OverlayEntry → Text → Plan
settled e old = record {
  kind = kept_kind e.kind;
  target = if has_base e.kind then origin e old else [];
  whiteout = has_base e.kind;
  mode = if kind_eq e.kind mkdir then (normalize_git_dir_mode e.mode).0 else e.mode;
  normalized = false;
  whiteouts_below = [];
}

abbrev Agrees : Plan → Plan → Type 0
Agrees p r =
    (p.kind ≡ r.kind) × (p.target ≡ r.target) × (p.whiteout ≡ r.whiteout) × (p.mode ≡ r.mode)

plan-settled :
    (e : OverlayEntry) (old : Text) (v v' : World) (p : Plan)
    → is_deleted e ≡ false
    → plan e old v ≡ (ok p, v')
    → Agrees p (settled e old) × (v'.table ≡ v.table)
unfolding plan plan_dir has_overlay_descendants deleted_descendants
plan-settled e old v v' p here h = ground arith

kept_kind-live : (e : OverlayEntry) (old : Text) → kind_eq (settled e old).kind delete ≡ false
kept_kind-live e old = ground arith

moved_row-Agrees :
    (p r : Plan) (e : OverlayEntry) (old new backing : Text) (now : ℕ) (q : Text)
    (t : List OverlayEntry)
    → Agrees p r
    → moved_row p e old new backing now q t ≡ moved_row r e old new backing now q t
moved_row-Agrees p r e old new backing now q t (k, g, o, m) = rw (k, g, o, m)

move_backing-table :
    (e : OverlayEntry) (p : Plan) (old new backing : Text) (v : World)
    → (move_backing e p old new backing v).0 ≡ ok tt
    → (move_backing e p old new backing v).1.table ≡ v.table
unfolding move_backing
move_backing-table e p old new backing v h = ground (
  arith,
  os_rename-Frame e.backing_path backing v,
  chmod-Frame backing p.mode (os_rename e.backing_path backing v).1,
)

-- From the transaction on.
committed-rows :
    (e : OverlayEntry) (p : Plan) (old new backing : Text) (now : ℕ) (q : Text) (v : World)
    → IsKeyed v.table
    → old ≢ new
    → kind_eq p.kind delete ≡ false
    → (continue
        (transaction (rename_rows e p old new backing now) v)
        (λ _. move_backing e p old new backing)).0
      ≡ ok tt
    → select q
        (continue
          (transaction (rename_rows e p old new backing now) v)
          (λ _. move_backing e p old new backing)).1.table
      ≡ moved_row p e old new backing now q v.table
committed-rows e p old new backing now q v k n alive h =
    continue-rule (λ u. select q u.table ≡ moved_row p e old new backing now q v.table)
      (transaction body v) _ tt h
      λ _ u done moved. rw (move_backing-table e p old new backing u moved) (in_rows u done)
  where
    body : Exec (Unit {0})
    body = rename_rows e p old new backing now

    from : World
    from = (attempt v).1

    in_rows :
        (u : World)
        → transaction body v ≡ (ok tt, u)
        → select q u.table ≡ moved_row p e old new backing now q v.table
    in_rows u done =
        let succeeded : (body from).0 ≡ ok tt =
          transaction-ok body v tt (ap (λ (r : Result (Unit {0}) × World). r.0) done) in
        ground (
          arith,
          transaction-table body v,
          attempt-table v,
          rename_rows-moved e p old new backing now from q (rw attempt-table k) n alive succeeded,
        )

rename_entry-rows :
    (repo : RepoConfig) (e : OverlayEntry) (old new : Text) (now : ℕ) (w : World) (q : Text)
    → IsKeyed w.table
    → old ≢ new
    → is_deleted e ≡ false
    → (rename_entry repo e old new now w).0 ≡ ok tt
    → select q (rename_entry repo e old new now w).1.table
      ≡ moved_row (settled e old) e old new (backing_path repo new) now q w.table
unfolding rename_entry
rename_entry-rows repo e old new now w q k n here h =
    continue-rule Q (mkdir_all (dir backing) 0o755 w) _ tt h λ _ v1 made h1.
      continue-rule Q (plan e old v1) _ tt h1 λ p v2 planned h2. after_plan v1 v2 p made planned h2
  where
    backing : Text
    backing = backing_path repo new

    Q : World → Type 0
    Q u = select q u.table ≡ moved_row (settled e old) e old new backing now q w.table

    after_plan :
        (v1 v2 : World) (p : Plan)
        → mkdir_all (dir backing) 0o755 w ≡ (ok tt, v1)
        → plan e old v1 ≡ (ok p, v2)
        → (continue
            (transaction (rename_rows e p old new backing now) v2)
            (λ _. move_backing e p old new backing)).0
          ≡ ok tt
        → Q
            (continue
              (transaction (rename_rows e p old new backing now) v2)
              (λ _. move_backing e p old new backing)).1
    after_plan v1 v2 p made planned h2 =
        let (agrees, same) = plan-settled e old v1 v2 p here planned in
        let unchanged : v2.table ≡ w.table =
          ground (arith, mkdir_all-Frame (dir backing) 0o755 w) in
        let alive : kind_eq p.kind delete ≡ false = ground (arith, kept_kind-live e old) in
        committed-rows e p old new backing now q v2 (rw unchanged k) n alive h2
        ∙ (rw unchanged (moved_row-Agrees p (settled e old) e old new backing now q w.table agrees))

-- A `Rename` between two paths that are not the same, over rows with unique paths, that succeeds
-- found a live row for the old path. The new path then has that row, with its kind kept (`create`,
-- `symlink`, `mkdir`) or turned into `rename`; the old path has a whiteout exactly if the row
-- stands for a path of the base, both then naming the path from which the first rename of the chain
-- came, and else no row; under a directory that was renamed the whiteouts are gone; every other
-- path has the row that it had.
pub rename_path-moved :
    (repo : RepoConfig) (old_path new_path : Text) (now : ℕ) (w : World)
    → IsKeyed w.table
    → clean_path old_path ≢ clean_path new_path
    → (rename_path repo old_path new_path now w).0 ≡ ok tt
    → (e : OverlayEntry) × (select (clean_path old_path) w.table ≡ some e)
      × (is_deleted e ≡ false)
      × ((q : Text)
          → select q (rename_path repo old_path new_path now w).1.table
            ≡ moved_row
                (settled e (clean_path old_path))
                e
                (clean_path old_path)
                (clean_path new_path)
                (backing_path repo (clean_path new_path))
                now
                q
                w.table)
unfolding rename_path
rename_path-moved repo old_path new_path now w k n h =
    let r : FoundLive old f w = found_live old f w h in
    let v = r.after_get in
    let goes : f r.entry v ≡ rename_entry repo r.entry old new now v = rw distinct refl in
    let renamed : (rename_entry repo r.entry old new now v).0 ≡ ok tt = rw (r.goes_on, goes) at h in
    rw (r.goes_on, goes)
      (
        r.entry,
        rw clean_path_idem at r.at_path,
        r.is_live,
        λ q.
            rename_entry-rows repo r.entry old new now v q (rw r.same_table k) n r.is_live renamed
            ∙ (rw r.same_table refl),
      )
  where
    old : Text
    old = clean_path old_path

    new : Text
    new = clean_path new_path

    f : OverlayEntry → Exec (Unit {0})
    f e = if text_eq old new then pure tt else rename_entry repo e old new now

    distinct : text_eq old new ≡ false
    distinct = ground (arith, text_eq_iff old new)
