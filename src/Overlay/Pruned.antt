-- ===== src/Overlay/Pruned.antt =====
-- What the deletes of `Reconcile` in internal/overlay/store.go keep.
use gitfs.Prelude.{
  Text, text_eq_iff, text_eq_refl, Bool, true, false, not, ◌&&◌, ◌||◌, none, some, List, [], ◌∷◌,
  ◌≡◌, refl, ◌∙◌, ap, arith, any, keep, reverse, sort_by, if◌then◌else◌, Option-cases, inl, inr,
  ==_iff,
}
use gitfs.Prelude.Any.{any-append, any-keep, any-sort_by}
use gitfs.Errors.{Result, ok, err, is_ok}
use gitfs.Model.{OverlayEntry, kind_eq}
use gitfs.Machine.{World, Exec, attempt, transaction, continue, ◌>>◌, ignore}
use gitfs.Machine.Transact.{transaction-table, transaction-fails, attempt-table}
use gitfs.Machine.Disk.{os_remove}
use gitfs.Machine.Frame.{os_remove-Frame}
use gitfs.Overlay.Table.{select, same_version, delete_version}
use gitfs.Overlay.Rows.{IsKeyed, passing, select-keep, keep-IsKeyed, path-select}
use gitfs.Overlay.Reconcile.{
  Base, is_stale_change, is_stale_other, to_remove, delete_versions, remove_backings, prune,
  prune_some,
}

-- The entries in the order of the query.
abbrev pub in_order : List OverlayEntry → List OverlayEntry
in_order t = sort_by (λ e. e.path) t

-- Whether one of the two loops marks an entry.
abbrev pub is_stale : Base → List OverlayEntry → OverlayEntry → Bool
is_stale base all e = is_stale_change base e || is_stale_other base all e

kind_eq_refl : (e : OverlayEntry) → kind_eq e.kind e.kind ≡ true
kind_eq_refl e = ground arith

same_version_refl : (e : OverlayEntry) → same_version e e ≡ true
same_version_refl e =
    ground (
      arith,
      text_eq_refl e.path,
      text_eq_refl e.source_oid,
      kind_eq_refl e,
      ==_iff e.mtime e.mtime,
    )

same_version-path : (d e : OverlayEntry) → same_version d e ≡ true → d.path ≡ e.path
same_version-path d e h = ground (arith, text_eq_iff d.path e.path)

-- Where no row has the path of `d`, none is a version of it.
no_version :
    (f : OverlayEntry → Bool) (d : OverlayEntry) (t : List OverlayEntry)
    → select d.path t ≡ none
    → any (λ e. f e && same_version d e) t ≡ false
unfolding any select
no_version f d [] h = refl
no_version f d (e ∷ es) h =
    ground (arith, text_eq_iff e.path d.path, text_eq_iff d.path e.path, no_version f d es)

-- Over rows with unique paths the only version of a row is the row itself.
only_version :
    (f : OverlayEntry → Bool) (d : OverlayEntry) (t : List OverlayEntry)
    → IsKeyed t
    → select d.path t ≡ some d
    → any (λ e. f e && same_version d e) t ≡ f d
unfolding any select
only_version f d [] k h = cc
only_version f d (e ∷ es) k h = ground (
  arith,
  text_eq_iff e.path d.path,
  text_eq_iff d.path e.path,
  same_version_refl d,
  same_version-path e d,
  no_version f d es,
  only_version f d es k.1,
)

removed-is_stale :
    (base : Base) (t : List OverlayEntry) (d : OverlayEntry)
    → IsKeyed t
    → select d.path t ≡ some d
    → any (same_version d) (to_remove base (in_order t)) ≡ is_stale base (in_order t) d
unfolding to_remove
removed-is_stale base t d k h = ground (
  arith,
  any-append (same_version d) (keep (is_stale_change base) (in_order t))
      (keep (is_stale_other base (in_order t)) (in_order t)),
  any-keep (same_version d) (is_stale_change base) (in_order t),
  any-keep (same_version d) (is_stale_other base (in_order t)) (in_order t),
  any-sort_by (λ e. e.path) (λ e. is_stale_change base e && same_version d e) t,
  any-sort_by (λ e. e.path) (λ e. is_stale_other base (in_order t) e && same_version d e) t,
  only_version (is_stale_change base) d t k h,
  only_version (is_stale_other base (in_order t)) d t k h,
)

-- What one delete of the transaction leaves.
abbrev without : OverlayEntry → World → World
without e w = record w { table = delete_version e w.table }

delete_version-rows :
    (e : OverlayEntry) (q : Text) (t : List OverlayEntry)
    → IsKeyed t
    → select q (delete_version e t) ≡ passing (λ d. not (same_version d e)) (select q t)
unfolding delete_version
delete_version-rows e q t k = select-keep (λ d. not (same_version d e)) q t k

delete_version-IsKeyed :
    (e : OverlayEntry) (t : List OverlayEntry) → IsKeyed t → IsKeyed (delete_version e t)
unfolding delete_version
delete_version-IsKeyed e t k = keep-IsKeyed (λ d. not (same_version d e)) t k

delete_versions-rows :
    (stale : List OverlayEntry) (w : World) (q : Text)
    → IsKeyed w.table
    → is_ok (delete_versions stale w).0 ≡ true
    → select q (delete_versions stale w).1.table
      ≡ passing (λ d. not (any (same_version d) stale)) (select q w.table)
unfolding delete_versions any
delete_versions-rows [] w q k h = ground arith
delete_versions-rows (e ∷ es) w q k h = ground (
  arith,
  attempt-table w,
  delete_version-rows e q (attempt w).1.table,
  delete_version-IsKeyed e (attempt w).1.table,
  delete_versions-rows es (without e (attempt w).1) q,
)

remove_backings_total : (es : List OverlayEntry) (w : World) → is_ok (remove_backings es w).0 ≡ true
unfolding remove_backings
remove_backings_total [] w = refl
remove_backings_total (e ∷ es) w = ground (
  arith,
  remove_backings_total es w,
  remove_backings_total es (ignore (os_remove e.backing_path) w).1,
)

remove_backings-table :
    (es : List OverlayEntry) (w : World) → (remove_backings es w).1.table ≡ w.table
unfolding remove_backings
remove_backings-table [] w = refl
remove_backings-table (e ∷ es) w = ground (
  arith,
  remove_backings-table es w,
  remove_backings-table es (ignore (os_remove e.backing_path) w).1,
  os_remove-Frame e.backing_path w,
)

deletes : List OverlayEntry → Exec (List OverlayEntry)
deletes stale = transaction (attempt >> delete_versions stale)

deletes-rows :
    (stale : List OverlayEntry) (w : World) (q : Text)
    → IsKeyed w.table
    → select q (deletes stale w).1.table ≡ (
        if is_ok (deletes stale w).0
        then passing (λ d. not (any (same_version d) stale)) (select q w.table)
        else select q w.table)
unfolding deletes
deletes-rows stale w q k = ground (
  arith,
  transaction-table (attempt >> delete_versions stale) w,
  transaction-fails (attempt >> delete_versions stale) w,
  attempt-table w,
  attempt-table (attempt w).1,
  delete_versions-rows stale (attempt (attempt w).1).1 q,
)

continue-keeps :
    {A : Type 0} (r : Result A × World) (f : A → Exec (Unit {0}))
    → ((a : A) (w : World) → is_ok (f a w).0 ≡ true)
    → ((a : A) (w : World) → (f a w).1.table ≡ w.table)
    → (is_ok (continue r f).0 ≡ is_ok r.0) × ((continue r f).1.table ≡ r.1.table)
continue-keeps (ok a, w) f total keeps = (total a w, keeps a w)
continue-keeps (err e, w) f total keeps = (refl, refl)

-- The part of Reconcile after the query, whichever entries it was given and whatever was written
-- since the query: where it succeeds it deletes exactly the rows that still have the path, kind,
-- source object and modification time of one of the entries, and where it fails it deletes none.
pub prune-rows :
    (stale : List OverlayEntry) (w : World) (q : Text)
    → IsKeyed w.table
    → select q (prune stale w).1.table ≡ (
        if is_ok (prune stale w).0
        then passing (λ d. not (any (same_version d) stale)) (select q w.table)
        else select q w.table)
unfolding prune
prune-rows stale w q k =
    let removes =
      continue-keeps (deletes stale w) (λ es. remove_backings (reverse es))
        (λ es. remove_backings_total (reverse es)) (λ es. remove_backings-table (reverse es)) in
    unfold deletes in ground (arith, deletes-rows stale w q k, removes)

pub prune_some-rows :
    (stale : List OverlayEntry) (w : World) (q : Text)
    → IsKeyed w.table
    → select q (prune_some stale w).1.table ≡ (
        if is_ok (prune_some stale w).0
        then passing (λ d. not (any (same_version d) stale)) (select q w.table)
        else select q w.table)
unfolding any
prune_some-rows [] w q k = ground arith
prune_some-rows (e ∷ es) w q k = prune-rows (e ∷ es) w q k

pub not-stale :
    (base : Base) (t : List OverlayEntry) (q : Text)
    → IsKeyed t
    → passing (λ d. not (any (same_version d) (to_remove base (in_order t)))) (select q t)
      ≡ passing (λ d. not (is_stale base (in_order t) d)) (select q t)
not-stale base t q k = elim (Option-cases (select q t)) [
  | inl h ↦ rw h refl
  | inr (d, h) ↦
      rw h (rw (removed-is_stale base t d k (ap (λ p. select p t) (path-select q t d h) ∙ h)) refl)
]
