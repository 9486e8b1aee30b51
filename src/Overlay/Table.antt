-- ===== src/Overlay/Table.antt =====
-- The SQL statements of internal/overlay/store.go, on the rows of `overlay_entries`. `path` is the
-- primary key.
use gitfs.Prelude.{
  ℕ, ◌+◌, Text, text_eq, Bool, true, false, not, ◌&&◌, ◌||◌, Option, none, some, List, [], ◌∷◌,
  keep, leb, length, sort_by, if◌then◌else◌, ◌==◌,
}
use gitfs.Errors.{Error, fault}
use gitfs.Model.{OverlayEntry, kind_eq, is_deleted, delete}
use gitfs.Path.Names.{has_prefix}

-- SQLITE_CONSTRAINT
abbrev pub constraint : Error
constraint = fault 19

-- SELECT … WHERE path=?
unfoldable pub select : Text → List OverlayEntry → Option OverlayEntry
select p [] = none
select p (e ∷ es) = if text_eq e.path p then some e else select p es

-- DELETE FROM overlay_entries WHERE path=?
unfoldable pub delete_path : Text → List OverlayEntry → List OverlayEntry
unfolding keep
delete_path p t = keep (λ e. not (text_eq e.path p)) t

-- The upsert of `upsertEntry`, which replaces every column, and `INSERT OR REPLACE`.
unfoldable pub upsert : OverlayEntry → List OverlayEntry → List OverlayEntry
unfolding delete_path
upsert e t = e ∷ delete_path e.path t

-- INSERT: a second row for a path is refused.
unfoldable pub insert_row : OverlayEntry → List OverlayEntry → Option (List OverlayEntry)
unfolding select
insert_row e t = elim (select e.path t) [ some old ↦ none | none ↦ some (e ∷ t) ]

-- The upsert of the source whiteout in `Rename`: on a conflict it sets four columns.
unfoldable pub upsert_whiteout : OverlayEntry → List OverlayEntry → List OverlayEntry
upsert_whiteout e [] = e ∷ []
upsert_whiteout e (d ∷ ds) =
    if text_eq d.path e.path
    then record d { kind = delete; mtime = e.mtime; ctime = e.ctime; target_path = e.target_path }
      ∷ ds
    else d ∷ upsert_whiteout e ds

-- UPDATE … SET … WHERE path=?
unfoldable pub update_path :
    Text → (OverlayEntry → OverlayEntry) → List OverlayEntry → List OverlayEntry
update_path p f [] = []
update_path p f (e ∷ es) = (if text_eq e.path p then f e else e) ∷ update_path p f es

-- SELECT … WHERE kind='delete' AND substr(path, 1, length(?))=? ORDER BY path
abbrev pub whiteout_below : Text → OverlayEntry → Bool
whiteout_below prefix e = is_deleted e && has_prefix e.path prefix

unfoldable pub select_whiteouts : Text → List OverlayEntry → List OverlayEntry
unfolding keep sort_by
select_whiteouts prefix t = sort_by (λ e. e.path) (keep (whiteout_below prefix) t)

-- DELETE … WHERE kind='delete' AND substr(path, 1, length(?))=?
unfoldable pub delete_whiteouts : Text → List OverlayEntry → List OverlayEntry
unfolding keep
delete_whiteouts prefix t = keep (λ e. not (whiteout_below prefix e)) t

-- SELECT path … WHERE kind <> 'delete', and the loop of `hasOverlayDescendants` over it.
unfoldable pub has_live_below : Text → List OverlayEntry → Bool
has_live_below prefix [] = false
has_live_below prefix (e ∷ es) =
    not (is_deleted e) && has_prefix e.path prefix || has_live_below prefix es

-- SELECT COUNT(*) … WHERE kind <> 'delete'
unfoldable pub count_live : List OverlayEntry → ℕ
unfolding keep
count_live t = length (keep (λ e. not (is_deleted e)) t)

-- DELETE … WHERE path=? AND kind=? AND source_oid=? AND mtime_unix_ns=?
abbrev pub same_version : OverlayEntry → OverlayEntry → Bool
same_version d e =
    text_eq d.path e.path
    && (kind_eq d.kind e.kind && (text_eq d.source_oid e.source_oid && d.mtime == e.mtime))

unfoldable pub delete_version : OverlayEntry → List OverlayEntry → List OverlayEntry
unfolding keep
delete_version e t = keep (λ d. not (same_version d e)) t

-- SQLite's LIKE: letters of ASCII are compared without their case, `_` stands for one byte and `%`
-- for any bytes.
abbrev fold_case : ℕ → ℕ
fold_case b = if leb b'A' b && leb b b'Z' then b + 32 else b

unfoldable pub like : Text → Text → Bool
like [] [] = true
like [] (b ∷ s) = false
like (p ∷ ps) [] = p == b'%' && like ps []
like (p ∷ ps) (b ∷ s) =
    let skip = like ps (b ∷ s) in
    let longer = like (p ∷ ps) s in
    let next = like ps s in
    if p == b'%'
    then skip || longer
    else if p == b'_' || fold_case p == fold_case b
    then next
    else false

-- SELECT … WHERE path LIKE ? ORDER BY path
unfoldable pub select_like : Text → List OverlayEntry → List OverlayEntry
unfolding keep sort_by
select_like pattern t = sort_by (λ e. e.path) (keep (λ e. like pattern e.path) t)
