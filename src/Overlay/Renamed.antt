-- ===== src/Overlay/Renamed.antt =====
-- The rows after a `Rename` of internal/overlay/store.go that succeeds.
use gitfs.Prelude.{
  ℕ, Text, text_eq, text_eq_iff, text_eq_refl, Bool, true, false, not, ◌&&◌, Option, none, some,
  List, ◌≡◌, ◌≢◌, refl, arith, if◌then◌else◌, ◌++◌, [], ◌∷◌,
}
use gitfs.Errors.{ok}
use gitfs.Model.{OverlayEntry, kind_eq, delete, mkdir}
use gitfs.Machine.{World}
use gitfs.Path.{slash}
use gitfs.Overlay.Table.{
  select, delete_path, insert_row, upsert_whiteout, delete_whiteouts, whiteout_below,
}
use gitfs.Overlay.Rows.{
  IsKeyed, passing, select-delete_path, select-upsert_whiteout, select-keep, delete_path-IsKeyed,
}
use gitfs.Overlay.Rename.{Plan, insert, renamed_entry, source_whiteout, rename_rows}

-- The row of `q` once `old` is moved to `new`.
abbrev pub moved_row :
    Plan → OverlayEntry → Text → Text → Text → ℕ → Text → List OverlayEntry → Option OverlayEntry
moved_row p e old new backing now q t =
    if text_eq new q
    then some (renamed_entry e p new backing now)
    else if text_eq old q
    then (if p.whiteout then some (source_whiteout old p.target now) else none)
    else if kind_eq e.kind mkdir
    then passing (λ d. not (whiteout_below (old ++ (slash ∷ [])) d)) (select q t)
    else select q t

-- What the first two statements leave.
select-moved :
    (e' : OverlayEntry) (old q : Text) (t : List OverlayEntry)
    → select q (e' ∷ delete_path old t)
      ≡ (if text_eq e'.path q then some e' else if text_eq old q then none else select q t)
unfolding select
select-moved e' old q t = ground (arith, select-delete_path old q t)

select-kept :
    (prefix q : Text) (t : List OverlayEntry)
    → IsKeyed t
    → select q (delete_whiteouts prefix t)
      ≡ passing (λ d. not (whiteout_below prefix d)) (select q t)
unfolding delete_whiteouts
select-kept prefix q t k = select-keep (λ d. not (whiteout_below prefix d)) q t k

-- The statements of the transaction, one after the other.
inserted_rows : OverlayEntry → Plan → Text → Text → Text → ℕ → List OverlayEntry → List OverlayEntry
inserted_rows e p old new backing now t = renamed_entry e p new backing now ∷ delete_path old t

cleared_rows : Bool → Text → List OverlayEntry → List OverlayEntry
cleared_rows is_dir old t = if is_dir then delete_whiteouts (old ++ (slash ∷ [])) t else t

marked_rows : Plan → Text → ℕ → List OverlayEntry → List OverlayEntry
marked_rows p old now t =
    if p.whiteout then upsert_whiteout (source_whiteout old p.target now) t else t

rename_rows-table :
    (e : OverlayEntry) (p : Plan) (old new backing : Text) (now : ℕ) (w : World)
    → (rename_rows e p old new backing now w).0 ≡ ok tt
    → ((rename_rows e p old new backing now w).1.table
        ≡ marked_rows p old now (
            cleared_rows
              (kind_eq e.kind mkdir)
              old
              (inserted_rows e p old new backing now w.table)))
      × (select new (delete_path old w.table) ≡ none)
unfolding rename_rows insert insert_row marked_rows cleared_rows inserted_rows
rename_rows-table e p old new backing now w h = ground arith

inserted_rows-IsKeyed :
    (e : OverlayEntry) (p : Plan) (old new backing : Text) (now : ℕ) (t : List OverlayEntry)
    → IsKeyed t
    → select new (delete_path old t) ≡ none
    → IsKeyed (inserted_rows e p old new backing now t)
unfolding inserted_rows
inserted_rows-IsKeyed e p old new backing now t k free = (free, delete_path-IsKeyed old t k)

select-inserted_rows :
    (e : OverlayEntry) (p : Plan) (old new backing : Text) (now : ℕ) (t : List OverlayEntry)
    (q : Text)
    → select q (inserted_rows e p old new backing now t) ≡ (
        if text_eq new q
        then some (renamed_entry e p new backing now)
        else if text_eq old q
        then none
        else select q t)
unfolding inserted_rows
select-inserted_rows e p old new backing now t q =
    select-moved (renamed_entry e p new backing now) old q t

select-cleared_rows :
    (is_dir : Bool) (old q : Text) (t : List OverlayEntry)
    → IsKeyed t
    → select q (cleared_rows is_dir old t) ≡ (
        if is_dir
        then passing (λ d. not (whiteout_below (old ++ (slash ∷ [])) d)) (select q t)
        else select q t)
unfolding cleared_rows
select-cleared_rows true old q t k = select-kept (old ++ (slash ∷ [])) q t k
select-cleared_rows false old q t k = refl

select-marked_rows :
    (p : Plan) (old : Text) (now : ℕ) (q : Text) (t : List OverlayEntry)
    → select old t ≡ none
    → select q (marked_rows p old now t) ≡ (
        if p.whiteout && text_eq old q then some (source_whiteout old p.target now) else select q t)
unfolding marked_rows
select-marked_rows p old now q t free =
    ground (arith, select-upsert_whiteout (source_whiteout old p.target now) q t)

pub rename_rows-moved :
    (e : OverlayEntry) (p : Plan) (old new backing : Text) (now : ℕ) (w : World) (q : Text)
    → IsKeyed w.table
    → old ≢ new
    → kind_eq p.kind delete ≡ false
    → (rename_rows e p old new backing now w).0 ≡ ok tt
    → select q (rename_rows e p old new backing now w).1.table
      ≡ moved_row p e old new backing now q w.table
rename_rows-moved e p old new backing now w q k n d h =
    let (made, free) = rename_rows-table e p old new backing now w h in
    let keyed = inserted_rows-IsKeyed e p old new backing now w.table k free in rw made (read keyed)
  where
    rows : List OverlayEntry
    rows = inserted_rows e p old new backing now w.table

    is_dir : Bool
    is_dir = kind_eq e.kind mkdir

    vacated : IsKeyed rows → select old (cleared_rows is_dir old rows) ≡ none
    vacated keyed = ground (
      arith,
      text_eq_iff old new,
      text_eq_iff new old,
      text_eq_refl old,
      select-cleared_rows is_dir old old rows keyed,
      select-inserted_rows e p old new backing now w.table old,
    )

    read :
        IsKeyed rows
        → select q (marked_rows p old now (cleared_rows is_dir old rows))
          ≡ moved_row p e old new backing now q w.table
    read keyed = ground (
      arith,
      text_eq_iff old new,
      text_eq_iff new q,
      text_eq_iff old q,
      select-marked_rows p old now q (cleared_rows is_dir old rows) (vacated keyed),
      select-cleared_rows is_dir old q rows keyed,
      select-inserted_rows e p old new backing now w.table q,
    )
