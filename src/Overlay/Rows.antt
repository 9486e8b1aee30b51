-- ===== src/Overlay/Rows.antt =====
-- What the statements of internal/overlay/store.go do to the row of each path, and to the
-- uniqueness of the primary key.
use gitfs.Prelude.{
  Text, text_eq, text_eq_iff, Bool, not, Option, none, some, List, [], ◌∷◌, ◌≡◌, refl, arith, keep,
  if◌then◌else◌, Bool-cases, inl, inr,
}
use gitfs.Model.{OverlayEntry, delete}
use gitfs.Overlay.Table.{select, delete_path, upsert, insert_row, upsert_whiteout, update_path}

pub select-delete_path :
    (p q : Text) (t : List OverlayEntry)
    → select q (delete_path p t) ≡ (if text_eq p q then none else select q t)
unfolding select delete_path
select-delete_path p q [] = ground arith
select-delete_path p q (e ∷ es) =
    ground (
      arith,
      text_eq_iff p q,
      text_eq_iff e.path p,
      text_eq_iff e.path q,
      select-delete_path p q es,
    )

pub select-upsert :
    (e : OverlayEntry) (q : Text) (t : List OverlayEntry)
    → select q (upsert e t) ≡ (if text_eq e.path q then some e else select q t)
unfolding select upsert
select-upsert e q t = ground (arith, select-delete_path e.path q t)

pub select-insert_row :
    (e : OverlayEntry) (q : Text) (t t' : List OverlayEntry)
    → insert_row e t ≡ some t'
    → select q t' ≡ (if text_eq e.path q then some e else select q t)
unfolding insert_row select
select-insert_row e q t t' h = ground arith

-- What the source whiteout's upsert makes of a row that it meets.
abbrev pub whited_out : OverlayEntry → Option OverlayEntry → OverlayEntry
whited_out e none = e
whited_out e (some d) = record d {
  kind = delete;
  mtime = e.mtime;
  ctime = e.ctime;
  target_path = e.target_path;
}

pub select-upsert_whiteout :
    (e : OverlayEntry) (q : Text) (t : List OverlayEntry)
    → select q (upsert_whiteout e t)
      ≡ (if text_eq e.path q then some (whited_out e (select e.path t)) else select q t)
unfolding select upsert_whiteout
select-upsert_whiteout e q [] = ground arith
select-upsert_whiteout e q (d ∷ ds) = ground (
  arith,
  text_eq_iff e.path q,
  text_eq_iff d.path e.path,
  text_eq_iff d.path q,
  select-upsert_whiteout e q ds,
)

abbrev pub mapped : (OverlayEntry → OverlayEntry) → Option OverlayEntry → Option OverlayEntry
mapped f none = none
mapped f (some e) = some (f e)

pub select-update_path :
    (p q : Text) (f : OverlayEntry → OverlayEntry) (t : List OverlayEntry)
    → ((e : OverlayEntry) → (f e).path ≡ e.path)
    → select q (update_path p f t) ≡ (if text_eq p q then mapped f (select q t) else select q t)
unfolding select update_path
select-update_path p q f [] h = ground arith
select-update_path p q f (e ∷ es) h = ground (
  arith,
  h e,
  text_eq_iff p q,
  text_eq_iff e.path p,
  text_eq_iff e.path q,
  select-update_path p q f es h,
)

-- The row that is found has the path that was asked for.
pub path-select :
    (p : Text) (t : List OverlayEntry) (e : OverlayEntry) → select p t ≡ some e → e.path ≡ p
unfolding select
path-select p [] e h = cc
path-select p (d ∷ ds) e h = ground (arith, text_eq_iff d.path p, path-select p ds e)

-- `path` is a primary key.
abbrev pub IsKeyed : List OverlayEntry → Type 0
IsKeyed [] = Unit
IsKeyed (e ∷ es) = (select e.path es ≡ none) × IsKeyed es

select-keep-none :
    (f : OverlayEntry → Bool) (p : Text) (t : List OverlayEntry)
    → select p t ≡ none
    → select p (keep f t) ≡ none
unfolding select keep
select-keep-none f p [] h = refl
select-keep-none f p (e ∷ es) h = ground (arith, select-keep-none f p es)

pub keep-IsKeyed :
    (f : OverlayEntry → Bool) (t : List OverlayEntry) → IsKeyed t → IsKeyed (keep f t)
unfolding keep
keep-IsKeyed f [] k = tt
keep-IsKeyed f (e ∷ es) k = elim (Bool-cases (f e)) [
  | inl h ↦ rw h (select-keep-none f e.path es k.0, keep-IsKeyed f es k.1)
  | inr h ↦ rw h (keep-IsKeyed f es k.1)
]

-- On keyed rows, what is kept of a path is decided by the test on its row.
abbrev pub passing : (OverlayEntry → Bool) → Option OverlayEntry → Option OverlayEntry
passing f none = none
passing f (some e) = if f e then some e else none

pub select-keep :
    (f : OverlayEntry → Bool) (p : Text) (t : List OverlayEntry)
    → IsKeyed t
    → select p (keep f t) ≡ passing f (select p t)
unfolding select keep
select-keep f p [] k = refl
select-keep f p (e ∷ es) k =
    ground (arith, text_eq_iff e.path p, select-keep f p es k.1, select-keep-none f p es)

pub delete_path-IsKeyed : (p : Text) (t : List OverlayEntry) → IsKeyed t → IsKeyed (delete_path p t)
unfolding delete_path
delete_path-IsKeyed p t k = keep-IsKeyed (λ e. not (text_eq e.path p)) t k

pub upsert-IsKeyed : (e : OverlayEntry) (t : List OverlayEntry) → IsKeyed t → IsKeyed (upsert e t)
unfolding upsert
upsert-IsKeyed e t k = (
  ground (arith, select-delete_path e.path e.path t, text_eq_iff e.path e.path),
  delete_path-IsKeyed e.path t k,
)

insert_row_new :
    (e : OverlayEntry) (t t' : List OverlayEntry)
    → insert_row e t ≡ some t'
    → (select e.path t ≡ none) × (t' ≡ e ∷ t)
unfolding insert_row
insert_row_new e t t' h = ground arith

pub insert_row-IsKeyed :
    (e : OverlayEntry) (t t' : List OverlayEntry)
    → IsKeyed t
    → insert_row e t ≡ some t'
    → IsKeyed t'
insert_row-IsKeyed e t t' k h = let (free, made) = insert_row_new e t t' h in rw made (free, k)

pub upsert_whiteout-IsKeyed :
    (e : OverlayEntry) (t : List OverlayEntry) → IsKeyed t → IsKeyed (upsert_whiteout e t)
unfolding upsert_whiteout
upsert_whiteout-IsKeyed e [] k = (unfold select in refl, tt)
upsert_whiteout-IsKeyed e (d ∷ ds) k = elim (Bool-cases (text_eq d.path e.path)) [
  | inl h ↦ rw h k
  | inr h ↦ rw h (
    ground (
      arith,
      select-upsert_whiteout e d.path ds,
      text_eq_iff d.path e.path,
      text_eq_iff e.path d.path,
    ),
    upsert_whiteout-IsKeyed e ds k.1,
  )
]

if-path :
    (b : Bool) (f : OverlayEntry → OverlayEntry) (e : OverlayEntry)
    → (f e).path ≡ e.path
    → (if b then f e else e).path ≡ e.path
if-path b f e h = ground arith

pub update_path-IsKeyed :
    (p : Text) (f : OverlayEntry → OverlayEntry) (t : List OverlayEntry)
    → ((e : OverlayEntry) → (f e).path ≡ e.path)
    → IsKeyed t
    → IsKeyed (update_path p f t)
unfolding update_path
update_path-IsKeyed p f [] h k = tt
update_path-IsKeyed p f (e ∷ es) h k = (
  rw (if-path (text_eq e.path p) f e (h e)) (ground (arith, select-update_path p e.path f es h)),
  update_path-IsKeyed p f es h k.1,
)
