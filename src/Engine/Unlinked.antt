-- ===== src/Engine/Unlinked.antt =====
-- That an unlink of internal/fusefs/ops.go succeeds, and what a lookup finds after it.
use gitfs.Prelude.{ℕ, Text, text_eq, text_eq_refl, false, Option, none, some, [], ◌≡◌, refl, arith}
use gitfs.Errors.{ok, err, not_exist}
use gitfs.Model.{OverlayEntry, RepoConfig, delete}
use gitfs.Machine.{World}
use gitfs.Machine.Disk.{os_remove}
use gitfs.Path.{clean_path}
use gitfs.Overlay.Store.{remove, remove_backing, upsert_entry, new_entry}
use gitfs.Overlay.Table.{select}
use gitfs.Resolver.{resolve_path}
use gitfs.Resolver.View.{get-calm, resolve_path-view}
use gitfs.Engine.{Hydrator, unlink}
use gitfs.Engine.Shows.{unlink-view}

some_path : (p : Text) → text_eq (clean_path p) [] ≡ false
unfolding clean_path text_eq
some_path p = ground arith

os_remove-calm : (p : Text) (w : World) → w.trouble ≡ [] → (os_remove p w).1.trouble ≡ []
unfolding os_remove
os_remove-calm p w calm = ground arith

remove_backing-calm :
    (o : Option OverlayEntry) (w : World)
    → w.trouble ≡ []
    → ((remove_backing o w).0 ≡ ok tt) × ((remove_backing o w).1.trouble ≡ [])
remove_backing-calm none w calm = (refl, calm)
remove_backing-calm (some e) w calm = ground (arith, os_remove-calm e.backing_path w calm)

upsert_entry-calm :
    (e : OverlayEntry) (w : World)
    → w.trouble ≡ []
    → text_eq e.path [] ≡ false
    → ((upsert_entry e w).0 ≡ ok tt) × ((upsert_entry e w).1.trouble ≡ [])
unfolding upsert_entry
upsert_entry-calm e w calm h = ground arith

remove-calm :
    (path : Text) (now : ℕ) (w : World)
    → w.trouble ≡ []
    → ((remove path now w).0 ≡ ok tt) × ((remove path now w).1.trouble ≡ [])
unfolding remove
remove-calm path now w calm =
    let found = select (clean_path (clean_path path)) w.table in
    let whiteout = new_entry (clean_path path) delete [] 0 now in
    ground (
      arith,
      get-calm (clean_path path) w calm,
      remove_backing-calm found w calm,
      upsert_entry-calm whiteout (remove_backing found w).1,
      some_path path,
    )

-- Where no call of the database or the operating system fails, unlinking succeeds for every path,
-- whether or not something stands there, and resolving the path after it gives ErrNotExist.
pub resolve_path-unlink :
    (h : Hydrator) (repo : RepoConfig) (path : Text) (now : ℕ) (w : World)
    → w.trouble ≡ []
    → ((unlink h repo path now w).0 ≡ ok tt)
      × ((resolve_path path (unlink h repo path now w).1).0 ≡ err not_exist)
resolve_path-unlink h repo path now w calm =
    let done : ((unlink h repo path now w).0 ≡ ok tt)
        × ((unlink h repo path now w).1.trouble ≡ []) =
      unfold unlink in remove-calm path now w calm in
    (
      done.0,
      ground (
        arith,
        done,
        resolve_path-view path (unlink h repo path now w).1 done.1,
        unlink-view h repo path now w (clean_path path),
        text_eq_refl (clean_path path),
      ),
    )
