-- ===== src/Machine.antt =====
-- The state that the packages internal/overlay, internal/snapshot and internal/fusefs share, and
-- the effects of their functions: results that may be errors, with the state left behind.
pub mod Disk
pub mod Files
pub mod Frame
pub mod Transact
use gitfs.Prelude.{ℕ, Text, Bool, true, false, Option, none, some, List, [], ◌∷◌}
use gitfs.Errors.{Error, Result, ok, err}
use gitfs.Model.{BaseNode, OverlayEntry}

-- A file or directory on disk under its path.
pub record DiskNode : Type 0 where
  pub name : Text
  pub is_dir : Bool
  pub mode : ℕ
  pub content : Text

-- A row of the table `base_nodes`.
pub record Row : Type 0 where
  pub generation : ℕ
  pub parent_path : Text
  pub node : BaseNode

-- The tables `repo_state`, by its three keys, and `base_nodes`.
pub record Snapshot : Type 0 where
  pub current_generation : Option ℕ
  pub head_oid : Option Text
  pub head_ref : Option Text
  pub base_nodes : List Row

-- `table` is `overlay_entries`. `generation` and `commit_time` are the resolver's. `trouble` says
-- which of the coming calls of the operating system and the database fail, and how; where it ends,
-- no more calls fail.
pub record World : Type 0 where
  pub table : List OverlayEntry
  pub disk : List DiskNode
  pub snapshot : Snapshot
  pub generation : ℕ
  pub commit_time : ℕ
  pub trouble : List (Option Error)

abbrev pub Exec : Type 0 → Type 0
Exec A = World → Result A × World

abbrev pub continue : {A B : Type 0} → Result A × World → (A → Exec B) → Result B × World
continue (ok a, w) f = f a w
continue (err e, w) f = (err e, w)

abbrev pub pure : {A : Type 0} → A → Exec A
pure a w = (ok a, w)

abbrev pub raise : {A : Type 0} → Error → Exec A
raise e w = (err e, w)

infixl 5 ◌>>=◌ ◌>>◌
abbrev pub ◌>>=◌ : {A B : Type 0} → Exec A → (A → Exec B) → Exec B
◌>>=◌ m f w = continue (m w) f

abbrev pub ◌>>◌ : {B : Type 0} → Exec (Unit {0}) → Exec B → Exec B
m >> k = m >>= λ _. k

abbrev pub gets : {A : Type 0} → (World → A) → Exec A
gets f w = (ok (f w), w)

abbrev pub modify_world : (World → World) → Exec (Unit {0})
modify_world f w = (ok tt, f w)

abbrev attempt_with : List (Option Error) → Exec (Unit {0})
attempt_with [] w = (ok tt, w)
attempt_with (none ∷ rest) w = (ok tt, record w { trouble = rest })
attempt_with (some e ∷ rest) w = (err e, record w { trouble = rest })

-- One call outside the program, before its effect.
abbrev pub attempt : Exec (Unit {0})
attempt w = attempt_with w.trouble w

-- `_ = f(…)`: an error is dropped.
abbrev dropped : Result (Unit {0}) × World → Result (Unit {0}) × World
dropped (r, w) = (ok tt, w)

abbrev pub ignore : Exec (Unit {0}) → Exec (Unit {0})
ignore m w = dropped (m w)

abbrev handled : {A : Type 0} → Result A × World → (Error → Exec A) → Result A × World
handled (ok a, w) h = (ok a, w)
handled (err e, w) h = h e w

-- `if err := f(…); err != nil { … }`
abbrev pub on_error : {A : Type 0} → Exec A → (Error → Exec A) → Exec A
on_error m h w = handled (m w) h

abbrev pub when : Bool → Exec (Unit {0}) → Exec (Unit {0})
when true m = m
when false m = pure tt

-- What a rollback leaves: the tables as they were, and the calls that were made.
abbrev rolled_back : World → World → World
rolled_back before w = record w { table = before.table; snapshot = before.snapshot }

abbrev committed : {A : Type 0} → World → A → Result (Unit {0}) × World → Result A × World
committed before a (ok _, w) = (ok a, w)
committed before a (err e, w) = (err e, rolled_back before w)

abbrev ended : {A : Type 0} → World → Result A × World → Result A × World
ended before (ok a, w) = committed before a (attempt w)
ended before (err e, w) = (err e, rolled_back before w)

abbrev begun : {A : Type 0} → Exec A → Result (Unit {0}) × World → Result A × World
begun body (ok _, w) = ended w (body w)
begun body (err e, w) = (err e, w)

-- `db.BeginTx`, the body, `tx.Commit`, with `defer tx.Rollback()`.
unfoldable pub transaction : {A : Type 0} → Exec A → Exec A
transaction body w = begun body (attempt w)
