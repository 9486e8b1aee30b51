-- ===== src/Machine/Transact.antt =====
-- `db.BeginTx`, `tx.Commit` and `tx.Rollback`, as the stores use them: all of the body, or nothing.
use gitfs.Prelude.{◌≡◌, refl, arith, true, false, if◌then◌else◌}
use gitfs.Errors.{Result, ok, err, is_ok}
use gitfs.Machine.{World, Exec, attempt, continue, transaction}

pub transaction-table :
    {A : Type 0} (body : Exec A) (w : World)
    → (transaction body w).1.table
      ≡ (if is_ok (transaction body w).0 then (body (attempt w).1).1.table else w.table)
unfolding transaction
transaction-table body w = ground arith

pub transaction-snapshot :
    {A : Type 0} (body : Exec A) (w : World)
    → (transaction body w).1.snapshot
      ≡ (if is_ok (transaction body w).0 then (body (attempt w).1).1.snapshot else w.snapshot)
unfolding transaction
transaction-snapshot body w = ground arith

-- A transaction that succeeds gives what its body gives.
pub transaction-ok :
    {A : Type 0} (body : Exec A) (w : World) (a : A)
    → (transaction body w).0 ≡ ok a
    → (body (attempt w).1).0 ≡ ok a
unfolding transaction
transaction-ok body w a h = ground arith

pub transaction-fails :
    {A : Type 0} (body : Exec A) (w : World)
    → is_ok (body (attempt w).1).0 ≡ false
    → is_ok (transaction body w).0 ≡ false
unfolding transaction
transaction-fails body w h = ground arith

pub attempt-table : (w : World) → (attempt w).1.table ≡ w.table
attempt-table w = ground arith

pub attempt-snapshot : (w : World) → (attempt w).1.snapshot ≡ w.snapshot
attempt-snapshot w = ground arith

-- A chain that succeeds: its first call succeeded, and so did the rest.
pub continue-ok :
    {A B : Type 0} (r : Result A × World) (f : A → Exec B) (b : B)
    → (continue r f).0 ≡ ok b
    → (a : A) × (v : World) × (r ≡ (ok a, v)) × ((f a v).0 ≡ ok b) × (continue r f ≡ f a v)
continue-ok (ok a, v) f b h = (a, v, refl, h, refl)
continue-ok (err e, v) f b h = cc

-- To prove of a chain that succeeds: prove it of the rest, from what the first call gave.
pub continue-rule :
    {A B : Type 0} (Q : World → Type 0) (r : Result A × World) (f : A → Exec B) (b : B)
    → (continue r f).0 ≡ ok b
    → ((a : A) (v : World) → r ≡ (ok a, v) → (f a v).0 ≡ ok b → Q (f a v).1)
    → Q (continue r f).1
continue-rule Q (ok a, v) f b h k = k a v refl h
continue-rule Q (err e, v) f b h k = cc

-- A chain that fails though its rest never does: its first call failed.
pub continue-fails :
    {A B : Type 0} (r : Result A × World) (f : A → Exec B)
    → ((a : A) (v : World) → is_ok (f a v).0 ≡ true)
    → is_ok (continue r f).0 ≡ false
    → (is_ok r.0 ≡ false) × ((continue r f).1 ≡ r.1)
continue-fails (ok a, v) f total h = ground (arith, total a v)
continue-fails (err e, v) f total h = (refl, refl)
