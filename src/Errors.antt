-- ===== src/Errors.antt =====
-- The error values that the packages return and compare, and results that carry them.
use gitfs.Prelude.{ℕ, Bool, true, false}

-- `os.ErrNotExist` is `fs.ErrNotExist`, `os.ErrExist` is `fs.ErrExist`. A `fault` is what the
-- operating system, the database or a fetcher reports; its code is not read by the program.
pub data Error : Type 0 where
  not_exist invalid exist repo_not_ready canceled deadline_exceeded blob_too_large : Error
  fault : ℕ → Error

pub data Result {ℓ} (A : Type ℓ) : Type ℓ where
  ok : A → Result A
  err : Error → Result A

abbrev pub is_ok {ℓ} : {A : Type ℓ} → Result A → Bool
is_ok (ok a) = true
is_ok (err e) = false
