-- ===== src/Hydrator/Queue.antt =====
-- The keys in the queue of internal/hydrator/hydrator.go.
use gitfs.Prelude.{
  Text, text_eq, text_eq_iff, text_eq_refl, Bool, true, false, ◌||◌, List, [], ◌∷◌, ◌++◌, ◌≡◌, refl,
  arith, if◌then◌else◌,
}
use gitfs.Hydrator.{Task, replace_task}

-- Whether a task of the key is queued.
unfoldable pub has_key : Text → List Task → Bool
has_key k [] = false
has_key k (t ∷ ts) = text_eq t.object_oid k || has_key k ts

-- No key is queued twice.
abbrev pub IsUnique : List Task → Type 0
IsUnique [] = Unit
IsUnique (t ∷ ts) = (has_key t.object_oid ts ≡ false) × IsUnique ts

pub has_key-replace_task :
    (t : Task) (k : Text) (ts : List Task) → has_key k (replace_task t ts) ≡ has_key k ts
unfolding has_key replace_task
has_key-replace_task t k [] = refl
has_key-replace_task t k (u ∷ us) =
    ground (arith, text_eq_iff u.object_oid t.object_oid, has_key-replace_task t k us)

pub replace_task-IsUnique : (t : Task) (ts : List Task) → IsUnique ts → IsUnique (replace_task t ts)
unfolding replace_task
replace_task-IsUnique t [] u = tt
replace_task-IsUnique t (d ∷ ds) u = ground (
  arith,
  text_eq_iff d.object_oid t.object_oid,
  has_key-replace_task t d.object_oid ds,
  replace_task-IsUnique t ds u.1,
)

pub has_key-middle : (xs ys : List Task) (t : Task) → has_key t.object_oid (xs ++ (t ∷ ys)) ≡ true
unfolding has_key
has_key-middle [] ys t = ground (arith, text_eq_refl t.object_oid)
has_key-middle (x ∷ xs) ys t = ground (arith, has_key-middle xs ys t)

-- What is left when one task is taken out.
pub has_key-without :
    (xs ys : List Task) (t : Task) (k : Text)
    → IsUnique (xs ++ (t ∷ ys))
    → has_key k (xs ++ ys) ≡ (if text_eq t.object_oid k then false else has_key k (xs ++ (t ∷ ys)))
unfolding has_key
has_key-without [] ys t k u = ground (arith, text_eq_iff t.object_oid k)
has_key-without (x ∷ xs) ys t k u = ground (
  arith,
  text_eq_iff t.object_oid k,
  text_eq_iff x.object_oid k,
  text_eq_refl t.object_oid,
  has_key-middle xs ys t,
  has_key-without xs ys t k u.1,
)

pub without-IsUnique :
    (xs ys : List Task) (t : Task) → IsUnique (xs ++ (t ∷ ys)) → IsUnique (xs ++ ys)
without-IsUnique [] ys t u = u.1
without-IsUnique (x ∷ xs) ys t u =
    (ground (arith, has_key-without xs ys t x.object_oid u.1), without-IsUnique xs ys t u.1)
