-- ===== src/Prelude/Any.antt =====
-- Laws of `any`, `keep` and `sort_by`.
use mathlib.Core.Path.{◌≡◌, refl}
use mathlib.Core.Bool.{Bool, ◌&&◌, ◌||◌}
use mathlib.Core.List.{List, [], ◌∷◌, ◌++◌}
use native.Mathlib.Omega.{arith}
use gitfs.Prelude.Lists.{any, keep}
use gitfs.Prelude.Texts.{Text, insert_by, sort_by}

module _ {ℓ} {A : Type ℓ} where
  pub any-append : (p : A → Bool) (xs ys : List A) → any p (xs ++ ys) ≡ (any p xs || any p ys)
  unfolding any
  any-append p [] ys = refl
  any-append p (x ∷ xs) ys = ground (arith, any-append p xs ys)

  pub any-keep : (p f : A → Bool) (xs : List A) → any p (keep f xs) ≡ any (λ x. f x && p x) xs
  unfolding any keep
  any-keep p f [] = refl
  any-keep p f (x ∷ xs) = ground (arith, any-keep p f xs)

  any-insert_by :
      (key : A → Text) (p : A → Bool) (x : A) (xs : List A)
      → any p (insert_by key x xs) ≡ (p x || any p xs)
  unfolding any insert_by
  any-insert_by key p x [] = refl
  any-insert_by key p x (y ∷ ys) = ground (arith, any-insert_by key p x ys)

  pub any-sort_by :
      (key : A → Text) (p : A → Bool) (xs : List A) → any p (sort_by key xs) ≡ any p xs
  unfolding any sort_by
  any-sort_by key p [] = refl
  any-sort_by key p (x ∷ xs) =
      ground (arith, any-sort_by key p xs, any-insert_by key p x (sort_by key xs))

  pub any-or : (p r : A → Bool) (xs : List A) → any (λ x. p x || r x) xs ≡ (any p xs || any r xs)
  unfolding any
  any-or p r [] = refl
  any-or p r (x ∷ xs) = ground (arith, any-or p r xs)
