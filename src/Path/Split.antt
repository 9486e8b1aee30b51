-- ===== src/Path/Split.antt =====
-- Splitting a path at its slashes and joining the words again, for the paths of
-- internal/model/types.go.
use gitfs.Prelude.{
  ℕ, Text, ◌≡◌, ◌≢◌, refl, ap, List, [], ◌∷◌, ◌++◌, reverse, arith, All, ◌==◌, ◌∙◌, Bool-cases, inl,
  inr,
}
use mathlib.Core.List.{reverse-cons}
use gitfs.Path.{slash, first_byte, split, join_words}

abbrev pub NoSlash : Text → Type 0
NoSlash w = All (λ b. b ≢ slash) w

module _ {ℓ} {A : Type ℓ} (P : A → Type 0) where
  pub All-append : (xs ys : List A) → All P xs → All P ys → All P (xs ++ ys)
  All-append [] ys a b = b
  All-append (x ∷ xs) ys a b = (a.0, All-append xs ys a.1 b)

  pub All-reverse : (xs : List A) → All P xs → All P (reverse xs)
  All-reverse [] a = tt
  All-reverse (x ∷ xs) a =
      rw reverse-cons (All-append (reverse xs) (x ∷ []) (All-reverse xs a.1) (a.0, tt))

first_byte-NoSlash :
    (b : ℕ) (ws : List Text) → b ≢ slash → All NoSlash ws → All NoSlash (first_byte b ws)
first_byte-NoSlash b [] n a = ((n, tt), tt)
first_byte-NoSlash b (w ∷ ws) n a = ((n, a.0), a.1)

pub split-NoSlash : (t : Text) → All NoSlash (split t)
unfolding split
split-NoSlash [] = (tt, tt)
split-NoSlash (b ∷ t) = elim (Bool-cases (b == slash)) [
  | inl e ↦ rw e (tt, split-NoSlash t)
  | inr e ↦ rw e (first_byte-NoSlash b (split t) (ground arith) (split-NoSlash t))
]

split-word : (w : Text) → NoSlash w → split w ≡ w ∷ []
unfolding split
split-word [] n = refl
split-word (b ∷ w) n = ground (arith, split-word w n.1)

split-append : (w t : Text) → NoSlash w → split (w ++ (slash ∷ t)) ≡ w ∷ split t
unfolding split
split-append [] t n = refl
split-append (b ∷ w) t n = ground (arith, split-append w t n.1)

-- Splitting undoes joining, for words without a slash.
pub split-join_words :
    (w : Text) (ws : List Text) → All NoSlash (w ∷ ws) → split (join_words (w ∷ ws)) ≡ w ∷ ws
unfolding join_words
split-join_words w [] a = split-word w a.0
split-join_words w (v ∷ vs) a =
    split-append w (join_words (v ∷ vs)) a.0 ∙ ap (◌∷◌ w) (split-join_words v vs a.1)

pub split-join_words_ne : (ws : List Text) → ws ≢ [] → All NoSlash ws → split (join_words ws) ≡ ws
split-join_words_ne [] n a = absurd (n refl)
split-join_words_ne (w ∷ ws) n a = split-join_words w ws a
