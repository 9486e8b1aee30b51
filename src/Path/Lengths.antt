-- ===== src/Path/Lengths.antt =====
-- How long the results of Go's filepath.Clean and filepath.Dir on Unix are.
mod Words
use gitfs.Prelude.{
  ℕ, zero, suc, ◌+◌, ◌<◌, ◌≤◌, Text, text_eq, text_eq_iff, Bool, true, false, ◌||◌, List, [], ◌∷◌,
  ◌++◌, reverse, foldl, length, length-append, ◌≡◌, ◌≢◌, ◌⊎◌, inl, inr, refl, sym, subst, arith,
  Bool-cases, ◌==◌, ◌∙◌,
}
use mathlib.Core.List.{reverse-cons, cons≢nil}
use gitfs.Path.{
  slash, dot, dot_dot, first_byte, split, join_words, climb, push_word, starts_with_slash, or_dot,
  clean,
}
use gitfs.Path.Names.{keep_dir, up_to_slash, dir}
use Words.{first_room, rooms, joined, length-joined, rooms-first_room, split_cons-first_room}

-- A path that ends with a slash has room for one byte less than others.
up_to_slash-rooms :
    (t : Text)
    → (up_to_slash t ≡ []) ⊎ (first_room (split (up_to_slash t)) ≤ length (up_to_slash t))
unfolding up_to_slash split
up_to_slash-rooms [] = inl refl
up_to_slash-rooms (b ∷ t) = go (up_to_slash t) (up_to_slash-rooms t)
  where
    go :
        (u : Text)
        → (u ≡ []) ⊎ (first_room (split u) ≤ length u)
        → (keep_dir b u ≡ []) ⊎ (first_room (split (keep_dir b u)) ≤ length (keep_dir b u))
    go [] h = elim (Bool-cases (b == slash)) [
      | inl s ↦ rw s (inr (omega arith))
      | inr s ↦ rw s (inl refl)
    ]
    go (c ∷ r) (inl e) = absurd (cons≢nil e)
    go (c ∷ r) (inr h) = inr (let a = split_cons-first_room b (c ∷ r) in omega arith)

length-up_to_slash : (t : Text) → length (up_to_slash t) ≤ length t
unfolding up_to_slash
length-up_to_slash [] = omega arith
length-up_to_slash (b ∷ t) = go (up_to_slash t) (length-up_to_slash t)
  where
    go : (u : Text) → length u ≤ length t → length (keep_dir b u) ≤ suc (length t)
    go [] h = ground arith
    go (c ∷ r) h = omega arith

-- Where a walk up a path ends.
abbrev pub is_top : Text → Bool
is_top p = text_eq p dot || text_eq p (slash ∷ [])

or_dot-shorter :
    (j : Text) (n : ℕ)
    → (j ≡ []) ⊎ (length j < n)
    → (is_top (or_dot j) ≡ true) ⊎ (length (or_dot j) < n)
unfolding text_eq
or_dot-shorter [] n h = inl refl
or_dot-shorter (c ∷ r) n (inl e) = absurd (cons≢nil e)
or_dot-shorter (c ∷ r) n (inr h) = inr h

rooted-shorter :
    (j : Text) (n : ℕ)
    → (j ≡ []) ⊎ (suc (length j) < n)
    → (is_top (slash ∷ j) ≡ true) ⊎ (length (slash ∷ j) < n)
unfolding text_eq
rooted-shorter [] n h = inl refl
rooted-shorter (c ∷ r) n (inl e) = absurd (cons≢nil e)
rooted-shorter (c ∷ r) n (inr h) = inr h

rooted-rooms :
    (b : ℕ) (t : Text)
    → (b == slash) ≡ true
    → suc (rooms (split (b ∷ t))) ≡ first_room (split (b ∷ t))
unfolding split
rooted-rooms b t e = rw e (omega arith)

joined_nil : joined false [] ≡ []
unfolding join_words split push_word text_eq
joined_nil = refl

clean-shorter :
    (u : Text)
    → (u ≡ []) ⊎ (first_room (split u) ≤ length u)
    → (is_top (clean u) ≡ true) ⊎ (length (clean u) < length u)
unfolding clean
clean-shorter [] h = or_dot-shorter (joined false []) 0 (inl joined_nil)
clean-shorter (b ∷ t) (inl e) = absurd (cons≢nil e)
clean-shorter (b ∷ t) (inr h) = elim (Bool-cases (b == slash)) [
  | inl s ↦ rw s (
      rooted-shorter (joined true (b ∷ t)) (length (b ∷ t)) (elim (length-joined true (b ∷ t)) [
        | inl e ↦ inl e
        | inr l ↦ inr (let a = rooted-rooms b t s in omega arith)
      ]))
  | inr s ↦ rw s (
      or_dot-shorter (joined false (b ∷ t)) (length (b ∷ t)) (elim (length-joined false (b ∷ t)) [
        | inl e ↦ inl e
        | inr l ↦ inr (let a = rooms-first_room (split (b ∷ t)) in omega arith)
      ]))
]

-- A parent is the top of the tree, or shorter than the path.
pub dir-shorter : (p : Text) → (is_top (dir p) ≡ true) ⊎ (length (dir p) < length p)
unfolding dir
dir-shorter p = elim (clean-shorter (up_to_slash p) (up_to_slash-rooms p)) [
  | inl e ↦ inl e
  | inr h ↦ inr (let a = length-up_to_slash p in omega arith)
]
