-- ===== src/Path/Lengths/Words.antt =====
-- How long the words are that Go's filepath.Clean makes a path of, on Unix.
use gitfs.Prelude.{
  ℕ, suc, ◌+◌, ◌<◌, ◌≤◌, Text, text_eq, text_eq_iff, Bool, true, false, List, [], ◌∷◌, ◌++◌,
  reverse, foldl, length, length-append, ◌≡◌, ◌⊎◌, inl, inr, refl, sym, subst, arith, Bool-cases,
  ◌==◌,
}
use mathlib.Core.List.{reverse-cons}
use gitfs.Path.{slash, dot_dot, first_byte, split, join_words, climb, push_word}

-- The bytes of the words, each with its slash.
abbrev weight : List Text → ℕ
weight [] = 0
weight (w ∷ ws) = suc (length w) + weight ws

-- Empty words do not count.
abbrev room : Text → ℕ
room [] = 0
room (b ∷ w) = suc (suc (length w))

abbrev pub rooms : List Text → ℕ
rooms [] = 0
rooms (w ∷ ws) = room w + rooms ws

-- The first word counts also when it is empty.
abbrev pub first_room : List Text → ℕ
first_room [] = 0
first_room (w ∷ ws) = suc (length w) + rooms ws

pub rooms-first_room : (ws : List Text) → rooms ws ≤ first_room ws
rooms-first_room [] = omega arith
rooms-first_room ([] ∷ ws) = omega arith
rooms-first_room ((b ∷ w) ∷ ws) = omega arith

climb-weight : (rooted : Bool) (st : List Text) → weight (climb rooted st) ≤ weight st + 3
climb-weight true [] = omega arith
climb-weight false [] = omega arith
climb-weight true (top ∷ st) = ground arith
climb-weight false (top ∷ st) = ground arith

push_word-weight :
    (rooted : Bool) (st : List Text) (w : Text)
    → weight (push_word rooted st w) ≤ weight st + room w
unfolding push_word text_eq
push_word-weight rooted st [] = omega arith
push_word-weight rooted st (b ∷ w) = elim (Bool-cases (text_eq (b ∷ w) dot_dot)) [
  | inl e ↦
      subst (λ u. weight (push_word rooted st u) ≤ weight st + room u)
        (sym ((text_eq_iff (b ∷ w) dot_dot).0 e)) (climb-weight rooted st)
  | inr e ↦ other_word e
]
  where
    other_word :
        text_eq (b ∷ w) dot_dot ≡ false
        → weight (push_word rooted st (b ∷ w)) ≤ weight st + room (b ∷ w)
    other_word e = rw e (ground arith)

foldl-weight :
    (rooted : Bool) (ws st : List Text)
    → weight (foldl (push_word rooted) st ws) ≤ weight st + rooms ws
foldl-weight rooted [] st = omega arith
foldl-weight rooted (w ∷ ws) st =
    let a = foldl-weight rooted ws (push_word rooted st w) in
    let b = push_word-weight rooted st w in omega arith

weight-append : (xs ys : List Text) → weight (xs ++ ys) ≡ weight xs + weight ys
weight-append [] ys = omega arith
weight-append (x ∷ xs) ys = let a = weight-append xs ys in omega arith

weight-reverse : (ws : List Text) → weight (reverse ws) ≡ weight ws
weight-reverse [] = refl
weight-reverse (w ∷ ws) =
    rw reverse-cons
      (let a = weight-reverse ws in let b = weight-append (reverse ws) (w ∷ []) in omega arith)

length-join_words :
    (w : Text) (ws : List Text) → suc (length (join_words (w ∷ ws))) ≡ weight (w ∷ ws)
unfolding join_words
length-join_words w [] = omega arith
length-join_words w (v ∷ vs) =
    let a = length-join_words v vs in
    let b = length-append w (slash ∷ join_words (v ∷ vs)) in omega arith

-- What `Clean` puts behind the root, or in front of no root.
abbrev pub joined : Bool → Text → Text
joined rooted p = join_words (reverse (foldl (push_word rooted) [] (split p)))

pub length-joined :
    (rooted : Bool) (p : Text)
    → (joined rooted p ≡ []) ⊎ (length (joined rooted p) < rooms (split p))
unfolding join_words
length-joined rooted p =
    go (reverse (foldl (push_word rooted) [] (split p)))
      (weight-reverse (foldl (push_word rooted) [] (split p)))
  where
    go :
        (ws : List Text)
        → weight ws ≡ weight (foldl (push_word rooted) [] (split p))
        → (join_words ws ≡ []) ⊎ (length (join_words ws) < rooms (split p))
    go [] e = inl refl
    go (w ∷ ws) e =
        inr (
          let a = length-join_words w ws in let b = foldl-weight rooted (split p) [] in omega arith)

first_byte-first_room :
    (b : ℕ) (ws : List Text)
    → 1 ≤ first_room ws
    → first_room (first_byte b ws) ≤ suc (first_room ws)
first_byte-first_room b [] h = omega arith
first_byte-first_room b (w ∷ ws) h = omega arith

split-first_room : (t : Text) → 1 ≤ first_room (split t)
unfolding split
split-first_room [] = omega arith
split-first_room (b ∷ t) = elim (Bool-cases (b == slash)) [
  | inl s ↦ rw s (omega arith)
  | inr s ↦ rw s (more (split t) (split-first_room t))
]
  where
    more : (ws : List Text) → 1 ≤ first_room ws → 1 ≤ first_room (first_byte b ws)
    more [] h = omega arith
    more (w ∷ ws) h = omega arith

pub split_cons-first_room :
    (b : ℕ) (t : Text) → first_room (split (b ∷ t)) ≤ suc (first_room (split t))
unfolding split
split_cons-first_room b t = elim (Bool-cases (b == slash)) [
  | inl s ↦ rw s (let a = rooms-first_room (split t) in omega arith)
  | inr s ↦ rw s (first_byte-first_room b (split t) (split-first_room t))
]
