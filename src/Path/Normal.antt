-- ===== src/Path/Normal.antt =====
-- `CleanPath` of internal/model/types.go gives a normal form: it is idempotent, so every store may
-- clean its keys again.
use gitfs.Prelude.{
  ℕ, Text, text_eq, text_eq_iff, Bool, true, false, ◌||◌, List, [], ◌∷◌, ◌++◌, reverse, foldl, ◌≡◌,
  ◌≢◌, refl, sym, ◌∙◌, ◌⊎◌, inl, inr, arith, All, Bool-cases, if◌then◌else◌, ◌==◌,
}
use mathlib.Core.List.{reverse-cons, foldl-append}
use gitfs.Path.{
  slash, dot, dot_dot, split, join_words, climb, push_word, starts_with_slash, clean, or_dot,
  clean_path, trim_slash,
}
use gitfs.Path.Split.{NoSlash, All-reverse, split-NoSlash, split-join_words_ne}

pub record IsWord (w : Text) : Type 0 where
  pub no_slash : NoSlash w
  pub not_empty : w ≢ []
  pub not_dot : w ≢ dot

-- Where a ".." may stand on the stack: over other ".."s only, in a path that is not rooted.
abbrev MayClimb : Bool → List Text → Type 0
MayClimb rooted [] = rooted ≡ false
MayClimb rooted (w ∷ st) = (rooted ≡ false) × (w ≡ dot_dot)

abbrev pub IsNormal : Bool → List Text → Type 0
IsNormal rooted [] = Unit
IsNormal rooted (w ∷ st) = IsWord w × (w ≡ dot_dot → MayClimb rooted st) × IsNormal rooted st

dot_dot-IsWord : IsWord dot_dot
dot_dot-IsWord = record { no_slash = omega arith; not_empty = ground arith; not_dot = ground arith }

MayClimb-unrooted : (rooted : Bool) (st : List Text) → MayClimb rooted st → rooted ≡ false
MayClimb-unrooted rooted [] h = h
MayClimb-unrooted rooted (w ∷ st) h = h.0

climb-IsNormal :
    (rooted : Bool) (st : List Text) → IsNormal rooted st → IsNormal rooted (climb rooted st)
climb-IsNormal true [] n = tt
climb-IsNormal false [] n = (dot_dot-IsWord, λ _. refl, tt)
climb-IsNormal rooted (w ∷ st) n = elim (Bool-cases (text_eq w dot_dot)) [
  | inl e ↦
      let up : w ≡ dot_dot = (text_eq_iff w dot_dot).0 e in
      rw e (dot_dot-IsWord, λ _. (MayClimb-unrooted rooted st (n.1 up), up), n)
  | inr e ↦ rw e n.2
]

push_word-IsNormal :
    (rooted : Bool) (st : List Text) (w : Text)
    → IsNormal rooted st
    → NoSlash w
    → IsNormal rooted (push_word rooted st w)
unfolding push_word
push_word-IsNormal rooted st w n s = elim (Bool-cases (text_eq w [] || text_eq w dot)) [
  | inl e ↦ rw e n
  | inr e ↦ rw e (elim (Bool-cases (text_eq w dot_dot)) [
    | inl up ↦ rw up (climb-IsNormal rooted st n)
    | inr down ↦ rw down (word e, λ is_up. absurd (ground (arith, text_eq_iff w dot_dot)), n)
  ])
]
  where
    word : (text_eq w [] || text_eq w dot) ≡ false → IsWord w
    word e = record {
      no_slash = s;
      not_empty = λ h. ground (arith, text_eq_iff w []);
      not_dot = λ h. ground (arith, text_eq_iff w dot);
    }

fold-IsNormal :
    (rooted : Bool) (st ws : List Text)
    → IsNormal rooted st
    → All NoSlash ws
    → IsNormal rooted (foldl (push_word rooted) st ws)
fold-IsNormal rooted st [] n a = n
fold-IsNormal rooted st (w ∷ ws) n a =
    fold-IsNormal rooted (push_word rooted st w) ws (push_word-IsNormal rooted st w n a.0) a.1

-- A normal stack of words is what reading its words again gives.
push_word-normal :
    (st : List Text) (w : Text) → IsNormal false (w ∷ st) → push_word false st w ≡ w ∷ st
unfolding push_word
push_word-normal [] w n =
    ground (
      arith,
      text_eq_iff w [],
      text_eq_iff w dot,
      text_eq_iff w dot_dot,
      n.0.not_empty,
      n.0.not_dot,
    )
push_word-normal (v ∷ st) w n = ground (
  arith,
  text_eq_iff w [],
  text_eq_iff w dot,
  text_eq_iff w dot_dot,
  text_eq_iff v dot_dot,
  n.0.not_empty,
  n.0.not_dot,
  n.1,
)

refold : (st : List Text) → IsNormal false st → foldl (push_word false) [] (reverse st) ≡ st
refold [] n = refl
refold (w ∷ st) n = rw (reverse-cons, foldl-append, refold st n.2) (push_word-normal st w n)

weaken : (rooted : Bool) (st : List Text) → IsNormal rooted st → IsNormal false st
weaken rooted [] n = tt
weaken rooted (w ∷ []) n = (n.0, λ _. refl, tt)
weaken rooted (w ∷ v ∷ st) n = (n.0, λ up. (refl, (n.1 up).1), weaken rooted (v ∷ st) n.2)

words : (rooted : Bool) (st : List Text) → IsNormal rooted st → All IsWord st
words rooted [] n = tt
words rooted (w ∷ st) n = (n.0, words rooted st n.2)

All-NoSlash : (ws : List Text) → All IsWord ws → All NoSlash ws
All-NoSlash [] a = tt
All-NoSlash (w ∷ ws) a = (a.0.no_slash, All-NoSlash ws a.1)

-- The text of a nonempty list of words begins with a byte that is no slash.
join_words-head :
    (ws : List Text)
    → ws ≢ []
    → All IsWord ws
    → (b : ℕ) × (t : Text) × (join_words ws ≡ b ∷ t) × (b ≢ slash)
unfolding join_words
join_words-head [] n a = absurd (n refl)
join_words-head ([] ∷ ws) n a = absurd (a.0.not_empty refl)
join_words-head ((b ∷ t) ∷ []) n a = (b, t, refl, a.0.no_slash.0)
join_words-head ((b ∷ t) ∷ v ∷ vs) n a =
    (b, t ++ (slash ∷ join_words (v ∷ vs)), refl, a.0.no_slash.0)

append-one-ne-nil {ℓ} : {A : Type ℓ} (xs : List A) (x : A) → (xs ++ (x ∷ [])) ≢ []
append-one-ne-nil [] x e = cc
append-one-ne-nil (y ∷ xs) x e = cc

reverse-ne-nil {ℓ} : {A : Type ℓ} (x : A) (xs : List A) → reverse (x ∷ xs) ≢ []
reverse-ne-nil x xs e = append-one-ne-nil (reverse xs) x (sym (reverse-cons x xs) ∙ e)

reverse_ne_nil : (st : List Text) → st ≢ [] → reverse st ≢ []
reverse_ne_nil [] n e = n refl
reverse_ne_nil (w ∷ st) n e = reverse-ne-nil w st e

-- The values of `CleanPath`.
abbrev pub IsClean : Text → Type 0
IsClean q =
    (q ≡ dot) ⊎ ((st : List Text) × IsNormal false st × (st ≢ []) × (q ≡ join_words (reverse st)))

-- What `CleanPath` does with the words that `filepath.Clean` has joined.
finish : Bool → Text → Text
finish rooted t =
    let cleaned = (if rooted then slash ∷ t else or_dot t) in
    if text_eq cleaned (slash ∷ []) then dot else or_dot (trim_slash cleaned)

finish-empty : (rooted : Bool) → finish rooted [] ≡ dot
unfolding finish text_eq
finish-empty true = refl
finish-empty false = refl

finish-words : (rooted : Bool) (b : ℕ) (t : Text) → b ≢ slash → finish rooted (b ∷ t) ≡ b ∷ t
unfolding finish text_eq
finish-words true b t n = ground arith
finish-words false b t n = ground arith

finish-IsClean :
    (rooted : Bool) (st : List Text)
    → IsNormal rooted st
    → IsClean (finish rooted (join_words (reverse st)))
unfolding join_words
finish-IsClean rooted [] n = inl (finish-empty rooted)
finish-IsClean rooted (w ∷ st) n =
    let (b, t, e, h) =
      join_words-head (reverse (w ∷ st)) (λ z. reverse-ne-nil w st z)
        (All-reverse IsWord (w ∷ st) (words rooted (w ∷ st) n)) in
    inr (w ∷ st, weaken rooted (w ∷ st) n, (λ z. cc), rw (e, finish-words rooted b t h))

clean_path-IsClean : (p : Text) → IsClean (clean_path p)
unfolding clean_path finish clean
clean_path-IsClean p =
    elim (Bool-cases (text_eq p dot || (text_eq p (slash ∷ []) || text_eq p []))) [
      | inl e ↦ rw e (inl refl)
      | inr e ↦ rw e (
          finish-IsClean (starts_with_slash p)
            (foldl (push_word (starts_with_slash p)) [] (split p))
            (fold-IsNormal (starts_with_slash p) [] (split p) tt (split-NoSlash p)))
    ]

-- The words of a clean path read back, so it is clean again.
clean-words :
    (st : List Text) (b : ℕ) (t : Text)
    → IsNormal false st
    → split (b ∷ t) ≡ reverse st
    → join_words (reverse st) ≡ b ∷ t
    → b ≢ slash
    → clean (b ∷ t) ≡ b ∷ t
unfolding clean
clean-words st b t n read e h =
    let f : (b == slash) ≡ false = ground arith in rw (f, read, refold st n, e)

clean_path-fixed :
    (b : ℕ) (t : Text) → clean (b ∷ t) ≡ b ∷ t → b ≢ slash → clean_path (b ∷ t) ≡ b ∷ t
unfolding clean_path
clean_path-fixed b t e h = rw e (
    ground
      (arith, text_eq_iff (b ∷ t) dot, text_eq_iff (b ∷ t) (slash ∷ []), text_eq_iff (b ∷ t) []))

IsClean-clean_path : (q : Text) → IsClean q → clean_path q ≡ q
IsClean-clean_path q (inl e) = rw e dot_fixed
  where
    dot_fixed : clean_path dot ≡ dot
    dot_fixed = unfold clean_path text_eq in refl
IsClean-clean_path q (inr (st, n, some_word, e)) =
    let nonempty : reverse st ≢ [] = reverse_ne_nil st some_word in
    let all : All IsWord (reverse st) = All-reverse IsWord st (words false st n) in
    let (b, t, joined, h) = join_words-head (reverse st) nonempty all in
    let read : split (join_words (reverse st)) ≡ reverse st =
      split-join_words_ne (reverse st) nonempty (All-NoSlash (reverse st) all) in
    rw (e, joined) (clean_path-fixed b t (clean-words st b t n (rw joined at read) joined h) h)

-- `CleanPath` is idempotent.
pub clean_path_idem : (p : Text) → clean_path (clean_path p) ≡ clean_path p
clean_path_idem p = IsClean-clean_path (clean_path p) (clean_path-IsClean p)
