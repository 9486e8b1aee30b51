-- ===== src/Strings/Laws.antt =====
-- Where searches find something, in a text that is cut or put together.
use gitfs.Prelude.{
  ℕ, zero, suc, ◌+◌, Text, true, false, none, some, [], ◌∷◌, ◌++◌, length, take, drop, ◌≡◌, refl,
  ap, ◌∙◌, arith,
}
use gitfs.Strings.{contains_byte, index_byte}
use gitfs.Strings.Search.{index_func, last_index_func, last_index, or_end, index_any}

pub contains_byte-take :
    (c n : ℕ) (t : Text) → contains_byte c t ≡ false → contains_byte c (take n t) ≡ false
unfolding contains_byte
contains_byte-take c zero t h = refl
contains_byte-take c (suc n) [] h = refl
contains_byte-take c (suc n) (b ∷ t) h = ground (arith, contains_byte-take c n t)

pub contains_byte-drop :
    (c n : ℕ) (t : Text) → contains_byte c t ≡ false → contains_byte c (drop n t) ≡ false
unfolding contains_byte
contains_byte-drop c zero t h = h
contains_byte-drop c (suc n) [] h = refl
contains_byte-drop c (suc n) (b ∷ t) h = contains_byte-drop c n t (ground arith)

pub last_index-none : (c : ℕ) (t : Text) → contains_byte c t ≡ false → last_index t c ≡ none
unfolding contains_byte last_index_func
last_index-none c [] h = refl
last_index-none c (b ∷ t) h = ground (arith, last_index-none c t)

pub index_byte-none :
    (c : ℕ) (set t : Text)
    → contains_byte c set ≡ true
    → index_any t set ≡ none
    → index_byte c t ≡ none
unfolding index_byte index_func
index_byte-none c set [] m h = refl
index_byte-none c set (b ∷ t) m h = ground (arith, index_byte-none c set t)

pub take-append_length : (p t : Text) → take (length p) (p ++ t) ≡ p
take-append_length [] t = refl
take-append_length (b ∷ p) t = ground (arith, take-append_length p t)

pub drop-append_length : (p t : Text) → drop (length p) (p ++ t) ≡ t
drop-append_length [] t = refl
drop-append_length (b ∷ p) t = drop-append_length p t

suc-length : (b n : ℕ) (u : Text) → length (b ∷ u) + n ≡ suc (length u + n)
suc-length b n u = omega arith

pub drop-append : (n : ℕ) (u t : Text) → drop (length u + n) (u ++ t) ≡ drop n t
drop-append n [] t = ground arith
drop-append n (b ∷ u) t = ap (λ k. drop k (b ∷ (u ++ t))) (suc-length b n u) ∙ drop-append n u t

pub take-append : (n : ℕ) (u t : Text) → take (length u + n) (u ++ t) ≡ u ++ take n t
take-append n [] t = ground arith
take-append n (b ∷ u) t =
    ap (λ k. take k (b ∷ (u ++ t))) (suc-length b n u) ∙ ap (λ r. b ∷ r) (take-append n u t)

pub last_index-append :
    (c i : ℕ) (u t : Text) → last_index t c ≡ some i → last_index (u ++ t) c ≡ some (length u + i)
unfolding last_index_func
last_index-append c i [] t h = ground arith
last_index-append c i (b ∷ u) t h = ground (arith, last_index-append c i u t)

pub or_end-append :
    (set u t : Text)
    → index_any u set ≡ none
    → or_end (index_any (u ++ t) set) (u ++ t) ≡ length u + or_end (index_any t set) t
unfolding index_func
or_end-append set [] t h = ground arith
or_end-append set (b ∷ u) t h = ground (arith, or_end-append set u t)
