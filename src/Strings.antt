-- ===== src/Strings.antt =====
-- What the packages use of Go's package strings, on texts as lists of bytes. White space and the
-- case of letters are those of ASCII.
pub mod Search
pub mod Laws
use gitfs.Prelude.{
  ℕ, suc, ◌+◌, Text, Bool, false, ◌&&◌, ◌||◌, Option, none, some, List, [], ◌∷◌, ◌++◌, reverse, leb,
  ◌==◌, if◌then◌else◌,
}

abbrev pub is_space : ℕ → Bool
is_space b = b == b' ' || (leb 9 b && leb b 13)

abbrev pub lower_byte : ℕ → ℕ
lower_byte b = if leb b'A' b && leb b b'Z' then b + 32 else b

-- strings.ToLower
unfoldable pub to_lower : Text → Text
to_lower [] = []
to_lower (b ∷ t) = lower_byte b ∷ to_lower t

unfoldable pub trim_left : Text → Text
trim_left [] = []
trim_left (b ∷ t) = let rest = trim_left t in if is_space b then rest else b ∷ t

-- strings.TrimSpace
unfoldable pub trim_space : Text → Text
unfolding trim_left
trim_space t = reverse (trim_left (reverse (trim_left t)))

-- strings.IndexByte
unfoldable pub index_byte : ℕ → Text → Option ℕ
index_byte c [] = none
index_byte c (b ∷ t) =
    let rest = index_byte c t in
    if b == c then some 0 else elim rest [ none ↦ none | some i ↦ some (suc i) ]

-- strings.Contains of one byte
unfoldable pub contains_byte : ℕ → Text → Bool
contains_byte c [] = false
contains_byte c (b ∷ t) = b == c || contains_byte c t

-- The words of strings.Fields, with the bytes of the current word so far, last first.
abbrev flush : Text → List Text → List Text
flush [] ws = ws
flush (b ∷ t) ws = reverse (b ∷ t) ∷ ws

unfoldable pub fields_from : Text → Text → List Text
fields_from word [] = flush word []
fields_from word (b ∷ t) =
    let skipped = flush word (fields_from [] t) in
    let longer = fields_from (b ∷ word) t in if is_space b then skipped else longer

-- strings.Fields
abbrev pub fields : Text → List Text
fields t = fields_from [] t

-- strings.Join(words, " ")
unfoldable pub join_spaces : List Text → Text
join_spaces [] = []
join_spaces (w ∷ []) = w
join_spaces (w ∷ v ∷ vs) = w ++ (b' ' ∷ join_spaces (v ∷ vs))
