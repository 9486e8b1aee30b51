-- ===== src/Strings/Search.antt =====
-- The searches of Go's package strings. An index that Go gives as -1 is none here.
use gitfs.Prelude.{
  ℕ, suc, ◌+◌, ◌-◌, Text, Bool, Option, none, some, List, [], ◌∷◌, reverse, is_some, length, take,
  drop, ◌==◌, if◌then◌else◌,
}
use gitfs.Strings.{contains_byte}
use gitfs.Path.Names.{has_prefix}

abbrev pub add_index : ℕ → Option ℕ → Option ℕ
add_index k none = none
add_index k (some i) = some (k + i)

-- strings.IndexFunc
unfoldable pub index_func : (ℕ → Bool) → Text → Option ℕ
index_func p [] = none
index_func p (b ∷ t) = if p b then some 0 else add_index 1 (index_func p t)

-- strings.LastIndexFunc
unfoldable pub last_index_func : (ℕ → Bool) → Text → Option ℕ
last_index_func p [] = none
last_index_func p (b ∷ t) = elim (last_index_func p t) [
  | some i ↦ some (suc i)
  | none ↦ if p b then some 0 else none
]

-- strings.IndexAny, of the bytes of an ASCII set.
abbrev pub index_any : Text → Text → Option ℕ
index_any t set = index_func (λ b. contains_byte b set) t

-- strings.ContainsAny
abbrev pub contains_any : Text → Text → Bool
contains_any t set = is_some (index_any t set)

-- strings.LastIndex of one byte
abbrev pub last_index : Text → ℕ → Option ℕ
last_index t c = last_index_func (λ b. b == c) t

-- strings.Index
unfoldable pub index : Text → Text → Option ℕ
index [] sub = if has_prefix [] sub then some 0 else none
index (b ∷ t) sub = if has_prefix (b ∷ t) sub then some 0 else add_index 1 (index t sub)

-- strings.Contains
abbrev pub contains : Text → Text → Bool
contains t sub = is_some (index t sub)

-- t[lo:hi]
abbrev pub slice : ℕ → ℕ → Text → Text
slice lo hi t = take (hi - lo) (drop lo t)

-- An index, or the length of the text where there is none.
abbrev pub or_end : Option ℕ → Text → ℕ
or_end none t = length t
or_end (some i) t = i

-- strings.TrimLeft of one byte
unfoldable pub trim_left_byte : ℕ → Text → Text
trim_left_byte c [] = []
trim_left_byte c (b ∷ t) = let rest = trim_left_byte c t in if b == c then rest else b ∷ t

-- strings.Trim of one byte
unfoldable pub trim_byte : ℕ → Text → Text
unfolding trim_left_byte
trim_byte c t = reverse (trim_left_byte c (reverse (trim_left_byte c t)))

-- strings.Count of one byte
unfoldable pub count_byte : ℕ → Text → ℕ
count_byte c [] = 0
count_byte c (b ∷ t) = (if b == c then 1 else 0) + count_byte c t

abbrev first_of : ℕ → List Text → List Text
first_of b [] = (b ∷ []) ∷ []
first_of b (w ∷ ws) = (b ∷ w) ∷ ws

-- strings.Split at one byte
unfoldable pub split_byte : ℕ → Text → List Text
split_byte c [] = [] ∷ []
split_byte c (b ∷ t) = let rest = split_byte c t in if b == c then [] ∷ rest else first_of b rest
