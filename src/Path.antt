-- ===== src/Path.antt =====
-- File paths: `CleanPath` of internal/model/types.go, `childName` of internal/fusefs/merged.go,
-- `parentDir` of internal/snapshot/store.go, and what they use of Go's path/filepath on Unix.
pub mod Split
pub mod Normal
pub mod Names
pub mod Lengths
use gitfs.Prelude.{
  ℕ, Text, bytes, text_eq, Bool, true, false, ◌||◌, List, [], ◌∷◌, ◌++◌, reverse, foldl, Option,
  none, some, ◌==◌, if◌then◌else◌,
}

abbrev pub slash : ℕ
slash = b'/'

abbrev pub dot : Text
dot = bytes "."

abbrev pub dot_dot : Text
dot_dot = bytes ".."

-- strings.Split(s, "/"), never the empty list.
abbrev pub first_byte : ℕ → List Text → List Text
first_byte b [] = (b ∷ []) ∷ []
first_byte b (w ∷ ws) = (b ∷ w) ∷ ws

unfoldable pub split : Text → List Text
split [] = [] ∷ []
split (b ∷ t) = let rest = split t in if b == slash then [] ∷ rest else first_byte b rest

-- strings.Join(words, "/")
unfoldable pub join_words : List Text → Text
join_words [] = []
join_words (w ∷ []) = w
join_words (w ∷ v ∷ vs) = w ++ (slash ∷ join_words (v ∷ vs))

-- filepath.Clean keeps a stack of words; ".." takes one off, or stays at the front of a path that
-- is not rooted.
abbrev pub climb : Bool → List Text → List Text
climb true [] = []
climb false [] = dot_dot ∷ []
climb rooted (top ∷ st) = if text_eq top dot_dot then dot_dot ∷ top ∷ st else st

unfoldable pub push_word : Bool → List Text → Text → List Text
push_word rooted st w =
    if text_eq w [] || text_eq w dot
    then st
    else if text_eq w dot_dot
    then climb rooted st
    else w ∷ st

abbrev pub starts_with_slash : Text → Bool
starts_with_slash [] = false
starts_with_slash (b ∷ t) = b == slash

abbrev pub or_dot : Text → Text
or_dot [] = dot
or_dot (b ∷ t) = b ∷ t

unfoldable pub clean : Text → Text
clean p =
    let rooted = starts_with_slash p in
    let words = join_words (reverse (foldl (push_word rooted) [] (split p))) in
    if rooted then slash ∷ words else or_dot words

-- filepath.Join of two elements: empty ones are ignored.
unfoldable pub join : Text → Text → Text
join [] [] = []
join [] (b ∷ t) = clean (b ∷ t)
join (a ∷ s) [] = clean (a ∷ s)
join (a ∷ s) (b ∷ t) = clean ((a ∷ s) ++ (slash ∷ b ∷ t))

-- strings.TrimPrefix(path, "/")
abbrev pub trim_slash : Text → Text
trim_slash [] = []
trim_slash (b ∷ t) = if b == slash then t else b ∷ t

unfoldable pub clean_path : Text → Text
clean_path path =
    if text_eq path dot || (text_eq path (slash ∷ []) || text_eq path [])
    then dot
    else let cleaned = clean path in
      if text_eq cleaned (slash ∷ []) then dot else or_dot (trim_slash cleaned)
