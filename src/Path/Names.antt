-- ===== src/Path/Names.antt =====
-- Parts of paths: `childName` of internal/fusefs/merged.go, `parentDir` of
-- internal/snapshot/store.go, and Go's filepath.Dir and filepath.Base on Unix.
use gitfs.Prelude.{
  ℕ, Text, text_eq, Bool, true, false, ◌||◌, ◌&&◌, [], ◌∷◌, ◌++◌, Option, none, some, ◌==◌,
  if◌then◌else◌,
}
use gitfs.Path.{slash, dot, clean}

-- strings.CutPrefix(s, prefix), as (s, prefix).
unfoldable pub cut_prefix : Text → Text → Option Text
cut_prefix s [] = some s
cut_prefix [] (p ∷ ps) = none
cut_prefix (b ∷ s) (p ∷ ps) = let rest = cut_prefix s ps in if b == p then rest else none

-- strings.HasPrefix(s, prefix)
unfoldable pub has_prefix : Text → Text → Bool
has_prefix s [] = true
has_prefix [] (p ∷ ps) = false
has_prefix (b ∷ s) (p ∷ ps) = b == p && has_prefix s ps

-- The part before the first slash: strings.Cut(s, "/").
unfoldable pub before_slash : Text → Text
before_slash [] = []
before_slash (b ∷ t) = let rest = before_slash t in if b == slash then [] else b ∷ rest

abbrev pub first_name : Text → Option Text
first_name [] = none
first_name (b ∷ t) = some (before_slash (b ∷ t))

unfoldable pub child_name : Text → Text → Option Text
child_name parent entry_path =
    if text_eq parent dot
    then first_name entry_path
    else elim (cut_prefix entry_path (parent ++ (slash ∷ []))) [
      | none ↦ none
      | some rel ↦ first_name rel
    ]

-- The path up to and with its last slash.
abbrev pub keep_dir : ℕ → Text → Text
keep_dir b [] = if b == slash then slash ∷ [] else []
keep_dir b (c ∷ r) = b ∷ c ∷ r

unfoldable pub up_to_slash : Text → Text
up_to_slash [] = []
up_to_slash (b ∷ t) = keep_dir b (up_to_slash t)

unfoldable pub dir : Text → Text
dir path = clean (up_to_slash path)

-- `parentDir`
unfoldable pub parent_dir : Text → Text
parent_dir path =
    if text_eq path dot || (text_eq path (slash ∷ []) || text_eq path [])
    then []
    else let d = dir path in if text_eq d (slash ∷ []) then dot else d

-- filepath.Base: trailing slashes are stripped, and what follows the last slash is taken.
abbrev strip_byte : ℕ → Text → Text
strip_byte b [] = if b == slash then [] else b ∷ []
strip_byte b (c ∷ r) = b ∷ c ∷ r

unfoldable pub strip_slashes : Text → Text
strip_slashes [] = []
strip_slashes (b ∷ t) = strip_byte b (strip_slashes t)

unfoldable pub has_slash : Text → Bool
has_slash [] = false
has_slash (b ∷ t) = b == slash || has_slash t

unfoldable pub after_slash : Text → Text
unfolding has_slash
after_slash [] = []
after_slash (b ∷ t) =
    let rest = after_slash t in if has_slash t then rest else if b == slash then t else b ∷ t

unfoldable pub base : Text → Text
unfolding strip_slashes after_slash
base [] = dot
base (b ∷ t) =
    let name = after_slash (strip_slashes (b ∷ t)) in if text_eq name [] then slash ∷ [] else name

-- filepath.Ext: the last name of the path from its last dot on.
unfoldable pub from_dot : Text → Text
from_dot [] = []
from_dot (b ∷ t) = elim (from_dot t) [ d ∷ ds ↦ d ∷ ds | [] ↦ if b == b'.' then b ∷ t else [] ]

unfoldable pub ext : Text → Text
unfolding after_slash from_dot
ext path = from_dot (after_slash path)
