-- ===== src/Git/Shell.antt =====
-- The command line of ssh in internal/gitstore/gitstore.go: how GIT_SSH_COMMAND is split into words,
-- and written again with BatchMode set. Words are lists of the runes of valid UTF-8.
pub mod Quoting
pub mod BatchMode
pub mod RoundTrip
use gitfs.Prelude.{
  ℕ, Text, bytes, text_eq, Bool, true, false, not, ◌&&◌, ◌||◌, List, [], ◌∷◌, ◌++◌, map, foldl, leb,
  ◌==◌, if◌then◌else◌,
}
use gitfs.Strings.{to_lower, trim_space, contains_byte, fields, join_spaces}
use gitfs.Path.Names.{has_prefix}

-- The variables of the loop of `splitShellFields`; `quote` is 0 outside quotes.
pub record Splitter : Type 0 where
  pub words : List Text
  pub word : Text
  pub quote : ℕ
  pub escaped : Bool

abbrev pub write : Text → Splitter → Splitter
write t s = record s { word = s.word ++ t }

-- `fields = append(fields, b.String())` where the word is not empty.
abbrev pub end_word : Splitter → Splitter
end_word s = record s {
  words = if text_eq s.word [] then s.words else s.words ++ (s.word ∷ []);
  word = [];
}

abbrev pub dollar : Text
dollar = b'\\' ∷ b'$' ∷ []

abbrev pub after_escape : ℕ → Splitter → Splitter
after_escape r s = record (write (if r == b'$' then dollar else r ∷ []) s) { escaped = false }

abbrev pub inside_quote : ℕ → Splitter → Splitter
inside_quote r s =
    if r == s.quote
    then record s { quote = 0 }
    else if r == b'$' && s.quote == b'\''
    then write dollar s
    else if r == b'\\' && s.quote == b'"'
    then record s { escaped = true }
    else write (r ∷ []) s

abbrev pub outside_quote : ℕ → Splitter → Splitter
outside_quote r s =
    if r == b'\'' || r == b'"'
    then record s { quote = r }
    else if r == b'\\'
    then record s { escaped = true }
    else if r == b' ' || (r == b'\t' || r == b'\n')
    then end_word s
    else write (r ∷ []) s

unfoldable pub split_step : Splitter → ℕ → Splitter
unfolding text_eq
split_step s r =
    if s.escaped
    then after_escape r s
    else if not (s.quote == 0)
    then inside_quote r s
    else outside_quote r s

unfoldable pub split_from : Splitter → Text → Splitter
split_from s [] = s
split_from s (r ∷ t) = split_from (split_step s r) t

abbrev pub new_splitter : Splitter
new_splitter = record { words = []; word = []; quote = 0; escaped = false }

abbrev pub finish : Splitter → List Text
finish s = (end_word (if s.escaped then write (b'\\' ∷ []) s else s)).words

unfoldable pub split_shell_fields : Text → List Text
unfolding text_eq split_from
split_shell_fields t = finish (split_from new_splitter t)

-- The bytes that stand for themselves in a word: letters, digits and "@%_+=:,./-~$".
abbrev pub is_safe_byte : ℕ → Bool
is_safe_byte r =
    (leb b'a' r && leb r b'z')
    || ((leb b'A' r && leb r b'Z')
        || ((leb b'0' r && leb r b'9') || contains_byte r (bytes "@%_+=:,./-~$")))

unfoldable pub is_shell_safe : Text → Bool
is_shell_safe [] = true
is_shell_safe (r ∷ t) = is_safe_byte r && is_shell_safe t

abbrev pub needs_backslash : ℕ → Bool
needs_backslash c = c == b'\\' || (c == b'"' || c == b'`')

-- The loop of `doubleQuote`, over the bytes that are left; a backslash before "$" stays as it is,
-- and the bytes after the first are given to see one.
unfoldable pub double_quoted : Text → Text
double_quoted [] = []
double_quoted (c ∷ []) = if needs_backslash c then b'\\' ∷ c ∷ [] else c ∷ []
double_quoted (c ∷ d ∷ t) =
    let after_pair = double_quoted t in
    let after_one = double_quoted (d ∷ t) in
    if c == b'\\' && d == b'$'
    then b'\\' ∷ b'$' ∷ after_pair
    else if needs_backslash c
    then b'\\' ∷ c ∷ after_one
    else c ∷ after_one

abbrev pub double_quote : Text → Text
double_quote s = b'"' ∷ (double_quoted s ++ (b'"' ∷ []))

-- strings.ReplaceAll(s, "'", `'\''`)
unfoldable pub single_quoted : Text → Text
single_quoted [] = []
single_quoted (c ∷ t) =
    let rest = single_quoted t in
    if c == b'\'' then b'\'' ∷ b'\\' ∷ b'\'' ∷ b'\'' ∷ rest else c ∷ rest

unfoldable pub shell_quote : Text → Text
unfolding double_quoted single_quoted is_shell_safe contains_byte text_eq
shell_quote s =
    if text_eq s []
    then b'\'' ∷ b'\'' ∷ []
    else if contains_byte b'$' s
    then double_quote s
    else if is_shell_safe s
    then s
    else b'\'' ∷ (single_quoted s ++ (b'\'' ∷ []))

abbrev pub is_batch_mode_word : List Text → Bool
is_batch_mode_word [] = false
is_batch_mode_word (w ∷ ws) = text_eq w (bytes "batchmode") || has_prefix w (bytes "batchmode=")

unfoldable pub is_batch_mode_option : Text → Bool
is_batch_mode_option opt = is_batch_mode_word (fields (to_lower (trim_space opt)))

-- The loop over the words of the command, which leaves out BatchMode options.
unfoldable pub without_batch_mode : List Text → List Text
without_batch_mode [] = []
without_batch_mode (w ∷ []) = if has_prefix (to_lower w) (bytes "-obatchmode=") then [] else w ∷ []
without_batch_mode (w ∷ v ∷ ws) =
    let after_pair = without_batch_mode ws in
    let after_one = without_batch_mode (v ∷ ws) in
    if text_eq (to_lower w) (bytes "-o") && is_batch_mode_option v
    then after_pair
    else if has_prefix (to_lower w) (bytes "-obatchmode=")
    then after_one
    else w ∷ after_one

abbrev pub or_ssh : List Text → List Text
or_ssh [] = bytes "ssh" ∷ []
or_ssh (w ∷ ws) = w ∷ ws

-- The words that the command is written from.
unfoldable pub batch_mode_words : Text → List Text
batch_mode_words existing =
    or_ssh (without_batch_mode (split_shell_fields existing))
    ++ (bytes "-o" ∷ (bytes "BatchMode=yes" ∷ []))

unfoldable pub ssh_batch_mode_command : Text → Text
ssh_batch_mode_command existing =
    let trimmed = trim_space existing in
    if text_eq trimmed []
    then bytes "ssh -o BatchMode=yes"
    else join_spaces (map shell_quote (batch_mode_words trimmed))
