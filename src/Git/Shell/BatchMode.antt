-- ===== src/Git/Shell/BatchMode.antt =====
-- Which words of a command `sshBatchModeCommand` of internal/gitstore/gitstore.go leaves out.
use gitfs.Prelude.{
  Text, bytes, text_eq, Bool, true, false, ◌&&◌, ◌||◌, List, [], ◌∷◌, ◌≡◌, refl, Bool-cases, inl,
  inr,
}
use gitfs.Strings.{trim_space, to_lower, fields}
use gitfs.Path.Names.{has_prefix}
use gitfs.Git.Shell.{is_batch_mode_option, without_batch_mode, or_ssh}

abbrev pub first_word : List Text → Text
first_word [] = []
first_word (w ∷ ws) = w

-- Whether the value of "-o" sets BatchMode, in any case of letters: "BatchMode no" or "BatchMode=no".
abbrev pub sets_batch_mode : Text → Bool
sets_batch_mode value =
    let key = first_word (fields (to_lower (trim_space value))) in
    text_eq key (bytes "batchmode") || has_prefix key (bytes "batchmode=")

-- "-oBatchMode=..." in one word.
abbrev pub is_joined : Text → Bool
is_joined w = has_prefix (to_lower w) (bytes "-obatchmode=")

-- "-o" and a value, in two words.
abbrev pub is_pair : Text → List Text → Bool
is_pair w [] = false
is_pair w (v ∷ ws) = text_eq (to_lower w) (bytes "-o") && sets_batch_mode v

-- The second list has the words of the first one, in their order, without the BatchMode options, of
-- which each is the word or the two words at the front of what is left.
pub data WithoutBatchMode : List Text → List Text → Type 0 where
  at_end : WithoutBatchMode [] []
  pair :
      {w v : Text} {ws left : List Text}
      → is_pair w (v ∷ ws) ≡ true
      → WithoutBatchMode ws left
      → WithoutBatchMode (w ∷ v ∷ ws) left
  joined :
      {w : Text} {ws left : List Text}
      → is_pair w ws ≡ false
      → is_joined w ≡ true
      → WithoutBatchMode ws left
      → WithoutBatchMode (w ∷ ws) left
  other :
      {w : Text} {ws left : List Text}
      → is_pair w ws ≡ false
      → is_joined w ≡ false
      → WithoutBatchMode ws left
      → WithoutBatchMode (w ∷ ws) (w ∷ left)

-- The words of a command that has a name.
abbrev pub named : List Text → List Text
named [] = bytes "ssh" ∷ []
named (w ∷ ws) = w ∷ ws

pub or_ssh-named : (ws : List Text) → or_ssh ws ≡ named ws
or_ssh-named [] = refl
or_ssh-named (w ∷ ws) = refl

sets_batch_mode-is_batch_mode_option : (v : Text) → is_batch_mode_option v ≡ sets_batch_mode v
unfolding is_batch_mode_option text_eq has_prefix
sets_batch_mode-is_batch_mode_option v = go (fields (to_lower (trim_space v)))
  where
    go :
        (ws : List Text)
        → gitfs.Git.Shell.is_batch_mode_word ws ≡ (
            text_eq (first_word ws) (bytes "batchmode")
            || has_prefix (first_word ws) (bytes "batchmode="))
    go [] = refl
    go (w ∷ ws) = refl

pub without_batch_mode-WithoutBatchMode :
    (ws : List Text) → WithoutBatchMode ws (without_batch_mode ws)
unfolding without_batch_mode
without_batch_mode-WithoutBatchMode [] = at_end
without_batch_mode-WithoutBatchMode (w ∷ []) = elim (Bool-cases (is_joined w)) [
  | inl j ↦ rw j (joined refl j at_end)
  | inr j ↦ rw j (other refl j at_end)
]
without_batch_mode-WithoutBatchMode (w ∷ v ∷ ws) =
    let option = sets_batch_mode-is_batch_mode_option v in
    let after_one = without_batch_mode-WithoutBatchMode (v ∷ ws) in
    elim (Bool-cases (is_pair w (v ∷ ws))) [
      | inl p ↦ rw (option, p) (pair p (without_batch_mode-WithoutBatchMode ws))
      | inr p ↦ elim (Bool-cases (is_joined w)) [
        | inl j ↦ rw (option, p, j) (joined p j after_one)
        | inr j ↦ rw (option, p, j) (other p j after_one)
      ]
    ]
