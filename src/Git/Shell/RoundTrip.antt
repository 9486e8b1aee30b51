-- ===== src/Git/Shell/RoundTrip.antt =====
-- A command of quoted words is split into these words again.
use gitfs.Prelude.{
  ℕ, Text, bytes, text_eq, Bool, true, false, List, [], ◌∷◌, ◌++◌, map, ◌≡◌, refl, ap, ◌∙◌, arith,
  All, if◌then◌else◌, Bool-cases, ◌⊎◌, inl, inr,
}
use gitfs.Strings.{trim_space, to_lower, join_spaces}
use gitfs.Path.Names.{has_prefix}
use gitfs.Git.Shell.{
  Splitter, write, end_word, split_step, split_from, new_splitter, finish, split_shell_fields,
  shell_quote, without_batch_mode, or_ssh, batch_mode_words, ssh_batch_mode_command,
}
use gitfs.Git.Shell.BatchMode.{
  WithoutBatchMode, named, or_ssh-named, without_batch_mode-WithoutBatchMode,
}
use gitfs.Git.Shell.Quoting.{split_from-append, plain, quoted-run}

IsSome : Text → Type 0
IsSome w = text_eq w [] ≡ false

space-step :
    (ws : List Text) (w t : Text)
    → IsSome w
    → split_from (plain ws w) (b' ' ∷ t) ≡ split_from (plain (ws ++ (w ∷ [])) []) t
unfolding split_from split_step IsSome
space-step ws w t h = rw h refl

finish-plain : (ws : List Text) (w : Text) → IsSome w → finish (plain ws w) ≡ ws ++ (w ∷ [])
unfolding IsSome
finish-plain ws w h = rw h refl

words_assoc : (us : List Text) (w : Text) (vs : List Text) → (us ++ (w ∷ [])) ++ vs ≡ us ++ (w ∷ vs)
words_assoc [] w vs = refl
words_assoc (u ∷ us) w vs = ap (λ r. u ∷ r) (words_assoc us w vs)

split-words :
    (us : List Text) (w : Text) (ws : List Text)
    → All IsSome (w ∷ ws)
    → finish (split_from (plain us []) (join_spaces (map shell_quote (w ∷ ws)))) ≡ us ++ (w ∷ ws)
unfolding join_spaces
split-words us w [] (h, _) = ap finish (quoted-run us [] w) ∙ finish-plain us w h
split-words us w (v ∷ vs) (h, hs) =
    let rest = join_spaces (map shell_quote (v ∷ vs)) in
    ap finish (
      split_from-append (plain us []) (shell_quote w) (b' ' ∷ rest)
      ∙ (ap (λ s. split_from s (b' ' ∷ rest)) (quoted-run us [] w) ∙ space-step us w rest h))
    ∙ (split-words (us ++ (w ∷ [])) v vs hs ∙ words_assoc us w (v ∷ vs))

split-all :
    (ws : List Text)
    → All IsSome ws
    → finish (split_from new_splitter (join_spaces (map shell_quote ws))) ≡ ws
split-all [] a = unfold split_from join_spaces text_eq in refl
split-all (w ∷ ws) a = split-words [] w ws a

-- The words of a split command are never empty.
AllSome : Splitter → Type 0
AllSome s = All IsSome s.words

All-snoc : (ws : List Text) (w : Text) → All IsSome ws → IsSome w → All IsSome (ws ++ (w ∷ []))
All-snoc [] w a h = (h, tt)
All-snoc (u ∷ us) w a h = (a.0, All-snoc us w a.1 h)

end_word-AllSome : (s : Splitter) → AllSome s → AllSome (end_word s)
unfolding AllSome IsSome
end_word-AllSome s a = elim (Bool-cases (text_eq s.word [])) [
  | inl e ↦ rw e a
  | inr e ↦ rw e (All-snoc s.words s.word a e)
]

split_step-words :
    (s : Splitter) (r : ℕ)
    → ((split_step s r).words ≡ s.words) ⊎ ((split_step s r).words ≡ (end_word s).words)
unfolding split_step
split_step-words s r = ground arith

split_step-AllSome : (s : Splitter) (r : ℕ) → AllSome s → AllSome (split_step s r)
unfolding AllSome
split_step-AllSome s r a = elim (split_step-words s r) [
  | inl e ↦ rw e a
  | inr e ↦ rw e (end_word-AllSome s a)
]

split_from-AllSome : (s : Splitter) (t : Text) → AllSome s → AllSome (split_from s t)
unfolding split_from
split_from-AllSome s [] a = a
split_from-AllSome s (r ∷ t) a = split_from-AllSome (split_step s r) t (split_step-AllSome s r a)

finish-AllSome : (s : Splitter) → AllSome s → All IsSome (finish s)
unfolding AllSome
finish-AllSome s a = elim (Bool-cases s.escaped) [
  | inl e ↦ rw e (end_word-AllSome (write (b'\\' ∷ []) s) a)
  | inr e ↦ rw e (end_word-AllSome s a)
]

split_shell_fields-AllSome : (t : Text) → All IsSome (split_shell_fields t)
unfolding split_shell_fields
split_shell_fields-AllSome t =
    finish-AllSome (split_from new_splitter t)
      (split_from-AllSome new_splitter t (unfold AllSome in tt))

either :
    (b : Bool) (us vs : List Text)
    → All IsSome us
    → All IsSome vs
    → All IsSome (if b then us else vs)
either true us vs a c = a
either false us vs a c = c

without_batch_mode-AllSome : (ws : List Text) → All IsSome ws → All IsSome (without_batch_mode ws)
unfolding without_batch_mode
without_batch_mode-AllSome [] a = tt
without_batch_mode-AllSome (w ∷ []) a = either _ [] (w ∷ []) tt a
without_batch_mode-AllSome (w ∷ v ∷ ws) a =
    let after_one = without_batch_mode-AllSome (v ∷ ws) a.1 in
    either _ _ _ (without_batch_mode-AllSome ws a.1.1) (
      either (has_prefix (to_lower w) (bytes "-obatchmode=")) _ (w ∷ without_batch_mode (v ∷ ws))
        after_one (a.0, after_one))

or_ssh-AllSome : (ws : List Text) → All IsSome ws → All IsSome (or_ssh ws)
unfolding IsSome text_eq
or_ssh-AllSome [] a = (refl, tt)
or_ssh-AllSome (w ∷ ws) a = a

with_batch_mode :
    (ws : List Text)
    → All IsSome ws
    → All IsSome (ws ++ (bytes "-o" ∷ (bytes "BatchMode=yes" ∷ [])))
unfolding IsSome text_eq
with_batch_mode [] a = (refl, (refl, tt))
with_batch_mode (w ∷ ws) a = (a.0, with_batch_mode ws a.1)

batch_mode_words-AllSome : (t : Text) → All IsSome (batch_mode_words t)
unfolding batch_mode_words
batch_mode_words-AllSome t =
    with_batch_mode _
      (or_ssh-AllSome _ (without_batch_mode-AllSome _ (split_shell_fields-AllSome t)))

-- A GIT_SSH_COMMAND that is not blank is written as a command that splits into the words of the old
-- command that are left without the BatchMode options (or "ssh" if none is left), followed by "-o"
-- and "BatchMode=yes".
pub split_shell_fields-ssh_batch_mode_command :
    (existing : Text)
    → text_eq (trim_space existing) [] ≡ false
    → (left : List Text) × WithoutBatchMode (split_shell_fields (trim_space existing)) left
      × (split_shell_fields (ssh_batch_mode_command existing)
          ≡ named left ++ (bytes "-o" ∷ (bytes "BatchMode=yes" ∷ [])))
unfolding ssh_batch_mode_command split_shell_fields batch_mode_words
split_shell_fields-ssh_batch_mode_command existing h =
    let words = split_shell_fields (trim_space existing) in
    (
      without_batch_mode words,
      without_batch_mode-WithoutBatchMode words,
      rw h (
          split-all (batch_mode_words (trim_space existing))
            (batch_mode_words-AllSome (trim_space existing))
          ∙ ap (λ ws. ws ++ (bytes "-o" ∷ (bytes "BatchMode=yes" ∷ [])))
              (or_ssh-named (without_batch_mode words))),
    )
