-- ===== src/Git/Shell/Quoting.antt =====
-- A quoted word of internal/gitstore/gitstore.go as `splitShellFields` reads it.
use gitfs.Prelude.{
  ℕ, Text, text_eq, text_eq_iff, true, false, ◌&&◌, ◌||◌, List, [], ◌∷◌, ◌++◌, ◌==◌, ◌≡◌, refl, ap,
  sym, ◌∙◌, arith, if◌then◌else◌, Bool-cases, inl, inr,
}
use gitfs.Strings.{contains_byte}
use gitfs.Git.Shell.{
  Splitter, write, split_step, split_from, is_safe_byte, is_shell_safe, needs_backslash,
  double_quoted, single_quoted, shell_quote,
}

pub split_from-append :
    (s : Splitter) (t u : Text) → split_from s (t ++ u) ≡ split_from (split_from s t) u
unfolding split_from
split_from-append s [] u = refl
split_from-append s (r ∷ t) u = split_from-append (split_step s r) t u

split_from-cons :
    (s : Splitter) (r : ℕ) (t : Text) → split_from s (r ∷ t) ≡ split_from (split_step s r) t
unfolding split_from
split_from-cons s r t = refl

append_assoc : (s t u : Text) → (s ++ t) ++ u ≡ s ++ (t ++ u)
append_assoc [] t u = refl
append_assoc (b ∷ s) t u = ap (λ r. b ∷ r) (append_assoc s t u)

append-nil : (s : Text) → s ++ [] ≡ s
append-nil [] = refl
append-nil (b ∷ s) = ap (λ r. b ∷ r) (append-nil s)

write-write : (t u : Text) (s : Splitter) → write u (write t s) ≡ write (t ++ u) s
write-write t u s = ap (λ w. record s { word = w }) (append_assoc s.word t u)

-- A state between the words or inside one, with no quote open.
abbrev pub plain : List Text → Text → Splitter
plain ws w = record { words = ws; word = w; quote = 0; escaped = false }

abbrev in_quote : ℕ → List Text → Text → Splitter
in_quote q ws w = record { words = ws; word = w; quote = q; escaped = false }

safe-step :
    (ws : List Text) (w : Text) (r : ℕ)
    → is_safe_byte r ≡ true
    → split_step (plain ws w) r ≡ plain ws (w ++ (r ∷ []))
unfolding split_step contains_byte
safe-step ws w r h = ground arith

add-byte :
    (ws : List Text) (q : ℕ) (w t : Text) (r : ℕ)
    → in_quote q ws ((w ++ (r ∷ [])) ++ t) ≡ in_quote q ws (w ++ (r ∷ t))
add-byte ws q w t r = ap (in_quote q ws) (append_assoc w (r ∷ []) t)

safe-run :
    (ws : List Text) (w t : Text)
    → is_shell_safe t ≡ true
    → split_from (plain ws w) t ≡ plain ws (w ++ t)
unfolding split_from is_shell_safe
safe-run ws w [] h = ap (plain ws) (sym (append-nil w))
safe-run ws w (r ∷ t) h =
    ap (λ s. split_from s t) (safe-step ws w r (ground arith))
    ∙ (safe-run ws (w ++ (r ∷ [])) t (ground arith) ∙ add-byte ws 0 w t r)

single-step :
    (ws : List Text) (w : Text) (r : ℕ)
    → (r == b'\'') ≡ false
    → (r == b'$') ≡ false
    → split_step (in_quote b'\'' ws w) r ≡ in_quote b'\'' ws (w ++ (r ∷ []))
unfolding split_step
single-step ws w r h k = ground arith

-- A quote that is closed, escaped and opened again.
reopened :
    (ws : List Text) (w t : Text)
    → split_from (in_quote b'\'' ws w) (b'\'' ∷ b'\\' ∷ b'\'' ∷ b'\'' ∷ t)
      ≡ split_from (in_quote b'\'' ws (w ++ (b'\'' ∷ []))) t
unfolding split_from split_step
reopened ws w t = refl

single-run :
    (ws : List Text) (w t : Text)
    → contains_byte b'$' t ≡ false
    → split_from (in_quote b'\'' ws w) (single_quoted t) ≡ in_quote b'\'' ws (w ++ t)
unfolding single_quoted contains_byte
single-run ws w [] h = unfold split_from in ap (in_quote b'\'' ws) (sym (append-nil w))
single-run ws w (r ∷ t) h = elim (Bool-cases (r == b'\'')) [
  | inl q ↦ rw q (
      reopened ws w (single_quoted t)
      ∙ (single-run ws (w ++ (b'\'' ∷ [])) t (ground arith)
          ∙ (add-byte ws b'\'' w t b'\'' ∙ ground arith)))
  | inr q ↦ rw q (
      split_from-cons (in_quote b'\'' ws w) r (single_quoted t)
      ∙ (ap (λ s. split_from s (single_quoted t)) (single-step ws w r q (ground arith))
          ∙ (single-run ws (w ++ (r ∷ [])) t (ground arith) ∙ add-byte ws b'\'' w t r)))
]

double-step :
    (ws : List Text) (w t : Text) (r : ℕ)
    → needs_backslash r ≡ false
    → split_from (in_quote b'"' ws w) (r ∷ t) ≡ split_from (in_quote b'"' ws (w ++ (r ∷ []))) t
unfolding split_from split_step
double-step ws w t r h = ground arith

escaped-step :
    (ws : List Text) (w t : Text) (r : ℕ)
    → needs_backslash r ≡ true
    → split_from (in_quote b'"' ws w) (b'\\' ∷ r ∷ t)
      ≡ split_from (in_quote b'"' ws (w ++ (r ∷ []))) t
unfolding split_from split_step
escaped-step ws w t r h = ground arith

dollar-step :
    (ws : List Text) (w t : Text)
    → split_from (in_quote b'"' ws w) (b'\\' ∷ b'$' ∷ t)
      ≡ split_from (in_quote b'"' ws (w ++ (b'\\' ∷ b'$' ∷ []))) t
unfolding split_from split_step
dollar-step ws w t = refl

-- The bytes for `r` and then the rest, as `doubleQuote` writes them.
abbrev escape : ℕ → Text → Text
escape r t = if needs_backslash r then b'\\' ∷ r ∷ t else r ∷ t

escape-step :
    (ws : List Text) (w t : Text) (r : ℕ)
    → split_from (in_quote b'"' ws w) (escape r t) ≡ split_from (in_quote b'"' ws (w ++ (r ∷ []))) t
escape-step ws w t r = elim (Bool-cases (needs_backslash r)) [
  | inl h ↦ rw h (escaped-step ws w t r h)
  | inr h ↦ rw h (double-step ws w t r h)
]

double-run :
    (ws : List Text) (w t : Text)
    → split_from (in_quote b'"' ws w) (double_quoted t) ≡ in_quote b'"' ws (w ++ t)
unfolding double_quoted
double-run ws w [] = unfold split_from in ap (in_quote b'"' ws) (sym (append-nil w))
double-run ws w (c ∷ []) = escape-step ws w [] c ∙ unfold split_from in refl
double-run ws w (c ∷ d ∷ t) = elim (Bool-cases (c == b'\\' && d == b'$')) [
  | inl q ↦
      let backslash : c ≡ b'\\' = ground arith in
      let is_dollar : d ≡ b'$' = ground arith in
      rw (backslash, is_dollar)
        (dollar-step ws w (double_quoted t)
          ∙ (double-run ws (w ++ (b'\\' ∷ b'$' ∷ [])) t
              ∙ ap (in_quote b'"' ws) (append_assoc w (b'\\' ∷ b'$' ∷ []) t)))
  | inr q ↦ rw q (
      escape-step ws w (double_quoted (d ∷ t)) c
      ∙ (double-run ws (w ++ (c ∷ [])) (d ∷ t) ∙ add-byte ws b'"' w (d ∷ t) c))
]

opens :
    (q : ℕ) (ws : List Text) (w : Text)
    → (q == b'\'' || q == b'"') ≡ true
    → split_step (plain ws w) q ≡ in_quote q ws w
unfolding split_step
opens q ws w h = ground arith

closes :
    (q : ℕ) (ws : List Text) (w : Text)
    → (q == b'\'' || q == b'"') ≡ true
    → split_from (in_quote q ws w) (q ∷ []) ≡ plain ws w
unfolding split_step split_from
closes q ws w h = ground arith

nothing :
    (q : ℕ) (ws : List Text) (w : Text) → split_from (in_quote q ws w) [] ≡ in_quote q ws (w ++ [])
unfolding split_from
nothing q ws w = ap (in_quote q ws) (sym (append-nil w))

-- A quoted stretch from its opening to its closing quote.
enclosed :
    (q : ℕ) (ws : List Text) (w v t : Text)
    → (q == b'\'' || q == b'"') ≡ true
    → split_from (in_quote q ws w) t ≡ in_quote q ws v
    → split_from (plain ws w) (q ∷ (t ++ (q ∷ []))) ≡ plain ws v
unfolding split_step
enclosed q ws w v t is_quote h =
    split_from-cons (plain ws w) q (t ++ (q ∷ []))
    ∙ (ap (λ s. split_from s (t ++ (q ∷ []))) (opens q ws w is_quote)
        ∙ (split_from-append (in_quote q ws w) t (q ∷ [])
            ∙ (ap (λ s. split_from s (q ∷ [])) h ∙ closes q ws v is_quote)))

-- Outside quotes, a quoted word adds the word to the one that is being read.
pub quoted-run :
    (ws : List Text) (w t : Text) → split_from (plain ws w) (shell_quote t) ≡ plain ws (w ++ t)
unfolding shell_quote
quoted-run ws w t = elim (Bool-cases (text_eq t [])) [
  | inl e ↦
      let none_left : t ≡ [] = (text_eq_iff t []).0 e in
      rw e (rw none_left (enclosed b'\'' ws w (w ++ []) [] refl (nothing b'\'' ws w)))
  | inr n ↦ elim (Bool-cases (contains_byte b'$' t)) [
    | inl e ↦ rw (n, e) (enclosed b'"' ws w (w ++ t) (double_quoted t) refl (double-run ws w t))
    | inr d ↦ elim (Bool-cases (is_shell_safe t)) [
      | inl e ↦ rw (n, d, e) (safe-run ws w t e)
      | inr e ↦
          rw (n, d, e) (enclosed b'\'' ws w (w ++ t) (single_quoted t) refl (single-run ws w t d))
    ]
  ]
]
