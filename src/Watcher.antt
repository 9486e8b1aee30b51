-- ===== src/Watcher.antt =====
-- internal/watcher/watcher.go: the poller that looks for moves of HEAD and of the branch that it
-- names. The maps of the poller are functions; the ticker and the callback are not modelled.
pub mod Moves
use gitfs.Prelude.{
  ℕ, Text, bytes, text_eq, Bool, true, false, Option, none, some, [], ltb, if◌then◌else◌, is_some,
}
use gitfs.Strings.{trim_space}
use gitfs.Path.{join}
use gitfs.Path.Names.{dir, cut_prefix}

-- What the poller sees of the disk at one tick: modification times, and contents.
pub record Files : Type 0 where
  pub stat : Text → Option ℕ
  pub content : Text → Option Text

pub record Poller : Type 0 where
  pub prev : Text → Option ℕ
  pub first_seen_change : Text → Bool

abbrev pub new_poller : Poller
new_poller = record { prev = λ p. none; first_seen_change = λ p. false }

unfoldable pub set_prev : Text → ℕ → Poller → Poller
set_prev path t p = record p { prev = λ q. if text_eq path q then some t else p.prev q }

unfoldable pub set_first_seen : Text → Bool → Poller → Poller
set_first_seen path b p = record p {
  first_seen_change = λ q. if text_eq path q then b else p.first_seen_change q;
}

abbrev seen_at : Text → ℕ → Option ℕ → Bool → Poller → Bool × Poller
seen_at path t none true p = (true, set_first_seen path false (set_prev path t p))
seen_at path t none false p = (false, set_prev path t p)
seen_at path t (some old) b p = (ltb old t, set_first_seen path false (set_prev path t p))

unfoldable pub changed : Files → Text → Poller → Bool × Poller
unfolding set_prev set_first_seen
changed files path p = elim (files.stat path) [
  | none ↦ (false, p)
  | some t ↦ seen_at path t (p.prev path) (p.first_seen_change path) p
]

unfoldable pub current_ref_changed : Files → Text → Poller → Bool × Poller
unfolding changed set_first_seen
current_ref_changed files ref_path p = elim (files.stat ref_path) [
  | none ↦ (false, set_first_seen ref_path true p)
  | some t ↦ changed files ref_path p
]

abbrev ref_in : Text → Option Text → Option Text
ref_in head_path none = none
ref_in head_path (some ref) =
    if text_eq (trim_space ref) [] then none else some (join (dir head_path) (trim_space ref))

unfoldable pub head_ref_path : Files → Text → Option Text
head_ref_path files head_path = elim (files.content head_path) [
  | none ↦ none
  | some t ↦ ref_in head_path (cut_prefix (trim_space t) (bytes "ref: "))
]

-- `headChanged` after the test on HEAD itself.
abbrev head_moved : Files → Option Text → Bool × Poller → Bool × Poller
head_moved files none (b, p) = (b, p)
head_moved files (some ref) (true, p) = (true, (current_ref_changed files ref p).1)
head_moved files (some ref) (false, p) = current_ref_changed files ref p

unfoldable pub head_changed : Files → Text → Poller → Bool × Poller
head_changed files head_path p =
    head_moved files (head_ref_path files head_path) (changed files head_path p)
