-- ===== src/Tests/Watcher.antt =====
-- Runs of internal/watcher/watcher.go.
use gitfs.Prelude.{ℕ, Text, bytes, text_eq, false, Option, none, some, ◌≡◌, refl, if◌then◌else◌}
use gitfs.Watcher.{Files, new_poller, head_ref_path, head_changed}
use gitfs.Watcher.Moves.{ref_moved, head_changed-ref_moved}

abbrev head : Text
head = bytes "/g/HEAD"

abbrev branch : Text
branch = bytes "/g/refs/heads/main"

-- The disk with the branch at a time, or without it.
abbrev disk : Option ℕ → Files
disk t = record {
  stat = λ p. if text_eq p head then some 5 else if text_eq p branch then t else none;
  content = λ p. if text_eq p head then some (bytes "ref: refs/heads/main") else none;
}

names_branch : (t : Option ℕ) → head_ref_path (disk t) head ≡ some branch
unfolding head_ref_path text_eq gitfs.Path.Names.cut_prefix gitfs.Strings.trim_space gitfs.Path.join
    gitfs.Path.Names.dir gitfs.Path.clean gitfs.Path.Names.up_to_slash gitfs.Path.join_words
    gitfs.Path.split gitfs.Path.push_word
names_branch t = refl

apart : text_eq head branch ≡ false
unfolding text_eq
apart = refl

head_there : (t : Option ℕ) → (disk t).stat head ≡ some 5
unfolding text_eq
head_there t = refl

head_changed-ref_moved_example :
    (head_changed (disk (some 9)) head (head_changed (disk none) head new_poller).1).0
    ≡ ref_moved (new_poller.prev branch) ((disk none).stat branch) ((disk (some 9)).stat branch)
head_changed-ref_moved_example =
    head_changed-ref_moved (disk none) (disk (some 9)) head branch 5 new_poller apart
      (names_branch none) (names_branch (some 9)) (head_there none) (head_there (some 9))
