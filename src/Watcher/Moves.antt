-- ===== src/Watcher/Moves.antt =====
-- Two ticks of internal/watcher/watcher.go on one branch.
use gitfs.Prelude.{
  ℕ, Text, text_eq, text_eq_refl, text_eq_sym, Bool, true, false, Option, none, some, ltb, ◌≡◌, ◌∙◌,
  ap, Bool-cases, arith, inl, inr,
}
use gitfs.Watcher.{
  Files, Poller, set_prev, set_first_seen, changed, current_ref_changed, head_ref_path,
  head_changed,
}

-- Whether a branch moved from one tick to the next, where `known` is its time from before both.
abbrev pub ref_moved : Option ℕ → Option ℕ → Option ℕ → Bool
ref_moved known before none = false
ref_moved known (some a) (some b) = ltb a b
ref_moved none none (some b) = true
ref_moved (some x) none (some b) = ltb x b

-- Two looks at the branch, with `q` the poller at the second one.
two_looks :
    (before after : Files) (ref : Text) (p q : Poller)
    → q.prev ref ≡ (current_ref_changed before ref p).1.prev ref
    → q.first_seen_change ref ≡ (current_ref_changed before ref p).1.first_seen_change ref
    → (current_ref_changed after ref q).0
      ≡ ref_moved (p.prev ref) (before.stat ref) (after.stat ref)
unfolding current_ref_changed changed set_prev set_first_seen
two_looks before after ref p q h k = ground (arith, text_eq_refl ref)

-- A look at HEAD, which is there, remembers its time and says nothing of the branch.
head_look :
    (files : Files) (head ref : Text) (m : ℕ) (p : Poller)
    → text_eq head ref ≡ false
    → files.stat head ≡ some m
    → ((changed files head p).1.prev head ≡ some m)
      × ((changed files head p).1.prev ref ≡ p.prev ref)
      × ((changed files head p).1.first_seen_change ref ≡ p.first_seen_change ref)
unfolding changed set_prev set_first_seen
head_look files head ref m p d e = ground (arith, text_eq_refl head)

-- A look at the branch says nothing of HEAD.
ref_look :
    (files : Files) (head ref : Text) (p : Poller)
    → text_eq ref head ≡ false
    → (current_ref_changed files ref p).1.prev head ≡ p.prev head
unfolding current_ref_changed changed set_prev set_first_seen
ref_look files head ref p d = ground arith

unmoved :
    (files : Files) (head : Text) (m : ℕ) (p : Poller)
    → files.stat head ≡ some m
    → p.prev head ≡ some m
    → (changed files head p).0 ≡ false
unfolding changed
unmoved files head m p e k = ground arith

-- A tick looks at HEAD, and then at the branch that it names.
tick :
    (files : Files) (head ref : Text) (p : Poller)
    → head_ref_path files head ≡ some ref
    → ((head_changed files head p).1 ≡ (current_ref_changed files ref (changed files head p).1).1)
      × ((changed files head p).0 ≡ false
          → (head_changed files head p).0
            ≡ (current_ref_changed files ref (changed files head p).1).0)
unfolding head_changed
tick files head ref p h = elim (Bool-cases (changed files head p).0) [
  | inl e ↦ (ground arith, λ k. ground arith)
  | inr e ↦ (ground arith, λ k. ground arith)
]

-- Where HEAD names the same branch at two ticks and was not written between them, the second tick
-- reports a change exactly if the branch moved: its file became newer, or it came into being and is
-- newer than what the poller knew of it, if anything.
pub head_changed-ref_moved :
    (before after : Files) (head ref : Text) (m : ℕ) (p : Poller)
    → text_eq head ref ≡ false
    → head_ref_path before head ≡ some ref
    → head_ref_path after head ≡ some ref
    → before.stat head ≡ some m
    → after.stat head ≡ some m
    → (head_changed after head (head_changed before head p).1).0
      ≡ ref_moved (p.prev ref) (before.stat ref) (after.stat ref)
head_changed-ref_moved before after head ref m p d hb ha sb sa =
    let p0 = (changed before head p).1 in
    let p1 = (current_ref_changed before ref p0).1 in
    let p2 = (changed after head p1).1 in
    let look0 = head_look before head ref m p d sb in
    let apart : text_eq ref head ≡ false = text_eq_sym ref head ∙ d in
    let known = ref_look before head ref p0 apart ∙ look0.0 in
    let look2 = head_look after head ref m p1 d sa in
    rw (tick before head ref p hb).0 (
      (tick after head ref p1 ha).1 (unmoved after head m p1 sa known)
      ∙ (two_looks before after ref p0 p2 look2.1 look2.2
          ∙ ap (λ k. ref_moved k (before.stat ref) (after.stat ref)) look0.1))
