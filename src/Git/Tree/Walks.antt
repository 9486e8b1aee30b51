-- ===== src/Git/Tree/Walks.antt =====
-- The walks up the tree of `addImplicitDirs` in internal/gitstore/gitstore.go.
use gitfs.Prelude.{
  ℕ, zero, suc, ◌<◌, Text, text_eq, text_eq_iff, text_eq_refl, Bool, true, false, ◌||◌, ◌&&◌, List,
  [], ◌∷◌, ◌++◌, any, length, ◌≡◌, ◌⊎◌, inl, inr, refl, sym, subst, arith, Bool-cases, ◌∙◌, All,
}
use gitfs.Prelude.Any.{any-append}
use mathlib.Core.List.{append-nil, append_assoc}
use gitfs.Path.Split.{All-append}
use gitfs.Model.{BaseNode, known}
use gitfs.Model
use gitfs.Path.{dot}
use gitfs.Path.Names.{dir}
use gitfs.Path.Lengths.{is_top, dir-shorter}
use gitfs.Git.Tree.{Filled, is_seen, implicit_dir, with_dir, stops_at, fill_up}

abbrev pub has_path : List BaseNode → Text → Bool
has_path ns x = any (λ n. text_eq x n.path) ns

-- The directory of the path is the top of the tree, or it is there.
abbrev pub has_parent : List BaseNode → Text → Bool
has_parent ns x = is_top (dir x) || has_path ns (dir x)

abbrev pub all_have_parents : List BaseNode → List BaseNode → Bool
all_have_parents all [] = true
all_have_parents all (n ∷ ns) = has_parent all n.path && all_have_parents all ns

-- Each seen path is there, or the top.
abbrev pub SeenIsThere : Filled → Type 0
SeenIsThere s = (x : Text) → is_seen x s ≡ true → (text_eq x dot || has_path s.nodes x) ≡ true

-- What the loops keep to.
abbrev pub settled : Filled → Text → Bool
settled s d = is_top d || is_seen d s

-- All paths but those of `todo` are settled.
abbrev pub Settled : Filled → (Text → Bool) → Type 0
Settled s todo = (x : Text) → has_path s.nodes x ≡ true → (todo x || settled s (dir x)) ≡ true

has_path-with_dir :
    (d x : Text) (s : Filled)
    → has_path (with_dir d s).nodes x ≡ (has_path s.nodes x || text_eq x d)
unfolding implicit_dir any
has_path-with_dir d x s =
    let a = any-append (λ (n : BaseNode). text_eq x n.path) s.nodes (implicit_dir d ∷ []) in
    ground (arith, a)

SeenIsThere-with_dir : (d : Text) (s : Filled) → SeenIsThere s → SeenIsThere (with_dir d s)
unfolding any
SeenIsThere-with_dir d s h x e = let a = has_path-with_dir d x s in let b = h x in ground (arith, a)

-- Fuel that is enough for the walk up from `d`.
abbrev Enough : ℕ → Text → Type 0
Enough f d = (is_top d ≡ true) ⊎ (length d < f)

-- The paths of `s` are settled but for `todo`, and for those whose directory is `d`.
abbrev pub Pending : Filled → Text → (Text → Bool) → Type 0
Pending s d todo =
    (x : Text)
    → has_path s.nodes x ≡ true
    → (todo x || (text_eq (dir x) d || settled s (dir x))) ≡ true

-- A directory that git has no object of, with mode 0o755 and the size 0, which is known.
abbrev pub IsPlainDir : BaseNode → Type 0
IsPlainDir n =
    (n.node_type ≡ Model.dir)
    × (n.mode ≡ 0o755)
    × (n.object_oid ≡ [])
    × (n.size_state ≡ known)
    × (n.size_bytes ≡ 0)

-- The second list is the first one with directories behind it.
pub Added : List BaseNode → List BaseNode → Type 0
Added ns all = (dirs : List BaseNode) × (all ≡ ns ++ dirs) × All IsPlainDir dirs

pub Added-refl : (ns : List BaseNode) → Added ns ns
unfolding Added
Added-refl ns = ([], sym (append-nil ns), tt)

Added-with_dir :
    (d : Text) (ns all : List BaseNode) → Added (ns ++ (implicit_dir d ∷ [])) all → Added ns all
unfolding Added implicit_dir
Added-with_dir d ns all (dirs, e, a) = (
  implicit_dir d ∷ dirs,
  e ∙ append_assoc ns (implicit_dir d ∷ []) dirs,
  ((refl, refl, refl, refl, refl), a),
)

pub Added-trans : (ns ms all : List BaseNode) → Added ns ms → Added ms all → Added ns all
unfolding Added
Added-trans ns ms all (ds, e, a) (ds', e', a') =
    (ds ++ ds', rw (e', e) (append_assoc ns ds ds'), All-append IsPlainDir ds ds' a a')

-- What a walk from `d` does: nothing seen is lost, `d` is settled, and so is all that is added.
pub record Walked (d : Text) (s s' : Filled) : Type 0 where
  pub seen_more : (x : Text) → is_seen x s ≡ true → is_seen x s' ≡ true
  pub start : settled s' d ≡ true
  pub there : SeenIsThere s → SeenIsThere s'
  pub others : (todo : Text → Bool) → Pending s d todo → Settled s' todo
  pub added : Added s.nodes s'.nodes

settled-eq :
    (s : Filled) (c d : Text) → text_eq c d ≡ true → settled s d ≡ true → settled s c ≡ true
settled-eq s c d e h = subst (λ z. settled s z ≡ true) (sym ((text_eq_iff c d).0 e)) h

pub discharged :
    (d : Text) (s : Filled) (t : Bool) (c : Text)
    → settled s d ≡ true
    → (t || (text_eq c d || settled s c)) ≡ true
    → (t || settled s c) ≡ true
discharged d s t c h e = elim (Bool-cases (text_eq c d)) [
  | inl q ↦ (let b = settled-eq s c d q h in ground arith)
  | inr q ↦ ground arith
]

stopped-Walked : (d : Text) (s : Filled) → settled s d ≡ true → Walked d s s
stopped-Walked d s h = record {
  seen_more = λ x e. e;
  start = h;
  there = λ t. t;
  others = λ todo p x e. discharged d s (todo x) (dir x) h (p x e);
  added = Added-refl s.nodes;
}

Pending-with_dir :
    (d : Text) (s : Filled) (todo : Text → Bool)
    → Pending s d todo
    → Pending (with_dir d s) (dir d) (λ x. todo x || text_eq (dir x) d)
unfolding any
Pending-with_dir d s todo p x e = elim (Bool-cases (has_path s.nodes x)) [
  | inl h ↦ (let a = p x h in ground arith)
  | inr h ↦
      (let same : text_eq x d ≡ true = ground (arith, has_path-with_dir d x s) in
        let up : text_eq (dir x) (dir d) ≡ true =
          subst (λ z. text_eq (dir z) (dir d) ≡ true) (sym ((text_eq_iff x d).0 same))
            (text_eq_refl (dir d)) in
        ground arith)
]

with_dir-Walked : (d : Text) (s s' : Filled) → Walked (dir d) (with_dir d s) s' → Walked d s s'
unfolding any
with_dir-Walked d s s' w =
    let mine : is_seen d s' ≡ true = w.seen_more d (ground (arith, text_eq_refl d)) in
    let start : settled s' d ≡ true = ground arith in
    record {
      seen_more = λ x e. w.seen_more x (ground (arith, e));
      start = start;
      there = λ t. w.there (SeenIsThere-with_dir d s t);
      others = λ todo p x e. discharged d s' (todo x) (dir x) start (
          let a = w.others (λ y. todo y || text_eq (dir y) d) (Pending-with_dir d s todo p) x e in
          ground arith);
      added = Added-with_dir d s.nodes s'.nodes w.added;
    }

-- One step less is enough for the directory.
Enough-dir : (f : ℕ) (d : Text) → is_top d ≡ false → Enough (suc f) d → Enough f (dir d)
Enough-dir f d t (inl e) = inl (ground arith)
Enough-dir f d t (inr l) = elim (dir-shorter d) [ inl e ↦ inl e | inr h ↦ inr (omega arith) ]

pub fill_up-Walked : (f : ℕ) (d : Text) (s : Filled) → Enough f d → Walked d s (fill_up f d s)
unfolding fill_up
fill_up-Walked zero d s (inl e) = stopped-Walked d s (ground (arith, e))
fill_up-Walked zero d s (inr l) = absurd (omega arith)
fill_up-Walked (suc f) d s e = elim (Bool-cases (stops_at d s)) [
  | inl h ↦ rw h (stopped-Walked d s (ground (arith, h)))
  | inr h ↦ rw h (
      with_dir-Walked d s (fill_up f (dir d) (with_dir d s))
        (fill_up-Walked f (dir d) (with_dir d s) (Enough-dir f d (ground (arith, h)) e)))
]
