-- ===== src/Registry/Stored.antt =====
-- What the registry gives back of a configuration, in internal/registry/registry.go.
use gitfs.Prelude.{
  ℕ, ◌*◌, ◌/◌, Text, text_eq, text_eq_iff, text_eq_refl, true, false, Option, none, some, List, [],
  ◌∷◌, any, ◌≡◌, refl, arith, Bool-cases, inl, inr, ap, ◌⊎◌,
}
use gitfs.Registry.{
  Config, RepoRow, yields, second, new_row, put_row, name_taken, add_repo, scan_repo, find_name,
  get_repo,
}

-- A configuration with its interval in whole seconds.
abbrev pub in_seconds : Config → Config
in_seconds cfg = record cfg { refresh_interval = cfg.refresh_interval / second * second }

scan-new_row :
    (cfg : Config) (created now : ℕ) → scan_repo (new_row cfg created now) ≡ in_seconds cfg
unfolding scan_repo
scan-new_row cfg created now = ground arith

find-put_row :
    (cfg : Config) (now : ℕ) (rs : List RepoRow)
    → name_taken cfg rs ≡ false
    → (created : ℕ) × (find_name cfg.name (put_row cfg now rs) ≡ some (new_row cfg created now))
unfolding put_row name_taken find_name any
find-put_row cfg now [] h = (now, rw (text_eq_refl cfg.name) refl)
find-put_row cfg now (r ∷ rs) h = elim (Bool-cases (text_eq r.columns.id cfg.id)) [
  | inl e ↦ (r.created_at, ground (arith, text_eq_refl cfg.name))
  | inr e ↦ let (created, found) = find-put_row cfg now rs (ground arith) in (created, ground arith)
]

pub stored-found :
    (cfg : Config) (now : ℕ) (rs rs' : List RepoRow)
    → add_repo cfg now rs ≡ yields rs'
    → (created : ℕ) × (find_name cfg.name rs' ≡ some (new_row cfg created now))
unfolding add_repo
stored-found cfg now rs rs' a =
    let put : put_row cfg now rs ≡ rs' = ground arith in
    rw (← put) (find-put_row cfg now rs (ground arith))

-- Another repository that is found under the configuration's name takes it.
found-taken :
    (cfg : Config) (rs : List RepoRow) (n : Text) (q : RepoRow)
    → find_name n rs ≡ some q
    → text_eq q.columns.id cfg.id ≡ false
    → cfg.name ≡ n
    → name_taken cfg rs ≡ true
unfolding name_taken find_name any
found-taken cfg [] n q f d e = cc
found-taken cfg (r ∷ rs) n q f d e = elim (Bool-cases (text_eq r.columns.name n)) [
  | inl same ↦ ground (arith, ap (λ t. text_eq r.columns.name t) e)
  | inr other ↦ ground (arith, found-taken cfg rs n q)
]

-- Rows of other repositories are found as before.
find-put_row_other :
    (cfg : Config) (now : ℕ) (rs : List RepoRow) (n : Text) (q : RepoRow)
    → name_taken cfg rs ≡ false
    → find_name n rs ≡ some q
    → text_eq q.columns.id cfg.id ≡ false
    → find_name n (put_row cfg now rs) ≡ some q
unfolding put_row name_taken find_name any
find-put_row_other cfg now [] n q h f d = cc
find-put_row_other cfg now (r ∷ rs) n q h f d = elim (Bool-cases (text_eq r.columns.id cfg.id)) [
  | inl e ↦ ground (arith, found-taken cfg rs n q, text_eq_iff cfg.name n)
  | inr e ↦ ground (arith, find-put_row_other cfg now rs n q)
]

-- A row that is found stays, unless it is of the repository `id`.
abbrev pub StaysFound : Text → Option RepoRow → Option RepoRow → Type 0
StaysFound id none r = Unit
StaysFound id (some q) r = (text_eq q.columns.id id ≡ true) ⊎ (r ≡ some q)

-- Adding a configuration that succeeds, to any registry, an empty one too: under its name it is read
-- back with its interval in whole seconds and all else as it was, and whatever name a repository with
-- another id is found under, it is found under it with the row that it had.
pub get_repo-add_repo :
    (cfg : Config) (now : ℕ) (rs rs' : List RepoRow) (n : Text)
    → add_repo cfg now rs ≡ yields rs'
    → (get_repo cfg.name rs' ≡ yields (in_seconds cfg))
      × StaysFound cfg.id (find_name n rs) (find_name n rs')
unfolding add_repo get_repo
get_repo-add_repo cfg now rs rs' n a =
    let fresh : name_taken cfg rs ≡ false = ground arith in
    let put : put_row cfg now rs ≡ rs' = ground arith in
    let (created, found) = find-put_row cfg now rs fresh in
    (
      rw (← put) (rw (found, get_repo) (ap (λ c. yields c) (scan-new_row cfg created now))),
      rw (← put) (stays (find_name n rs) refl fresh),
    )
  where
    stays :
        (o : Option RepoRow)
        → find_name n rs ≡ o
        → name_taken cfg rs ≡ false
        → StaysFound cfg.id o (find_name n (put_row cfg now rs))
    stays none f fresh = tt
    stays (some q) f fresh = elim (Bool-cases (text_eq q.columns.id cfg.id)) [
      | inl e ↦ inl e
      | inr e ↦ inr (find-put_row_other cfg now rs n q fresh f e)
    ]
