-- ===== src/Registry.antt =====
-- internal/registry/registry.go: the table of the repositories. A row is kept under its `repo_id`, the
-- key of the table, and no two rows have one name. The database itself does not fail here.
pub mod Stored
use gitfs.Prelude.{
  ℕ, ◌*◌, ◌/◌, Text, bytes, text_eq, text_le, Bool, true, false, not, ◌&&◌, Option, none, some,
  List, [], ◌∷◌, any, keep, map, sort_by, ◌==◌, if◌then◌else◌,
}

-- `model.RepoConfig`; the interval is in nanoseconds.
pub record Config : Type 0 where
  pub id : Text
  pub name : Text
  pub mount_root : Text
  pub mount_path : Text
  pub remote_url : Text
  pub remote_url_redacted : Text
  pub branch : Text
  pub refresh_interval : ℕ
  pub git_dir : Text
  pub overlay_dir : Text
  pub blob_cache_dir : Text
  pub meta_db_path : Text
  pub overlay_db_path : Text
  pub enabled : Bool
  pub prepared_git_dir : Bool
  pub fetch_ref : Text
  pub prepare_state : Text
  pub prepare_error : Text

-- A row of `repos`: the columns of the configuration, the interval in seconds, and the two times.
pub record RepoRow : Type 0 where
  pub columns : Config
  pub refresh_seconds : ℕ
  pub enabled : ℕ
  pub prepared_gitdir : ℕ
  pub created_at : ℕ
  pub updated_at : ℕ

pub data RegistryError : Type 0 where
  name_not_unique repo_changed repo_not_found : RegistryError

pub data Answer {ℓ} (A : Type ℓ) : Type ℓ where
  yields : A → Answer A
  refuses : RegistryError → Answer A

abbrev pub bool_to_int : Bool → ℕ
bool_to_int true = 1
bool_to_int false = 0

-- One second in nanoseconds.
abbrev pub second : ℕ
second = 1_000_000_000

abbrev pub new_row : Config → ℕ → ℕ → RepoRow
new_row cfg created now = record {
  columns = cfg;
  refresh_seconds = cfg.refresh_interval / second;
  enabled = bool_to_int cfg.enabled;
  prepared_gitdir = bool_to_int cfg.prepared_git_dir;
  created_at = created;
  updated_at = now;
}

-- INSERT … ON CONFLICT(repo_id) DO UPDATE, which keeps `created_at_ns`.
unfoldable pub put_row : Config → ℕ → List RepoRow → List RepoRow
put_row cfg now [] = new_row cfg now now ∷ []
put_row cfg now (r ∷ rs) =
    let rest = r ∷ put_row cfg now rs in
    if text_eq r.columns.id cfg.id then new_row cfg r.created_at now ∷ rs else rest

-- Whether the name stands in a row of another repository.
unfoldable pub name_taken : Config → List RepoRow → Bool
name_taken cfg rs =
    any (λ (r : RepoRow). text_eq r.columns.name cfg.name && not (text_eq r.columns.id cfg.id)) rs

unfoldable pub add_repo : Config → ℕ → List RepoRow → Answer (List RepoRow)
unfolding name_taken put_row
add_repo cfg now rs =
    if name_taken cfg rs then refuses name_not_unique else yields (put_row cfg now rs)

abbrev pub with_state : Text → Text → ℕ → RepoRow → RepoRow
with_state state msg now r = record r {
  columns = record r.columns { prepare_state = state; prepare_error = msg };
  updated_at = now;
}

-- UPDATE … SET prepare_state, prepare_error, updated_at_ns WHERE …
unfoldable pub update_where : (RepoRow → Bool) → Text → Text → ℕ → List RepoRow → List RepoRow
update_where p state msg now rs =
    map (λ (r : RepoRow). if p r then with_state state msg now r else r) rs

unfoldable pub update_prepare_state : Text → Text → Text → ℕ → List RepoRow → List RepoRow
unfolding update_where
update_prepare_state id state msg now rs =
    update_where (λ r. text_eq r.columns.id id) state msg now rs

-- The WHERE clause of `UpdatePrepareStateForConfig`.
unfoldable pub is_config : Config → RepoRow → Bool
is_config cfg r =
    text_eq r.columns.id cfg.id
    && (text_eq r.columns.branch cfg.branch
        && (text_eq r.columns.remote_url cfg.remote_url
            && (r.prepared_gitdir == bool_to_int cfg.prepared_git_dir
                && (text_eq r.columns.fetch_ref cfg.fetch_ref
                    && (text_eq r.columns.git_dir cfg.git_dir
                        && (text_eq r.columns.overlay_dir cfg.overlay_dir
                            && (text_eq r.columns.blob_cache_dir cfg.blob_cache_dir
                                && (text_eq r.columns.meta_db_path cfg.meta_db_path
                                    && (text_eq r.columns.overlay_db_path cfg.overlay_db_path
                                        && text_eq r.columns.mount_path cfg.mount_path)))))))))

-- No row affected means that the repository changed.
unfoldable pub update_prepare_state_for_config :
    Config → Text → Text → ℕ → List RepoRow → Answer (List RepoRow)
unfolding is_config update_where
update_prepare_state_for_config cfg state msg now rs =
    if any (is_config cfg) rs
    then yields (update_where (is_config cfg) state msg now rs)
    else refuses repo_changed

unfoldable pub remove_repo : Text → List RepoRow → List RepoRow
remove_repo name rs = keep (λ (r : RepoRow). not (text_eq r.columns.name name)) rs

unfoldable pub scan_repo : RepoRow → Config
scan_repo r = record r.columns {
  refresh_interval = r.refresh_seconds * second;
  enabled = r.enabled == 1;
  prepared_git_dir = r.prepared_gitdir == 1;
}

unfoldable pub find_name : Text → List RepoRow → Option RepoRow
find_name name [] = none
find_name name (r ∷ rs) = if text_eq r.columns.name name then some r else find_name name rs

unfoldable pub get_repo : Text → List RepoRow → Answer Config
get_repo name rs = elim (find_name name rs) [
  | none ↦ refuses repo_not_found
  | some r ↦ yields (scan_repo r)
]

unfoldable pub list_repos : List RepoRow → List Config
unfolding scan_repo
list_repos rs = map scan_repo (sort_by (λ (r : RepoRow). r.columns.name) rs)

-- The columns that `ensureRepoColumns` adds to a table with these columns.
abbrev added_columns : List Text
added_columns =
    bytes "remote_url"
    ∷ bytes "prepared_gitdir"
    ∷ bytes "fetch_ref"
    ∷ bytes "prepare_state"
    ∷ bytes "prepare_error"
    ∷ []

unfoldable pub missing_columns : List Text → List Text
missing_columns columns = keep (λ c. not (any (text_eq c) columns)) added_columns
