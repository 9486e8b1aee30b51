-- ===== src/Tests/Registry.antt =====
-- Runs of internal/registry/registry.go.
use gitfs.Prelude.{ℕ, Text, bytes, text_eq, true, false, some, List, [], ◌∷◌, ◌≡◌, refl}
use gitfs.Registry.{
  Config, RepoRow, yields, refuses, repo_changed, new_row, add_repo, find_name, get_repo,
  update_prepare_state_for_config,
}
use gitfs.Registry.Stored.{in_seconds, StaysFound, get_repo-add_repo}

abbrev pub config : Text → Text → Config
config id name = record {
  id = id;
  name = name;
  mount_root = bytes "/m";
  mount_path = bytes "/m/r";
  remote_url = bytes "https://h/r";
  remote_url_redacted = bytes "https://h/r";
  branch = bytes "main";
  refresh_interval = 1_500_000_000;
  git_dir = bytes "/g";
  overlay_dir = bytes "/o";
  blob_cache_dir = bytes "/b";
  meta_db_path = bytes "/meta";
  overlay_db_path = bytes "/odb";
  enabled = true;
  prepared_git_dir = false;
  fetch_ref = [];
  prepare_state = [];
  prepare_error = [];
}

abbrev row_a : RepoRow
row_a = new_row (config (bytes "a") (bytes "one")) 1 1

abbrev row_b : RepoRow
row_b = new_row (config (bytes "b") (bytes "two")) 2 2

adds_b : add_repo (config (bytes "b") (bytes "two")) 2 (row_a ∷ []) ≡ yields (row_a ∷ (row_b ∷ []))
unfolding add_repo gitfs.Prelude.any text_eq
adds_b = refl

get_repo-add_repo_example :
    (get_repo (bytes "two") (row_a ∷ (row_b ∷ []))
      ≡ yields (in_seconds (config (bytes "b") (bytes "two"))))
    × StaysFound
        (bytes "b")
        (find_name (bytes "one") (row_a ∷ []))
        (find_name (bytes "one") (row_a ∷ (row_b ∷ [])))
get_repo-add_repo_example =
    get_repo-add_repo (config (bytes "b") (bytes "two")) 2 (row_a ∷ []) (row_a ∷ (row_b ∷ []))
      (bytes "one") adds_b

-- The state of a preparation is not stored for a configuration that another one has replaced.
replaced :
    update_prepare_state_for_config
      (record (config (bytes "b") (bytes "two")) { branch = bytes "old" })
      (bytes "ready")
      []
      3
      (row_b ∷ [])
    ≡ refuses repo_changed
unfolding update_prepare_state_for_config gitfs.Prelude.any text_eq
replaced = refl
