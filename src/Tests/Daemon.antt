-- ===== src/Tests/Daemon.antt =====
-- Runs of internal/daemon/daemon.go.
use gitfs.Prelude.{ℕ, Text, bytes, true, false, some, List, [], ◌∷◌, ◌≡◌, refl, ◌&&◌, if◌then◌else◌}
use gitfs.Auth.Redact.{redact_remote_url, has_inline_credentials}
use gitfs.Registry.{Config, RepoRow, new_row, find_name}
use gitfs.Daemon.{add_repo_with_options, stored, refused, inline_credentials}
use gitfs.Daemon.Settings.{Paths, same_branch_ref}
use gitfs.Daemon.Credentials.{add_repo_with_options-remote}
use gitfs.Tests.Auth.{none_parsed}
use gitfs.Tests.Registry.{config}

abbrev paths : Paths
paths = record { root = bytes "/r"; mount_root = [] }

abbrev secret : Config
secret = record (config (bytes "a") (bytes "one")) { remote_url = bytes "https://u:p@h/r" }

abbrev kept : List RepoRow
kept =
    new_row
      (record secret {
        remote_url = [];
        remote_url_redacted = bytes "https://REDACTED@h/r";
        fetch_ref = bytes "main";
      })
      3 3
    ∷ []

adds_secret : add_repo_with_options none_parsed paths false secret 3 [] ≡ stored kept
unfolding add_repo_with_options gitfs.Daemon.validate_repo_name gitfs.Prelude.text_eq
    gitfs.Strings.Search.index_func gitfs.Strings.contains_byte gitfs.Strings.Search.index
    gitfs.Path.Names.has_prefix gitfs.Daemon.with_defaults gitfs.Daemon.store_config
    gitfs.Registry.add_repo gitfs.Prelude.any has_inline_credentials
    gitfs.Auth.Remotes.malformed_authority_start gitfs.Strings.to_lower gitfs.Strings.trim_space
    redact_remote_url gitfs.Auth.Redact.redact_query_fragment gitfs.Strings.index_byte
    gitfs.Auth.Redact.redact_malformed_url gitfs.Auth.Redact.redact_userinfo
    gitfs.Daemon.Settings.fill_paths gitfs.Daemon.Settings.with_fetch_ref gitfs.Registry.name_taken
    gitfs.Registry.put_row gitfs.Strings.Search.last_index_func gitfs.Strings.trim_left
adds_secret = refl

add_repo_with_options-remote_example :
    (r : RepoRow) × (find_name (bytes "one") kept ≡ some r)
    × (r.columns.remote_url
        ≡ (if has_inline_credentials none_parsed secret.remote_url then [] else secret.remote_url))
    × (r.columns.remote_url_redacted ≡ redact_remote_url none_parsed secret.remote_url)
    × ((false && has_inline_credentials none_parsed secret.remote_url) ≡ false)
add_repo_with_options-remote_example =
    add_repo_with_options-remote none_parsed paths false secret 3 [] kept adds_secret

async_refused :
    add_repo_with_options none_parsed paths true secret 3 [] ≡ refused inline_credentials
unfolding add_repo_with_options gitfs.Daemon.validate_repo_name gitfs.Prelude.text_eq
    gitfs.Strings.Search.index_func gitfs.Strings.contains_byte gitfs.Strings.Search.index
    gitfs.Path.Names.has_prefix gitfs.Daemon.with_defaults gitfs.Strings.trim_space
    has_inline_credentials gitfs.Auth.Remotes.malformed_authority_start gitfs.Strings.to_lower
async_refused = refl

branches : same_branch_ref (bytes "refs/heads/main") (bytes " origin/main") ≡ true
unfolding same_branch_ref gitfs.Prelude.text_eq gitfs.Path.Names.cut_prefix gitfs.Strings.trim_space
branches = refl
