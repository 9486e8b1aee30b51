-- ===== src/Daemon/Credentials.antt =====
-- What the registry keeps of a remote with credentials, through internal/daemon/daemon.go.
use gitfs.Prelude.{
  ℕ, Bool, true, false, ◌&&◌, some, List, [], ◌≡◌, refl, subst, ap, sym, ◌∙◌, arith, if◌then◌else◌,
}
use gitfs.Auth.{Libraries}
use gitfs.Auth.Redact.{redact_remote_url, has_inline_credentials}
use gitfs.Registry.{Config, RepoRow, yields, add_repo, find_name, new_row}
use gitfs.Registry.Stored.{stored-found}
use gitfs.Daemon.{stored, with_defaults, stored_config, store_config, add_repo_with_options}
use gitfs.Daemon.Settings.{Paths, fill_paths, with_fetch_ref}

module _ (lib : Libraries) (paths : Paths) where
  defaults-remote :
      (cfg : Config)
      → ((with_defaults lib paths cfg).remote_url ≡ cfg.remote_url)
        × ((with_defaults lib paths cfg).remote_url_redacted ≡ redact_remote_url lib cfg.remote_url)
        × ((with_defaults lib paths cfg).name ≡ cfg.name)
  unfolding with_defaults fill_paths with_fetch_ref
  defaults-remote cfg = (refl, refl, refl)

  answered-stored :
      (async : Bool) (cfg : Config) (now : ℕ) (rows rows' : List RepoRow)
      → store_config lib paths async cfg now rows ≡ stored rows'
      → add_repo (stored_config lib paths async cfg) now rows ≡ yields rows'
  unfolding store_config
  answered-stored async cfg now rows rows' h = ground arith

  -- What was stored is the configuration with its defaults, and no asynchronous one has credentials.
  kept-config :
      (async : Bool) (cfg : Config) (now : ℕ) (rows rows' : List RepoRow)
      → add_repo_with_options lib paths async cfg now rows ≡ stored rows'
      → (store_config lib paths async (with_defaults lib paths cfg) now rows ≡ stored rows')
        × ((async && has_inline_credentials lib (with_defaults lib paths cfg).remote_url) ≡ false)
  unfolding add_repo_with_options
  kept-config true cfg now rows rows' h = ground arith
  kept-config false cfg now rows rows' h = ground arith

  -- The remote of a row.
  stored-remote :
      (async : Bool) (cfg : Config)
      → (async && has_inline_credentials lib cfg.remote_url) ≡ false
      → ((stored_config lib paths async cfg).remote_url
          ≡ (if has_inline_credentials lib cfg.remote_url then [] else cfg.remote_url))
        × ((stored_config lib paths async cfg).remote_url_redacted ≡ cfg.remote_url_redacted)
        × ((stored_config lib paths async cfg).name ≡ cfg.name)
  stored-remote true cfg h = ground arith
  stored-remote false cfg h = ground arith

  -- A repository that AddRepoWithOptions accepts is found in the registry under its name with no
  -- inline credentials in its remote: the remote is kept where none are found in it, and is empty
  -- else, which happens to no asynchronous repository. Next to it stands the redacted remote.
  pub add_repo_with_options-remote :
      (async : Bool) (cfg : Config) (now : ℕ) (rows rows' : List RepoRow)
      → add_repo_with_options lib paths async cfg now rows ≡ stored rows'
      → (r : RepoRow) × (find_name cfg.name rows' ≡ some r)
        × (r.columns.remote_url
            ≡ (if has_inline_credentials lib cfg.remote_url then [] else cfg.remote_url))
        × (r.columns.remote_url_redacted ≡ redact_remote_url lib cfg.remote_url)
        × ((async && has_inline_credentials lib cfg.remote_url) ≡ false)
  add_repo_with_options-remote async cfg now rows rows' h =
      let full = with_defaults lib paths cfg in
      let (kept, none_async) = kept-config async cfg now rows rows' h in
      let (url, shown, name) = stored-remote async full none_async in
      let (same_url, same_shown, same_name) = defaults-remote cfg in
      let c = stored_config lib paths async full in
      let (created, found) =
        stored-found c now rows rows' (answered-stored async full now rows rows' kept) in
      (
        new_row c created now,
        subst (λ n. find_name n rows' ≡ some (new_row c created now)) (name ∙ same_name) found,
        url ∙ ap (λ u. if has_inline_credentials lib u then [] else u) same_url,
        shown ∙ same_shown,
        ap (λ u. async && has_inline_credentials lib u) (sym same_url) ∙ none_async,
      )
