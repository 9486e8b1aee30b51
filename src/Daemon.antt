-- ===== src/Daemon.antt =====
-- internal/daemon/daemon.go: how a repository is registered, and how the state of its preparation is
-- kept in the registry, in its runtime and at its gate. Mounting, git and the goroutines are left out.
pub mod Settings
pub mod Credentials
use gitfs.Prelude.{
  ℕ, suc, ◌*◌, Text, bytes, text_eq, Bool, true, false, not, ◌&&◌, ◌||◌, Option, none, some, List,
  [], ◌∷◌, is_some, ◌==◌, if◌then◌else◌,
}
use gitfs.Errors.{Error, repo_not_ready, fault}
use gitfs.Strings.{trim_space}
use gitfs.Strings.Search.{contains, contains_any}
use gitfs.Gate.{ReadyGate, reset, mark_ready, mark_failed}
use gitfs.Auth.{Libraries}
use gitfs.Auth.Redact.{redact_remote_url, has_inline_credentials}
use gitfs.Registry.{
  Config, RepoRow, Answer, yields, refuses, RegistryError, second, add_repo, get_repo,
  update_prepare_state_for_config,
}
use Settings.{
  Paths, fill_paths, with_fetch_ref, same_prepare_config, runtime_state_for_prepare_state,
  preparing, ready, prepare_failed, mounted, is_blank, is_async_repo,
}

pub data AddError : Type 0 where
  invalid_name prepared_needs_async remote_required git_dir_required inline_credentials : AddError
  from_registry : RegistryError → AddError

-- The registry after the call.
pub data Added : Type 0 where
  refused : AddError → Added
  stored : List RepoRow → Added

-- `model.ValidateRepoName`
unfoldable pub validate_repo_name : Text → Bool
validate_repo_name name =
    not (text_eq name [] || (contains_any name (bytes "/\\") || contains name (bytes "..")))

module _ (lib : Libraries) (paths : Paths) where
  unfoldable pub with_defaults : Config → Config
  unfolding fill_paths with_fetch_ref
  with_defaults cfg = with_fetch_ref (
      fill_paths paths (record cfg {
        id = if text_eq cfg.id [] then cfg.name else cfg.id;
        remote_url_redacted = redact_remote_url lib cfg.remote_url;
        refresh_interval = if cfg.refresh_interval == 0 then 30 * second else cfg.refresh_interval;
      }))

  -- What stands against an asynchronous repository.
  abbrev pub async_error : Bool → Config → Option AddError
  async_error explicit_git_dir cfg =
      if is_blank cfg.remote_url && not cfg.prepared_git_dir
      then some remote_required
      else if cfg.prepared_git_dir && not explicit_git_dir
      then some git_dir_required
      else if has_inline_credentials lib cfg.remote_url
      then some inline_credentials
      else none

  abbrev pub stored_config : Bool → Config → Config
  stored_config true cfg = record cfg { prepare_state = preparing; prepare_error = [] }
  stored_config false cfg =
      if has_inline_credentials lib cfg.remote_url then record cfg { remote_url = [] } else cfg

  abbrev pub answered : Answer (List RepoRow) → Added
  answered (refuses e) = refused (from_registry e)
  answered (yields rows) = stored rows

  unfoldable pub store_config : Bool → Config → ℕ → List RepoRow → Added
  store_config async cfg now rows = answered (add_repo (stored_config async cfg) now rows)

  abbrev pub or_store : Option AddError → Config → ℕ → List RepoRow → Added
  or_store none cfg now rows = store_config true cfg now rows
  or_store (some e) cfg now rows = refused e

  -- `AddRepoWithOptions` up to the preparation of a repository that is not asynchronous.
  unfoldable pub add_repo_with_options : Bool → Config → ℕ → List RepoRow → Added
  add_repo_with_options async cfg now rows =
      let full = with_defaults cfg in
      if not (validate_repo_name cfg.name)
      then refused invalid_name
      else if full.prepared_git_dir && not async
      then refused prepared_needs_async
      else if async
      then or_store (async_error (not (is_blank cfg.git_dir)) full) full now rows
      else store_config false full now rows

-- `repoRuntime`: its configuration, the texts of its state, and its gate.
pub record Runtime : Type 0 where
  pub cfg : Config
  pub state : Text
  pub prepare_error : Text
  pub gate : Option ReadyGate

-- The registry with the maps of the service.
pub record Service : Type 0 where
  pub rows : List RepoRow
  pub running : Text → Option Runtime
  pub preparing_token : Text → Option ℕ
  pub prepare_seq : ℕ

unfoldable pub set_running : Text → Runtime → Service → Service
set_running id rt s = record s { running = λ k. if text_eq id k then some rt else s.running k }

abbrev reset_runtime : Config → Runtime → ReadyGate → Runtime
reset_runtime cfg rt g = record rt {
  cfg = cfg;
  state = preparing;
  prepare_error = [];
  gate = some (reset g);
}

abbrev reset_found : Config → Option Runtime → Service → Bool × Service
reset_found cfg none s = (false, s)
reset_found cfg (some rt) s = elim rt.gate [
  | none ↦ (false, s)
  | some g ↦ (true, set_running cfg.id (reset_runtime cfg rt g) s)
]

unfoldable pub reset_running_prepare_state : Config → Service → Bool × Service
reset_running_prepare_state cfg s = reset_found cfg (s.running cfg.id) s

-- The critical section of `startPrepareWorker`: the token of a new worker, if one starts.
unfoldable pub start_prepare_worker : Text → Service → Option ℕ × Service
start_prepare_worker id s = elim (s.preparing_token id) [
  | some token ↦ (none, s)
  | none ↦ (
    some (suc s.prepare_seq),
    record s {
      prepare_seq = suc s.prepare_seq;
      preparing_token = λ k. if text_eq id k then some (suc s.prepare_seq) else s.preparing_token k;
    },
  )
]

-- The end of a worker: its token goes, unless another worker has taken its place.
abbrev is_token : ℕ → Option ℕ → Bool
is_token token none = false
is_token token (some t) = t == token

unfoldable pub supersede_prepare : Text → Service → Service
supersede_prepare id s = record s {
  preparing_token = λ k. if text_eq id k then none else s.preparing_token k;
}

unfoldable pub end_prepare_worker : Text → ℕ → Service → Service
unfolding supersede_prepare
end_prepare_worker id token s =
    if is_token token (s.preparing_token id) then supersede_prepare id s else s

abbrev is_current : Paths → Config → Answer Config → Bool
is_current paths cfg (refuses e) = false
is_current paths cfg (yields latest) =
    same_prepare_config cfg (with_fetch_ref (fill_paths paths latest))

unfoldable pub prepare_config_still_current : Paths → Config → Service → Bool
prepare_config_still_current paths cfg s = is_current paths cfg (get_repo cfg.name s.rows)

-- The text of an error that the gate reports is not kept.
unfoldable pub prepare_gate_error : Text → Error
prepare_gate_error msg = if is_blank msg then repo_not_ready else fault 0

-- The gate after a change of the state; none where a closed channel would be closed.
unfoldable pub gate_after : Text → Text → Bool → ReadyGate → Option ReadyGate
unfolding prepare_gate_error
gate_after state msg ready_runtime g =
    if text_eq state prepare_failed
    then mark_failed (some (prepare_gate_error msg)) g
    else if text_eq state ready
    then (if ready_runtime then mark_ready g else some g)
    else some (reset g)

-- What a change of the state does to a runtime.
abbrev pub runtime_after : Text → Text → Bool → Runtime → Runtime
runtime_after state msg ready_runtime rt = record rt {
  cfg = record rt.cfg { prepare_state = state; prepare_error = msg };
  prepare_error = msg;
  state =
      if not (text_eq state ready) || ready_runtime
      then runtime_state_for_prepare_state state
      else rt.state;
}

-- `panicked` is the close of a closed channel.
pub data Applied : Type 0 where
  not_stored : RegistryError → Applied
  panicked : Applied
  applied : Service → Applied

abbrev with_gate : Text → Runtime → Service → Option ReadyGate → Applied
with_gate id rt s none = panicked
with_gate id rt s (some g) = applied (set_running id (record rt { gate = some g }) s)

abbrev apply_to_gate : Text → Text → Text → Bool → Runtime → Service → Option ReadyGate → Applied
apply_to_gate id state msg ready_runtime rt s none = applied (set_running id rt s)
apply_to_gate id state msg ready_runtime rt s (some g) =
    with_gate id rt s (gate_after state msg ready_runtime g)

abbrev apply_to_runtime : Config → Text → Text → Bool → Service → Option Runtime → Applied
apply_to_runtime cfg state msg ready_runtime s none = applied s
apply_to_runtime cfg state msg ready_runtime s (some rt) =
    if not (same_prepare_config rt.cfg cfg)
    then applied s
    else apply_to_gate cfg.id state msg ready_runtime (runtime_after state msg ready_runtime rt) s
        rt.gate

abbrev apply_stored : Config → Text → Text → Bool → Service → Answer (List RepoRow) → Applied
apply_stored cfg state msg ready_runtime s (refuses e) = not_stored e
apply_stored cfg state msg ready_runtime s (yields rows) =
    apply_to_runtime cfg state msg ready_runtime (record s { rows = rows }) (s.running cfg.id)

-- `applyPrepareState`, with the redacted text of the error, or the empty one.
unfoldable pub apply_prepare_state : Config → Text → Text → Bool → ℕ → Service → Applied
apply_prepare_state cfg state msg ready_runtime now s =
    apply_stored cfg state msg ready_runtime s
      (update_prepare_state_for_config cfg state msg now s.rows)

abbrev pub set_prepare_state : Config → Text → Text → ℕ → Service → Applied
set_prepare_state cfg state msg now s = apply_prepare_state cfg state msg true now s

abbrev pub set_prepare_state_before_ready_gate : Config → ℕ → Service → Applied
set_prepare_state_before_ready_gate cfg now s = apply_prepare_state cfg ready [] false now s
