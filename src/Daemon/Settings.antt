-- ===== src/Daemon/Settings.antt =====
-- The functions on configurations of internal/daemon/daemon.go.
use gitfs.Prelude.{
  Text, bytes, text_eq, Bool, not, ◌&&◌, ◌||◌, Option, none, some, [], ◌++◌, ◌==◌, if◌then◌else◌,
}
use gitfs.Strings.{trim_space}
use gitfs.Path.{join}
use gitfs.Path.Names.{has_prefix, cut_prefix}
use gitfs.Registry.{Config, bool_to_int}

-- The values of `PrepareState`, and those of a runtime's state.
abbrev pub preparing : Text
preparing = bytes "preparing"

abbrev pub ready : Text
ready = bytes "ready"

abbrev pub prepare_failed : Text
prepare_failed = bytes "failed"

abbrev pub mounted : Text
mounted = bytes "mounted"

abbrev pub is_blank : Text → Bool
is_blank t = text_eq (trim_space t) []

-- `s.root` and `s.mountRoot`
pub record Paths : Type 0 where
  pub root : Text
  pub mount_root : Text

abbrev or_text : Text → Text → Text
or_text t default = if text_eq t [] then default else t

-- filepath.Join of several names
abbrev join3 : Text → Text → Text → Text
join3 a b c = join (join a b) c

unfoldable pub fill_paths : Paths → Config → Config
fill_paths p cfg =
    let root = or_text cfg.mount_root (or_text p.mount_root (join p.root (bytes "mnt"))) in
    let overlay = or_text cfg.overlay_dir (join3 p.root (bytes "overlays") cfg.id) in
    record cfg {
      mount_root = root;
      mount_path = or_text cfg.mount_path (join root cfg.name);
      git_dir = or_text cfg.git_dir (join (join3 p.root (bytes "repos") cfg.id) (bytes "git"));
      overlay_dir = overlay;
      blob_cache_dir =
          or_text cfg.blob_cache_dir (join (join3 p.root (bytes "cache") (bytes "blobs")) cfg.id);
      meta_db_path =
          or_text cfg.meta_db_path (join3 p.root (bytes "meta") (cfg.id ++ bytes ".sqlite"));
      overlay_db_path = or_text cfg.overlay_db_path (join overlay (bytes "meta.sqlite"));
    }

-- A blank fetch ref stands for the branch.
unfoldable pub with_fetch_ref : Config → Config
with_fetch_ref cfg = record cfg {
  fetch_ref = if is_blank cfg.fetch_ref then cfg.branch else cfg.fetch_ref;
}

unfoldable pub same_prepare_config : Config → Config → Bool
same_prepare_config a b =
    text_eq a.branch b.branch
    && (text_eq a.remote_url b.remote_url
        && (bool_to_int a.prepared_git_dir == bool_to_int b.prepared_git_dir
            && (text_eq a.fetch_ref b.fetch_ref
                && (text_eq a.git_dir b.git_dir
                    && (text_eq a.meta_db_path b.meta_db_path
                        && (text_eq a.overlay_dir b.overlay_dir
                            && (text_eq a.overlay_db_path b.overlay_db_path
                                && (text_eq a.blob_cache_dir b.blob_cache_dir
                                    && text_eq a.mount_path b.mount_path))))))))

abbrev or_cut : Text → Text → Option Text → Option Text
or_cut ref prefix (some after) = some after
or_cut ref prefix none = cut_prefix ref prefix

unfoldable pub branch_ref_name : Text → Text
branch_ref_name name =
    let ref = trim_space name in
    elim (or_cut ref (bytes "origin/")
      (or_cut ref (bytes "refs/remotes/origin/") (cut_prefix ref (bytes "refs/heads/")))) [
        | some after ↦ after
        | none ↦ if has_prefix ref (bytes "refs/") then [] else ref
      ]

unfoldable pub same_branch_ref : Text → Text → Bool
unfolding branch_ref_name
same_branch_ref fetch_ref branch = text_eq (branch_ref_name fetch_ref) (branch_ref_name branch)

unfoldable pub is_async_repo : Config → Bool
is_async_repo cfg = cfg.prepared_git_dir || not (is_blank cfg.prepare_state)

unfoldable pub is_pending_or_failed_prepare_state : Text → Bool
is_pending_or_failed_prepare_state state =
    text_eq (trim_space state) preparing || text_eq (trim_space state) prepare_failed

unfoldable pub should_mount_async : Config → Bool
unfolding is_pending_or_failed_prepare_state
should_mount_async cfg = is_pending_or_failed_prepare_state cfg.prepare_state

unfoldable pub runtime_state_for_prepare_state : Text → Text
runtime_state_for_prepare_state state = if text_eq state ready then mounted else state
