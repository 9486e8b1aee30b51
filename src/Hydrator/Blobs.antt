-- ===== src/Hydrator/Blobs.antt =====
-- The cache of blobs in internal/hydrator/hydrator.go: how a cached file is checked, read and fetched,
-- by one goroutine at a time. The other readers of a verification get its result, and change nothing.
use gitfs.Prelude.{
  ℕ, ◌+◌, Text, Bool, true, false, not, ◌&&◌, Option, none, some, List, take, length, ltb, ◌==◌,
  if◌then◌else◌,
}
use gitfs.Errors.{Error, Result, ok, err, not_exist, canceled, deadline_exceeded, blob_too_large}
use gitfs.Model.{BaseNode, NodeType, RepoConfig, is_known}
use gitfs.Machine.{World, Exec}
use gitfs.Machine
use gitfs.Machine.Disk.{stat_size, os_remove, mkdir_all, existing, is_a_directory}
use gitfs.Path.{join}
use gitfs.Path.Names.{dir}
use gitfs.Hydrator.{Task, Service, mark, start_step, finish_hydration, finish_fetch}

-- `BlobFetcher`: the git store.
pub record BlobFetcher : Type 0 where
  pub blob_to_cache : Text → Text → Exec ℕ
  pub fetch_blob : Text → ℕ → Exec Text
  pub verify_blob : Text → Text → Exec Bool

-- The state of the service, and that of the disk.
abbrev pub Busy : Type 0 → Type 0
Busy A = Service × World → Result A × (Service × World)

abbrev pub continue :
    {A B : Type 0} → Result A × (Service × World) → (A → Busy B) → Result B × (Service × World)
continue (ok a, s) f = f a s
continue (err e, s) f = (err e, s)

infixl 5 ◌>>=◌ ◌>>◌
abbrev pub ◌>>=◌ : {A B : Type 0} → Busy A → (A → Busy B) → Busy B
◌>>=◌ c f s = continue (c s) f

abbrev pub ◌>>◌ : {B : Type 0} → Busy (Unit {0}) → Busy B → Busy B
c >> k = c >>= λ _. k

abbrev pub reply : {A : Type 0} → A → Busy A
reply a s = (ok a, s)

abbrev pub fail : {A : Type 0} → Error → Busy A
fail e s = (err e, s)

abbrev pub change : (Service → Service) → Busy (Unit {0})
change f (s, w) = (ok tt, (f s, w))

abbrev pub look : {A : Type 0} → (Service → A) → Busy A
look f (s, w) = (ok (f s), (s, w))

abbrev ran : {A : Type 0} → Service → Result A × World → Result A × (Service × World)
ran s (r, w) = (r, (s, w))

abbrev pub run : {A : Type 0} → Exec A → Busy A
run c (s, w) = ran s (c w)

-- The result of a call, also where it is an error.
abbrev outcome_of :
    {A : Type 0} → Result A × (Service × World) → Result (Result A) × (Service × World)
outcome_of (r, s) = (ok r, s)

abbrev pub outcome : {A : Type 0} → Busy A → Busy (Result A)
outcome c s = outcome_of (c s)

unfoldable pub cache_path_for : RepoConfig → Text → Text
cache_path_for repo oid = join repo.blob_cache_dir oid

unfoldable pub task_base_node : Task → BaseNode
task_base_node t = record {
  path = t.path;
  node_type = NodeType.unset;
  mode = 0;
  object_oid = t.object_oid;
  size_state = t.size_state;
  size_bytes = t.size_bytes;
}

-- All tasks are of the one repository.
unfoldable pub queue_depth : Service → ℕ
queue_depth s = length s.pq

abbrev unless_missing : Result (Unit {0}) → Busy (Unit {0})
unless_missing (ok u) = reply tt
unless_missing (err not_exist) = reply tt
unless_missing (err e) = fail e

unfoldable pub remove_invalid_cache_file : Text → Text → Busy (Unit {0})
remove_invalid_cache_file cache_path oid = do
  removed ← outcome (run (os_remove cache_path))
  unless_missing removed
  change (λ s. record s { verified = mark oid false s.verified })

abbrev is_context_error : Error → Bool
is_context_error canceled = true
is_context_error deadline_exceeded = true
is_context_error _ = false

abbrev wrong_size : BaseNode → ℕ → Bool
wrong_size n size = is_known n.size_state && not (size == n.size_bytes)

-- `readCachedBlob`; at most one byte over the limit is read.
unfoldable pub read_cached_blob : Text → ℕ → ℕ → Exec Text
read_cached_blob cache_path size max_bytes =
    if ltb max_bytes size
    then Machine.raise blob_too_large
    else Machine.◌>>◌ Machine.attempt (
        Machine.◌>>=◌ (existing cache_path) (λ n. Machine.◌>>◌ Machine.attempt (
          if n.is_dir
          then Machine.raise is_a_directory
          else if ltb max_bytes (length (take (max_bytes + 1) n.content))
          then Machine.raise blob_too_large
          else Machine.pure (take (max_bytes + 1) n.content))))

module _ (fetcher : BlobFetcher) (repo : RepoConfig) where
  -- `runVerification` of the fetcher's check, which a success is remembered of.
  abbrev remember : Text → Bool → Busy Bool
  remember oid false = reply false
  remember oid true = do change (λ s. record s { verified = mark oid true s.verified }); reply true

  unfoldable pub verify_blob_once : Text → Text → Busy Bool
  unfolding mark
  verify_blob_once oid cache_path = do
    known ← look (λ s. s.verified oid)
    if known
        then reply true
        else do good ← run (fetcher.verify_blob oid cache_path); remember oid good

  -- After the check of a file of `size` bytes.
  abbrev judged : Text → Text → ℕ → Result Bool → Busy (Option ℕ)
  judged oid cache_path size (ok true) = reply (some size)
  judged oid cache_path size (ok false) = do remove_invalid_cache_file cache_path oid; reply none
  judged oid cache_path size (err e) = if is_context_error e then fail e else reply none

  abbrev validate_found : Text → BaseNode → Result ℕ → Busy (Option ℕ)
  validate_found cache_path n (err not_exist) = reply none
  validate_found cache_path n (err e) = fail e
  validate_found cache_path n (ok size) =
      if wrong_size n size
      then (do remove_invalid_cache_file cache_path n.object_oid; reply none)
      else (do
        checked ← outcome (verify_blob_once n.object_oid cache_path)
        judged n.object_oid cache_path size checked)

  -- The size of a cached blob that is good, or none.
  unfoldable pub validate_cached_blob : Text → BaseNode → Busy (Option ℕ)
  unfolding verify_blob_once remove_invalid_cache_file
  validate_cached_blob cache_path n = do
    found ← outcome (run (stat_size cache_path))
    validate_found cache_path n found

  abbrev is_too_large : ℕ → Result ℕ → Busy Bool
  is_too_large max_bytes (ok size) = reply (ltb max_bytes size)
  is_too_large max_bytes (err not_exist) = reply false
  is_too_large max_bytes (err e) = fail e

  -- `ReadBlob`; a limit is never negative here.
  unfoldable pub read_blob : BaseNode → ℕ → Busy Text
  unfolding validate_cached_blob read_cached_blob cache_path_for
  read_blob n max_bytes =
      let cache_path = cache_path_for repo n.object_oid in
      if is_known n.size_state && ltb max_bytes n.size_bytes then fail blob_too_large else (do
        found ← outcome (run (stat_size cache_path))
        large ← is_too_large max_bytes found
        if large then run (fetcher.fetch_blob n.object_oid max_bytes) else do
          valid ← validate_cached_blob cache_path n
          elim valid [
            | some size ↦ run (read_cached_blob cache_path size max_bytes)
            | none ↦ run (fetcher.fetch_blob n.object_oid max_bytes)
          ])

  -- The end of a step with its result for the readers, in which the channels are not kept.
  abbrev finish_with : Text → Result (Text × ℕ) → Busy (Result (Text × ℕ))
  finish_with oid r = do change (λ s. (finish_hydration oid s).1); reply r

  abbrev fetched : Text → Text → Result ℕ → Busy (Result (Text × ℕ))
  fetched oid cache_path (err e) = finish_with oid (err e)
  fetched oid cache_path (ok size) = do
    change (λ s. (finish_fetch oid s).1)
    reply (ok (cache_path, size))

  abbrev fetch : Text → Text → Result (Unit {0}) → Busy (Result (Text × ℕ))
  fetch oid cache_path (err e) = finish_with oid (err e)
  fetch oid cache_path (ok u) = do
    r ← outcome (run (fetcher.blob_to_cache oid cache_path))
    fetched oid cache_path r

  abbrev checked : Text → Text → Result (Option ℕ) → Busy (Result (Text × ℕ))
  checked oid cache_path (err e) = finish_with oid (err e)
  checked oid cache_path (ok (some size)) = finish_with oid (ok (cache_path, size))
  checked oid cache_path (ok none) = do
    made ← outcome (run (mkdir_all (dir cache_path) 0o755))
    fetch oid cache_path made

  -- `step` for a task that the worker took: the result that its readers get.
  unfoldable pub run_task : Task → Busy (Result (Text × ℕ))
  unfolding validate_cached_blob cache_path_for task_base_node finish_hydration finish_fetch
  run_task t = do
    valid ← outcome (validate_cached_blob (cache_path_for repo t.object_oid) (task_base_node t))
    checked t.object_oid (cache_path_for repo t.object_oid) valid

  -- `step` on the item that `heap.Pop` gives and the items that it leaves; none where another worker
  -- has the key.
  unfoldable pub step : Task → List Task → Busy (Option (Result (Text × ℕ)))
  unfolding start_step run_task
  step t rest = do
    mine ← look (λ s. (start_step t rest s).0)
    change (λ s. (start_step t rest s).1)
    if mine then (do r ← run_task t; reply (some r)) else reply none
