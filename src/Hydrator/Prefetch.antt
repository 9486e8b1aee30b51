-- ===== src/Hydrator/Prefetch.antt =====
-- Blobs that are fetched ahead of reads: ClassifyPriority and EnqueueBatch of
-- internal/hydrator/hydrator.go, and PrefetchDir of internal/fusefs/ops.go.
pub mod Bounds
use gitfs.Prelude.{
  ℕ, ◌+◌, Text, bytes, text_eq, text_le, Bool, true, false, not, ◌&&◌, ◌||◌, List, [], ◌∷◌, any,
  length, take, ltb, ◌==◌, if◌then◌else◌,
}
use gitfs.Model.{file, type_eq}
use gitfs.Path.{clean_path, join}
use gitfs.Path.Names.{base, ext}
use gitfs.Resolver.Dirents.{ReaddirEntry}
use gitfs.Hydrator.{Task, Service, enqueue_locked}

abbrev pub priority_bootstrap : ℕ
priority_bootstrap = 700

abbrev pub priority_likely_text : ℕ
priority_likely_text = 500

abbrev pub priority_nearby_code : ℕ
priority_nearby_code = 400

abbrev pub priority_binary : ℕ
priority_binary = 100

abbrev one_of : List Text → Text → Bool
one_of names t = any (text_eq t) names

abbrev bootstrap_names : List Text
bootstrap_names =
    bytes "README"
    ∷ bytes "README.md"
    ∷ bytes "LICENSE"
    ∷ bytes "Makefile"
    ∷ bytes ".gitignore"
    ∷ bytes "go.mod"
    ∷ bytes "go.sum"
    ∷ bytes "Cargo.toml"
    ∷ bytes "package.json"
    ∷ bytes "pnpm-lock.yaml"
    ∷ bytes "pyproject.toml"
    ∷ []

abbrev code_extensions : List Text
code_extensions =
    bytes ".go"
    ∷ bytes ".rs"
    ∷ bytes ".zig"
    ∷ bytes ".py"
    ∷ bytes ".ts"
    ∷ bytes ".tsx"
    ∷ bytes ".js"
    ∷ bytes ".jsx"
    ∷ bytes ".java"
    ∷ bytes ".c"
    ∷ bytes ".cc"
    ∷ bytes ".cpp"
    ∷ bytes ".h"
    ∷ bytes ".hpp"
    ∷ bytes ".json"
    ∷ bytes ".yaml"
    ∷ bytes ".yml"
    ∷ bytes ".toml"
    ∷ bytes ".md"
    ∷ []

abbrev binary_extensions : List Text
binary_extensions =
    bytes ".png"
    ∷ bytes ".jpg"
    ∷ bytes ".jpeg"
    ∷ bytes ".gif"
    ∷ bytes ".zip"
    ∷ bytes ".pdf"
    ∷ bytes ".tar"
    ∷ bytes ".gz"
    ∷ bytes ".mp4"
    ∷ bytes ".mov"
    ∷ bytes ".avi"
    ∷ []

unfoldable pub is_code_extension : Text → Bool
is_code_extension e = one_of code_extensions e

unfoldable pub classify_priority : Text → ℕ
unfolding is_code_extension
classify_priority path =
    if one_of bootstrap_names (base path)
    then priority_bootstrap
    else if is_code_extension (ext path)
    then priority_likely_text
    else if one_of binary_extensions (ext path)
    then priority_binary
    else priority_nearby_code

-- The loop of `EnqueueBatch`: how many tasks were queued or raised, and the state.
unfoldable pub enqueue_batch : List Task → Service → ℕ × Service
enqueue_batch [] s = (0, s)
enqueue_batch (t ∷ ts) s =
    let (queued, s') = enqueue_locked t s in
    let (n, s'') = enqueue_batch ts s' in ((if queued then 1 else 0) + n, s'')

unfoldable pub prefetch_task : Text → ℕ → ReaddirEntry → Task
unfolding classify_priority
prefetch_task dir_path now e =
    let child = clean_path (join dir_path e.name) in
    record {
      path = child;
      object_oid = e.object_oid;
      size_state = e.size_state;
      size_bytes = e.size_bytes;
      priority = classify_priority child;
      enqueued_at = now;
    }

unfoldable pub prefetch_tasks : Text → ℕ → List ReaddirEntry → List Task
unfolding prefetch_task
prefetch_tasks dir_path now [] = []
prefetch_tasks dir_path now (e ∷ es) =
    let rest = prefetch_tasks dir_path now es in
    if type_eq e.node_type file && not (text_eq e.object_oid [])
    then prefetch_task dir_path now e ∷ rest
    else rest

-- The order of the sort.
unfoldable pub comes_first : Task → Task → Bool
comes_first t u =
    if t.priority == u.priority
    then text_le t.path u.path && not (text_eq t.path u.path)
    else ltb u.priority t.priority

unfoldable pub insert_task : Task → List Task → List Task
insert_task t [] = t ∷ []
insert_task t (u ∷ us) =
    let rest = insert_task t us in if comes_first u t then u ∷ rest else t ∷ u ∷ us

-- sort.SliceStable
unfoldable pub sort_tasks : List Task → List Task
unfolding insert_task
sort_tasks [] = []
sort_tasks (t ∷ ts) = insert_task t (sort_tasks ts)

abbrev pub max_prefetch_tasks_per_dir : ℕ
max_prefetch_tasks_per_dir = 256

unfoldable pub prefetch_choice : List Task → List Task
unfolding sort_tasks
prefetch_choice tasks =
    if ltb max_prefetch_tasks_per_dir (length tasks)
    then take max_prefetch_tasks_per_dir (sort_tasks tasks)
    else tasks

unfoldable pub prefetch_dir : Text → List ReaddirEntry → ℕ → Service → ℕ × Service
unfolding prefetch_tasks prefetch_choice enqueue_batch
prefetch_dir dir_path entries now s =
    enqueue_batch (prefetch_choice (prefetch_tasks dir_path now entries)) s
