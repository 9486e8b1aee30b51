-- ===== src/Hydrator/Prefetch/Bounds.antt =====
-- What a prefetch of PrefetchDir does to the queue of internal/hydrator/hydrator.go.
use gitfs.Prelude.{
  ℕ, zero, suc, ◌+◌, ◌≤◌, ◌<◌, Text, text_eq, text_eq_iff, true, false, Option, none, some, List,
  [], ◌∷◌, length, ◌≢◌, ◌⊎◌, ◌==◌, take, All, ◌≡◌, refl, ap, arith, Bool-cases, inl, inr,
}
use gitfs.Resolver.Dirents.{ReaddirEntry}
use gitfs.Hydrator.{Task, Service, enqueue_locked, find_task, replace_task, explicit_read}
use gitfs.Hydrator.Queue.{has_key}
use gitfs.Hydrator.Waiters.{Reach, later, enqueues, IsSound, Reach-IsSound}
use gitfs.Hydrator.Prefetch.{
  classify_priority, enqueue_batch, prefetch_task, prefetch_tasks, insert_task, sort_tasks,
  max_prefetch_tasks_per_dir, prefetch_choice, prefetch_dir,
}

IsLow : Task → Type 0
IsLow t = t.priority < explicit_read

length-replace_task : (t : Task) (ts : List Task) → length (replace_task t ts) ≡ length ts
unfolding replace_task
length-replace_task t [] = refl
length-replace_task t (u ∷ us) = ground (arith, length-replace_task t us)

length-enqueue_locked :
    (t : Task) (s : Service) → length (enqueue_locked t s).1.pq ≤ length s.pq + 1
unfolding enqueue_locked
length-enqueue_locked t s = ground (arith, length-replace_task t s.pq)

length-enqueue_batch :
    (ts : List Task) (s : Service) → length (enqueue_batch ts s).1.pq ≤ length s.pq + length ts
unfolding enqueue_batch
length-enqueue_batch [] s = omega arith
length-enqueue_batch (t ∷ ts) s =
    omega (arith, length-enqueue_locked t s, length-enqueue_batch ts (enqueue_locked t s).1)

length-take : (n : ℕ) (ts : List Task) → length (take n ts) ≤ n
length-take zero ts = omega arith
length-take (suc n) [] = omega arith
length-take (suc n) (t ∷ ts) = omega (arith, length-take n ts)

length-prefetch_choice : (ts : List Task) → length (prefetch_choice ts) ≤ max_prefetch_tasks_per_dir
unfolding prefetch_choice
length-prefetch_choice ts = ground (arith, length-take max_prefetch_tasks_per_dir (sort_tasks ts))

-- Only tasks below a read come out of a directory.
classify_priority-lt : (path : Text) → classify_priority path < explicit_read
unfolding classify_priority
classify_priority-lt path = ground arith

prefetch_tasks-IsLow :
    (dir : Text) (now : ℕ) (es : List ReaddirEntry) → All IsLow (prefetch_tasks dir now es)
unfolding prefetch_tasks IsLow prefetch_task
prefetch_tasks-IsLow dir now [] = tt
prefetch_tasks-IsLow dir now (e ∷ es) =
    ground
      (arith, prefetch_tasks-IsLow dir now es, classify_priority-lt (prefetch_task dir now e).path)

insert_task-IsLow :
    (t : Task) (ts : List Task) → IsLow t → All IsLow ts → All IsLow (insert_task t ts)
unfolding insert_task
insert_task-IsLow t [] h a = (h, tt)
insert_task-IsLow t (u ∷ us) h a = ground (arith, insert_task-IsLow t us h a.1)

sort_tasks-IsLow : (ts : List Task) → All IsLow ts → All IsLow (sort_tasks ts)
unfolding sort_tasks
sort_tasks-IsLow [] a = tt
sort_tasks-IsLow (t ∷ ts) a = insert_task-IsLow t (sort_tasks ts) a.0 (sort_tasks-IsLow ts a.1)

take-IsLow : (n : ℕ) (ts : List Task) → All IsLow ts → All IsLow (take n ts)
take-IsLow zero ts a = tt
take-IsLow (suc n) [] a = tt
take-IsLow (suc n) (t ∷ ts) a = (a.0, take-IsLow n ts a.1)

prefetch_choice-IsLow : (ts : List Task) → All IsLow ts → All IsLow (prefetch_choice ts)
unfolding prefetch_choice
prefetch_choice-IsLow ts a =
    ground (arith, take-IsLow max_prefetch_tasks_per_dir (sort_tasks ts) (sort_tasks-IsLow ts a))

-- A queued read keeps its place in the map when a task below it is queued.
find_task-replace_task :
    (t : Task) (k : Text) (ts : List Task)
    → text_eq t.object_oid k ≡ false
    → find_task k (replace_task t ts) ≡ find_task k ts
unfolding find_task replace_task
find_task-replace_task t k [] h = refl
find_task-replace_task t k (v ∷ vs) h =
    ground (arith, text_eq_iff v.object_oid t.object_oid, find_task-replace_task t k vs h)

find_task-has_key :
    (k : Text) (u : Task) (ts : List Task) → find_task k ts ≡ some u → has_key k ts ≡ true
unfolding find_task has_key
find_task-has_key k u [] h = cc
find_task-has_key k u (t ∷ ts) h = ground (arith, find_task-has_key k u ts)

find_task-enqueue_locked :
    (t u : Task) (k : Text) (s : Service)
    → IsSound s
    → IsLow t
    → u.priority ≡ explicit_read
    → find_task k s.pq ≡ some u
    → find_task k (enqueue_locked t s).1.pq ≡ some u
unfolding enqueue_locked IsLow
find_task-enqueue_locked t u k s v low high h = elim (Bool-cases (text_eq t.object_oid k)) [
  | inl e ↦
      let same : t.object_oid ≡ k = (text_eq_iff t.object_oid k).0 e in
      ground (
        arith,
        ap (λ o. find_task o s.pq) same,
        v.listed t.object_oid,
        find_task-has_key t.object_oid u s.pq,
      )
  | inr e ↦ ground (arith, find_task-replace_task t k s.pq)
]

-- The same for a whole batch.
find_task-enqueue_batch :
    (ts : List Task) (u : Task) (k : Text) (s : Service)
    → Reach s
    → All IsLow ts
    → u.priority ≡ explicit_read
    → find_task k s.pq ≡ some u
    → find_task k (enqueue_batch ts s).1.pq ≡ some u
unfolding enqueue_batch
find_task-enqueue_batch [] u k s r a high h = h
find_task-enqueue_batch (t ∷ ts) u k s r a high h =
    find_task-enqueue_batch ts u k (enqueue_locked t s).1 (later r (enqueues t)) a.1 high
      (find_task-enqueue_locked t u k s (Reach-IsSound r) a.0 high h)

-- The task of an explicit read stays as it was.
abbrev pub StaysRead : Option Task → Option Task → Type 0
StaysRead none v = Unit
StaysRead (some u) v = (u.priority ≢ explicit_read) ⊎ (v ≡ some u)

StaysRead-intro :
    (o v : Option Task)
    → ((u : Task) → u.priority ≡ explicit_read → o ≡ some u → v ≡ some u)
    → StaysRead o v
StaysRead-intro none v h = tt
StaysRead-intro (some u) v h = elim (Bool-cases (u.priority == explicit_read)) [
  | inl e ↦ inr (h u (ground arith) refl)
  | inr e ↦ inl (ground arith)
]

-- In every reachable state, the prefetch of a directory adds at most maxPrefetchTasksPerDir tasks to
-- the queue, however many entries the directory has, and leaves the task that is queued for any object
-- as it was if it is that of an explicit read.
pub prefetch_dir_bounded :
    (dir : Text) (entries : List ReaddirEntry) (now : ℕ) (s : Service) (k : Text)
    → Reach s
    → (length (prefetch_dir dir entries now s).1.pq ≤ length s.pq + max_prefetch_tasks_per_dir)
      × StaysRead (find_task k s.pq) (find_task k (prefetch_dir dir entries now s).1.pq)
unfolding prefetch_dir
prefetch_dir_bounded dir entries now s k r =
    let ts = prefetch_tasks dir now entries in
    (
      omega (arith, length-enqueue_batch (prefetch_choice ts) s, length-prefetch_choice ts),
      StaysRead-intro (find_task k s.pq) _ (λ u high h.
          find_task-enqueue_batch (prefetch_choice ts) u k s r
            (prefetch_choice-IsLow ts (prefetch_tasks-IsLow dir now entries)) high h),
    )
