-- ===== src/Tests/Hydrator.antt =====
-- Runs of the queue of internal/hydrator/hydrator.go.
use gitfs.Prelude.{
  ℕ, ◌+◌, ◌≤◌, Text, ◌≡◌, refl, true, false, bytes, some, [], ◌∷◌, ◌||◌, List, map, length,
}
use gitfs.Model.{file, known}
use gitfs.Hydrator.{
  Task, Service, new_service, enqueue_locked, register, start_step, is_waited, find_task,
}
use gitfs.Hydrator.Prefetch.{prefetch_dir, max_prefetch_tasks_per_dir, classify_priority}
use gitfs.Hydrator.Prefetch.Bounds.{StaysRead, prefetch_dir_bounded}
use gitfs.Resolver.Dirents.{ReaddirEntry, base_entry}
use gitfs.Hydrator.Queue.{has_key}
use gitfs.Hydrator.Waiters.{
  Reach, start, later, enqueues, registers, no_stranded_reader, single_fetch,
}
use gitfs.Tests.Worlds.{node}

-- A directory was listed, and its file is to be fetched ahead of a read.
abbrev ahead : Task
ahead = record {
  path = bytes "a";
  object_oid = bytes "f0";
  size_state = known;
  size_bytes = 3;
  priority = 400;
  enqueued_at = 1;
}

abbrev prefetching : Service
prefetching = (enqueue_locked ahead new_service).1

-- Then a reader comes for the same blob.
abbrev read_waits : Service
read_waits = register (node (bytes "a") file (bytes "f0")) 2 7 prefetching

read_waits_reached : Reach read_waits
read_waits_reached =
    later (later start (enqueues ahead)) (registers (node (bytes "a") file (bytes "f0")) 2 7)

reader_waits : is_waited (read_waits.wait (bytes "f0")) ≡ true
unfolding register gitfs.Prelude.text_eq
reader_waits = refl

no_stranded_reader_example :
    (has_key (bytes "f0") read_waits.pq || read_waits.active (bytes "f0")) ≡ true
no_stranded_reader_example = no_stranded_reader read_waits_reached (bytes "f0") reader_waits

-- The task in the queue is the reader's now, with its priority.
abbrev raised : Task
raised = record ahead { priority = 1000; enqueued_at = 2 }

one_task : read_waits.pq ≡ raised ∷ []
unfolding register gitfs.Prelude.text_eq
one_task = refl

single_fetch_example :
    ((start_step raised [] read_waits).0 ≡ true) × (has_key (bytes "f0") [] ≡ false)
single_fetch_example = single_fetch read_waits_reached raised [] [] one_task

-- A prefetch of the directory of the blob, which would queue it below the reader's task.
abbrev listed_a : List ReaddirEntry
listed_a = base_entry (node (bytes "a") file (bytes "f0")) ∷ []

prefetch_dir_bounded_example :
    (length (prefetch_dir (bytes ".") listed_a 3 read_waits).1.pq
      ≤ length read_waits.pq + max_prefetch_tasks_per_dir)
    × StaysRead
        (find_task (bytes "f0") read_waits.pq)
        (find_task (bytes "f0") (prefetch_dir (bytes ".") listed_a 3 read_waits).1.pq)
prefetch_dir_bounded_example =
    prefetch_dir_bounded (bytes ".") listed_a 3 read_waits (bytes "f0") read_waits_reached

classified :
    map classify_priority
      (bytes "src/go.mod" ∷ (bytes "a/b.go" ∷ (bytes "x.png" ∷ (bytes "a.b/c" ∷ []))))
    ≡ 700 ∷ (500 ∷ (100 ∷ (400 ∷ [])))
unfolding classify_priority gitfs.Prelude.any gitfs.Prelude.text_eq gitfs.Path.Names.base
    gitfs.Path.Names.ext
classified = refl
