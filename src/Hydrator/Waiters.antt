-- ===== src/Hydrator/Waiters.antt =====
-- Readers that wait for a blob in internal/hydrator/hydrator.go: the critical sections of all
-- goroutines as steps, in any order.
use gitfs.Prelude.{
  ℕ, Text, text_eq_iff, text_eq_refl, true, false, ◌||◌, some, List, [], ◌∷◌, ◌++◌, ◌≡◌, refl,
  arith, All,
}
use gitfs.Model.{BaseNode}
use gitfs.Hydrator.{
  Task, Service, new_service, less, is_waited, enqueue_locked, join_inflight, in_flight, register,
  abandon, start_step, finish_hydration, finish_fetch, stop, explicit_read_task, mark, taken, put,
  add, remove, drop_channel,
}
use gitfs.Hydrator.Queue.{
  has_key, IsUnique, has_key-replace_task, replace_task-IsUnique, has_key-without, without-IsUnique,
  has_key-middle,
}

-- One critical section. `starts` takes an item than which no other comes out before.
pub data Step (s : Service) : Service → Type 0 where
  enqueues : (t : Task) → Step s (enqueue_locked t s).1
  joins : {s' : Service} (key : Text) (ch : ℕ) → join_inflight key ch s ≡ some s' → Step s s'
  registers : (n : BaseNode) (now ch : ℕ) → Step s (register n now ch s)
  abandons : (key : Text) (ch : ℕ) → Step s (abandon key ch s)
  starts :
      (t : Task) (xs ys : List Task)
      → s.pq ≡ xs ++ (t ∷ ys)
      → All (λ u. less u t ≡ false) (xs ++ ys)
      → Step s (start_step t (xs ++ ys) s).1
  finishes : (key : Text) → Step s (finish_hydration key s).1
  fetches : (key : Text) → Step s (finish_fetch key s).1
  stops : Step s (stop s)

pub data Reach : Service → Type 0 where
  start : Reach new_service
  later : {s s' : Service} → Reach s → Step s s' → Reach s'

pub record IsSound (s : Service) : Type 0 where
  pub unique : IsUnique s.pq
  pub listed : (k : Text) → s.queued k ≡ has_key k s.pq
  pub apart : (k : Text) → s.active k ≡ true → s.queued k ≡ false
  pub covered : (k : Text) → is_waited (s.wait k) ≡ true → (s.queued k || s.active k) ≡ true

new_service-IsSound : IsSound new_service
unfolding has_key
new_service-IsSound = record {
  unique = tt;
  listed = λ k. refl;
  apart = λ k h. refl;
  covered = λ k h. ground arith;
}

-- With a channel that was just added for a key, before its task is queued.
with_waiter : Text → ℕ → Service → Service
with_waiter key ch s = record s { wait = add key ch s.wait }

enqueue_locked-IsSound : (t : Task) (s : Service) → IsSound s → IsSound (enqueue_locked t s).1
unfolding enqueue_locked mark has_key
enqueue_locked-IsSound t s v = record {
  unique = ground (arith, v.unique, v.listed t.object_oid, replace_task-IsUnique t s.pq v.unique);
  listed =
      λ k. ground (arith, v.listed k, has_key-replace_task t k s.pq, text_eq_iff t.object_oid k);
  apart = λ k h. ground (arith, v.apart k, text_eq_iff t.object_oid k);
  covered = λ k h. ground (arith, v.covered k, text_eq_iff t.object_oid k);
}

register-IsSound :
    (n : BaseNode) (now ch : ℕ) (s : Service) → IsSound s → IsSound (register n now ch s)
unfolding register in_flight add put enqueue_locked explicit_read_task mark has_key
register-IsSound n now ch s v =
    let t = explicit_read_task n now in
    record {
      unique =
          ground (arith, v.unique, v.listed n.object_oid, replace_task-IsUnique t s.pq v.unique);
      listed = λ k.
          ground (arith, v.listed k, has_key-replace_task t k s.pq, text_eq_iff n.object_oid k);
      apart = λ k h. ground (arith, v.apart k, text_eq_iff n.object_oid k);
      covered = λ k h. ground (
        arith,
        v.covered k,
        v.covered n.object_oid,
        text_eq_iff n.object_oid k,
        text_eq_refl n.object_oid,
      );
    }

join_inflight-IsSound :
    (key : Text) (ch : ℕ) (s s' : Service)
    → IsSound s
    → join_inflight key ch s ≡ some s'
    → IsSound s'
unfolding join_inflight in_flight add put
join_inflight-IsSound key ch s s' v e = record {
  unique = ground (arith, v.unique);
  listed = λ k. ground (arith, v.listed k);
  apart = λ k h. ground (arith, v.apart k);
  covered = λ k h. ground (arith, v.covered k, v.covered key, text_eq_iff key k);
}

waited-drop_channel :
    (ch : ℕ) (cs : List ℕ) → is_waited (drop_channel ch cs) ≡ true → is_waited cs ≡ true
unfolding drop_channel
waited-drop_channel ch [] h = h
waited-drop_channel ch (c ∷ cs) h = refl

abandon-IsSound : (key : Text) (ch : ℕ) (s : Service) → IsSound s → IsSound (abandon key ch s)
unfolding abandon remove put
abandon-IsSound key ch s v = record {
  unique = v.unique;
  listed = v.listed;
  apart = v.apart;
  covered =
      λ k h. ground (arith, v.covered k, text_eq_iff key k, waited-drop_channel ch (s.wait key));
}

start_step-IsSound :
    (t : Task) (xs ys : List Task) (s : Service)
    → IsSound s
    → s.pq ≡ xs ++ (t ∷ ys)
    → IsSound (start_step t (xs ++ ys) s).1
unfolding start_step mark
start_step-IsSound t xs ys s v e =
    let u : IsUnique (xs ++ (t ∷ ys)) = rw e at v.unique in
    record {
      unique = ground (arith, without-IsUnique xs ys t u);
      listed =
          λ k. ground (arith, v.listed k, has_key-without xs ys t k u, text_eq_iff t.object_oid k);
      apart = λ k h. ground (arith, v.apart k, text_eq_iff t.object_oid k);
      covered = λ k h. ground (arith, v.covered k, text_eq_iff t.object_oid k);
    }

finish_hydration-IsSound :
    (key : Text) (s : Service) → IsSound s → IsSound (finish_hydration key s).1
unfolding finish_hydration mark taken put
finish_hydration-IsSound key s v = record {
  unique = v.unique;
  listed = v.listed;
  apart = λ k h. ground (arith, v.apart k);
  covered = λ k h. ground (arith, v.covered k);
}

finish_fetch-IsSound : (key : Text) (s : Service) → IsSound s → IsSound (finish_fetch key s).1
unfolding finish_fetch mark taken put
finish_fetch-IsSound key s v = record {
  unique = v.unique;
  listed = v.listed;
  apart = λ k h. ground (arith, v.apart k);
  covered = λ k h. ground (arith, v.covered k);
}

stop-IsSound : (s : Service) → IsSound s → IsSound (stop s)
unfolding stop
stop-IsSound s v = record {
  unique = v.unique;
  listed = v.listed;
  apart = v.apart;
  covered = λ k h. cc;
}

Step-IsSound : {s s' : Service} → Step s s' → IsSound s → IsSound s'
Step-IsSound {s} (enqueues t) v = enqueue_locked-IsSound t s v
Step-IsSound {s} {s'} (joins key ch e) v = join_inflight-IsSound key ch s s' v e
Step-IsSound {s} (registers n now ch) v = register-IsSound n now ch s v
Step-IsSound {s} (abandons key ch) v = abandon-IsSound key ch s v
Step-IsSound {s} (starts t xs ys e best) v = start_step-IsSound t xs ys s v e
Step-IsSound {s} (finishes key) v = finish_hydration-IsSound key s v
Step-IsSound {s} (fetches key) v = finish_fetch-IsSound key s v
Step-IsSound {s} stops v = stop-IsSound s v

pub Reach-IsSound : {s : Service} → Reach s → IsSound s
Reach-IsSound start = new_service-IsSound
Reach-IsSound (later r st) = Step-IsSound st (Reach-IsSound r)

-- In every reachable state, a key that some reader waits for has a task in the queue or is being
-- fetched by a worker.
pub no_stranded_reader :
    {s : Service}
    → Reach s
    → (k : Text) → is_waited (s.wait k) ≡ true
    → (has_key k s.pq || s.active k) ≡ true
no_stranded_reader {s} r k h =
    let v : IsSound s = Reach-IsSound r in ground (arith, v.covered k h, v.listed k)

-- In every reachable state the key of a queued task is being fetched by no worker, so that a worker
-- that takes the task goes on with it, and no other task in the queue has its key.
pub single_fetch :
    {s : Service}
    → Reach s
    → (t : Task) (xs ys : List Task) → s.pq ≡ xs ++ (t ∷ ys)
    → ((start_step t (xs ++ ys) s).0 ≡ true) × (has_key t.object_oid (xs ++ ys) ≡ false)
unfolding start_step
single_fetch {s} r t xs ys e =
    let v : IsSound s = Reach-IsSound r in
    let u : IsUnique (xs ++ (t ∷ ys)) = rw e at v.unique in
    (
      ground (arith, v.apart t.object_oid, v.listed t.object_oid, has_key-middle xs ys t),
      ground (arith, has_key-without xs ys t t.object_oid u, text_eq_refl t.object_oid),
    )
