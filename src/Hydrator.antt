-- ===== src/Hydrator.antt =====
-- internal/hydrator/hydrator.go and inflight.go: the queue of blobs to fetch, and the readers that
-- wait for them. A key is the object id alone, since one service serves one repository here, and a
-- channel is a number.
pub mod Queue
pub mod Waiters
pub mod Prefetch
pub mod Blobs
use gitfs.Prelude.{
  ℕ, Text, text_eq, Bool, true, false, not, ◌||◌, ◌&&◌, Option, none, some, List, [], ◌∷◌, ◌++◌,
  any, ltb, ◌==◌, if◌then◌else◌,
}
use gitfs.Model.{BaseNode, SizeState}

pub record Task : Type 0 where
  pub path : Text
  pub object_oid : Text
  pub size_state : SizeState
  pub size_bytes : ℕ
  pub priority : ℕ
  pub enqueued_at : ℕ

-- `inflight`: the channels that wait for each key, none for a key that the map has not.
abbrev pub Inflight : Type 0
Inflight = Text → List ℕ

abbrev pub new_inflight : Inflight
new_inflight key = []

-- f[key] = …
unfoldable pub put : Text → List ℕ → Inflight → Inflight
put key chs f k = if text_eq key k then chs else f k

unfoldable pub add : Text → ℕ → Inflight → Inflight
unfolding put
add key ch f = put key (f key ++ (ch ∷ [])) f

-- The first occurrence of the channel is taken out.
unfoldable pub drop_channel : ℕ → List ℕ → List ℕ
drop_channel ch [] = []
drop_channel ch (c ∷ cs) = let rest = drop_channel ch cs in if c == ch then cs else c ∷ rest

unfoldable pub remove : Text → ℕ → Inflight → Inflight
unfolding put drop_channel
remove key ch f = put key (drop_channel ch (f key)) f

-- The map after `take`, which gives the channels of the key.
unfoldable pub taken : Text → Inflight → Inflight
unfolding put
taken key f = put key [] f

abbrev pub is_waited : List ℕ → Bool
is_waited [] = false
is_waited (c ∷ cs) = true

-- `pq` are the items of the heap, in any order; `queued` and `active` are the keys of these maps.
pub record Service : Type 0 where
  pub pq : List Task
  pub queued : Text → Bool
  pub wait : Inflight
  pub active : Text → Bool
  pub verified : Text → Bool

abbrev pub new_service : Service
new_service = record {
  pq = [];
  queued = λ k. false;
  wait = new_inflight;
  active = λ k. false;
  verified = λ k. false;
}

-- A set of keys with one key put in or taken out.
unfoldable pub mark : Text → Bool → (Text → Bool) → Text → Bool
mark key b f k = if text_eq key k then b else f k

-- `Less` of the priority queue: whether `t` comes out before `u`.
unfoldable pub less : Task → Task → Bool
less t u =
    if t.priority == u.priority then ltb t.enqueued_at u.enqueued_at else ltb u.priority t.priority

unfoldable pub find_task : Text → List Task → Option Task
find_task key [] = none
find_task key (t ∷ ts) = if text_eq t.object_oid key then some t else find_task key ts

-- The task of the queued item of the key is replaced.
unfoldable pub replace_task : Task → List Task → List Task
replace_task t [] = []
replace_task t (u ∷ us) =
    let rest = u ∷ replace_task t us in if text_eq u.object_oid t.object_oid then t ∷ us else rest

-- The item that `queued` points to, and whether its task gives way.
abbrev outranks : Task → Option Task → Bool
outranks t none = false
outranks t (some u) = ltb u.priority t.priority

-- `enqueueLocked`: whether the task was queued or raised, and the state.
unfoldable pub enqueue_locked : Task → Service → Bool × Service
unfolding mark find_task replace_task
enqueue_locked t s =
    if s.active t.object_oid
    then (false, s)
    else if s.queued t.object_oid
    then (if outranks t (find_task t.object_oid s.pq)
        then (true, record s { pq = replace_task t s.pq })
        else (false, s))
    else (true, record s { pq = t ∷ s.pq; queued = mark t.object_oid true s.queued })

abbrev pub explicit_read : ℕ
explicit_read = 1000

unfoldable pub explicit_read_task : BaseNode → ℕ → Task
explicit_read_task n now = record {
  path = n.path;
  object_oid = n.object_oid;
  size_state = n.size_state;
  size_bytes = n.size_bytes;
  priority = explicit_read;
  enqueued_at = now;
}

-- Whether a hydration of the key is under way.
unfoldable pub in_flight : Text → Service → Bool
in_flight key s = s.active key || is_waited (s.wait key)

-- `joinInflight`: the state after it, where it gives a channel.
unfoldable pub join_inflight : Text → ℕ → Service → Option Service
unfolding in_flight add
join_inflight key ch s =
    if in_flight key s then some (record s { wait = add key ch s.wait }) else none

-- The critical section of `EnsureHydrated` after the cached blob was found missing or invalid.
unfoldable pub register : BaseNode → ℕ → ℕ → Service → Service
unfolding in_flight add enqueue_locked explicit_read_task
register n now ch s =
    let joined : Service = record s { wait = add n.object_oid ch s.wait } in
    if in_flight n.object_oid s
    then joined
    else (enqueue_locked (explicit_read_task n now) joined).1

-- `awaitHydration` where the context ends first.
unfoldable pub abandon : Text → ℕ → Service → Service
unfolding remove
abandon key ch s = record s { wait = remove key ch s.wait }

-- The first critical section of `step`, for the item that `heap.Pop` gives and the items it leaves:
-- whether the worker goes on with the item.
unfoldable pub start_step : Task → List Task → Service → Bool × Service
unfolding mark
start_step t rest s =
    let popped : Service = record s { pq = rest; queued = mark t.object_oid false s.queued } in
    if s.active t.object_oid
    then (false, popped)
    else (true, record popped { active = mark t.object_oid true s.active })

-- `finishHydration`: the channels that get the result, and the state.
unfoldable pub finish_hydration : Text → Service → List ℕ × Service
unfolding mark taken
finish_hydration key s =
    (s.wait key, record s { wait = taken key s.wait; active = mark key false s.active })

-- The end of `step` after a fetch that succeeded.
unfoldable pub finish_fetch : Text → Service → List ℕ × Service
unfolding mark taken
finish_fetch key s = (
  s.wait key,
  record s {
    wait = taken key s.wait;
    active = mark key false s.active;
    verified = mark key true s.verified;
  },
)

-- `Stop` sends an error to every channel that waits.
unfoldable pub stop : Service → Service
stop s = record s { wait = new_inflight }
