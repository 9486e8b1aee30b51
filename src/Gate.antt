-- ===== src/Gate.antt =====
-- internal/fusefs/ready_gate.go: the gate that file system operations wait at until the
-- repository is prepared. Each method is one critical section of `mu`, but for `Wait`, which has
-- two with a channel receive between them.
pub mod Invariant
pub mod Waiters
pub mod Fuse
use gitfs.Prelude.{ℕ, suc, Bool, true, false, not, Option, none, some, ◌==◌, if◌then◌else◌}
use gitfs.Errors.{Error, repo_not_ready}

-- `done` names the current channel. `shut c` says whether the channel `c` was closed, and
-- `fresh` is the name that the next `make(chan struct{})` gives.
pub record ReadyGate : Type 0 where
  pub ready : Bool
  pub failure : Option Error
  pub done : ℕ
  pub closed : Bool
  pub shut : ℕ → Bool
  pub fresh : ℕ

unfoldable pub mark_shut : (ℕ → Bool) → ℕ → ℕ → Bool
mark_shut f c d = if c == d then true else f d

-- `close` of a closed channel panics, which is `none`.
unfoldable pub close_done : ReadyGate → Option ReadyGate
unfolding mark_shut
close_done g =
    if g.shut g.done
    then none
    else some (record g { shut = mark_shut g.shut g.done; closed = true })

unfoldable pub new_ready_gate : Bool → ReadyGate
new_ready_gate ready = record {
  ready = ready;
  failure = none;
  done = 0;
  closed = ready;
  shut = λ c. if c == 0 then ready else false;
  fresh = 1;
}

-- What the first critical section of `Wait` decides: return at once, or block on a channel.
pub data Entered : Type 0 where
  returns : Option Error → Entered
  blocks : ℕ → Entered

unfoldable pub wait_enter : ReadyGate → Entered
wait_enter g =
    if g.ready
    then returns none
    else elim g.failure [ some e ↦ returns (some e) | none ↦ blocks g.done ]

-- The second critical section, after the receive on `done`.
unfoldable pub wait_resume : ReadyGate → Option Error
wait_resume g =
    if g.ready then none else elim g.failure [ some e ↦ some e | none ↦ some repo_not_ready ]

-- How the `select` of a blocked `Wait` ends: by `ctx.Done()`, with the context's error, or by the
-- receive on the channel, with the gate as the second critical section then finds it.
pub data Woken : Type 0 where
  by_context : Error → Woken
  by_channel : ReadyGate → Woken

unfoldable pub wait : ReadyGate → Woken → Option Error
unfolding wait_enter wait_resume
wait g w = elim (wait_enter g) [
  | returns r ↦ r
  | blocks c ↦ elim w [ by_context e ↦ some e | by_channel g' ↦ wait_resume g' ]
]

unfoldable pub reset : ReadyGate → ReadyGate
reset g = elim g.failure [ none ↦ if not g.ready then g else cleared | some e ↦ cleared ]
  where
    cleared : ReadyGate
    cleared = record g {
      ready = false;
      failure = none;
      done = g.fresh;
      closed = false;
      fresh = suc g.fresh;
    }

unfoldable pub mark_ready : ReadyGate → Option ReadyGate
unfolding close_done
mark_ready g =
    if g.ready
    then some g
    else let g' : ReadyGate = record g { ready = true; failure = none } in
      if not g'.closed then close_done g' else some g'

-- The argument is the error or nil.
unfoldable pub mark_failed : Option Error → ReadyGate → Option ReadyGate
unfolding close_done
mark_failed reported g = elim g.failure [
  | some old ↦ some (record g { failure = some e })
  | none ↦
      if g.ready
      then some g
      else let g' : ReadyGate = record g { failure = some e } in
        if not g'.closed then close_done g' else some g'
]
  where
    e : Error
    e = elim reported [ none ↦ repo_not_ready | some e' ↦ e' ]
