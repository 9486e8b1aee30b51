-- ===== src/Tests/Gate.antt =====
-- Runs of the gate of internal/fusefs/ready_gate.go.
use gitfs.Prelude.{ℕ, ◌≡◌, refl, true, false, some, [], ◌∷◌, All}
use gitfs.Errors.{fault}
use gitfs.Gate.{
  ReadyGate, new_ready_gate, mark_ready, mark_failed, mark_shut, reset, wait_enter, wait_resume,
  wait, close_done, by_channel,
}
use gitfs.Gate.Waiters.{
  Hall, Reach, start, later, enter, fails, resets, phase, pending, no_lost_wakeup,
  marks_wake_everyone,
}
use gitfs.Gate.Fuse.{forwarded, gated, waits, FuseOp}

-- One goroutine blocks at a pending gate.
abbrev one_waits : Hall
one_waits = record { gate = new_ready_gate false; waiting = 0 ∷ [] }

one_waits_reached : Reach one_waits
unfolding new_ready_gate wait_enter
one_waits_reached = later (start false) (enter refl)

abbrev failed : ReadyGate
failed = record (new_ready_gate false) {
  failure = some (fault 1);
  closed = true;
  shut = mark_shut (new_ready_gate false).shut 0;
}

-- Preparation fails.
abbrev after_failure : Hall
after_failure = record { gate = failed; waiting = 0 ∷ [] }

after_failure_reached : Reach after_failure
unfolding new_ready_gate mark_failed close_done
after_failure_reached = later one_waits_reached (fails (some (fault 1)) refl)

-- After the reset a second goroutine blocks, while the first has not yet run.
abbrev two_wait : Hall
two_wait = record { gate = reset after_failure.gate; waiting = 1 ∷ (0 ∷ []) }

two_wait_reached : Reach two_wait
unfolding reset new_ready_gate wait_enter
two_wait_reached = later (later after_failure_reached resets) (enter refl)

no_lost_wakeup_example :
    All
      (λ c.
        two_wait.gate.shut c ≡ false → (c ≡ two_wait.gate.done) × (phase two_wait.gate ≡ pending))
      two_wait.waiting
no_lost_wakeup_example = no_lost_wakeup two_wait_reached

marks_wake_everyone_example :
    ((g : ReadyGate) × (mark_ready two_wait.gate ≡ some g)
      × All (λ c. g.shut c ≡ true) two_wait.waiting)
    × ((g : ReadyGate) × (mark_failed (some (fault 2)) two_wait.gate ≡ some g)
        × All (λ c. g.shut c ≡ true) two_wait.waiting)
marks_wake_everyone_example = marks_wake_everyone two_wait_reached (some (fault 2))

-- The first goroutine finds its channel closed and the second does not.
two_wait_channels : (two_wait.gate.shut 0 ≡ true) × (two_wait.gate.shut 1 ≡ false)
unfolding reset new_ready_gate mark_shut
two_wait_channels = (refl, refl)

-- A read that waited at a pending gate and found it open.
abbrev wakes : ReadyGate
wakes = new_ready_gate true

abbrev next : FuseOp → ℕ
next op = 5

read_waits : waits FuseOp.read_file ≡ true
unfolding waits
read_waits = refl

read_forwarded :
    gated (wait (new_ready_gate false) (by_channel wakes)) next FuseOp.read_file ≡ forwarded 5
unfolding gated waits wait wait_enter wait_resume new_ready_gate
read_forwarded = refl
