-- ===== src/Gate/Invariant.antt =====
-- The invariant of the gate of internal/fusefs/ready_gate.go, and what each method keeps of it.
use gitfs.Prelude.{
  ℕ, ◌≤◌, ◌<◌, ◌≡◌, ◌≢◌, Bool, true, false, ◌||◌, Option, none, some, arith, is_some, Option-cases,
  inl, inr,
}
use gitfs.Errors.{Error}
use gitfs.Gate.{ReadyGate, mark_shut, new_ready_gate, reset, mark_ready, mark_failed}

pub record IsValid (g : ReadyGate) : Type 0 where
  pub sealed : g.closed ≡ g.shut g.done
  pub decided : g.closed ≡ (g.ready || is_some g.failure)
  pub exclusive : g.ready ≡ true → g.failure ≡ none
  pub bounded : g.done < g.fresh
  pub retired : (c : ℕ) → c < g.fresh → c ≢ g.done → g.shut c ≡ true
  pub unused : (c : ℕ) → g.fresh ≤ c → g.shut c ≡ false

pub new_ready_gate-IsValid : (b : Bool) → IsValid (new_ready_gate b)
unfolding new_ready_gate
new_ready_gate-IsValid b = record {
  sealed = ground arith;
  decided = ground arith;
  exclusive = λ _. ground arith;
  bounded = omega arith;
  retired = λ c h n. absurd (omega arith);
  unused = λ c h. ground arith;
}

-- `Reset` keeps the invariant on both of its branches.
pub reset-IsValid : (g : ReadyGate) → IsValid g → IsValid (reset g)
unfolding reset
reset-IsValid g v = record {
  sealed = ground (arith, v.unused g.fresh);
  decided = ground arith;
  exclusive = λ h. ground arith;
  bounded = ground arith;
  retired = λ c h n. ground (arith, v.retired c, v.unused c, v.sealed);
  unused = λ c h. ground (arith, v.unused c);
}

-- On a valid gate `MarkReady` never closes a closed channel.
pub mark_ready-ne-none : (g : ReadyGate) → IsValid g → mark_ready g ≢ none
unfolding mark_ready
mark_ready-ne-none g v = ground (arith, v.sealed, v.decided, v.exclusive)

pub mark_ready-IsValid : (g g' : ReadyGate) → IsValid g → mark_ready g ≡ some g' → IsValid g'
unfolding mark_ready mark_shut
mark_ready-IsValid g g' v e = record {
  sealed = ground arith;
  decided = ground arith;
  exclusive = λ h. ground arith;
  bounded = ground (arith, v.bounded);
  retired = λ c h n. ground (arith, v.retired c);
  unused = λ c h. ground (arith, v.unused c, v.bounded);
}

pub mark_failed-ne-none : (r : Option Error) (g : ReadyGate) → IsValid g → mark_failed r g ≢ none
unfolding mark_failed
mark_failed-ne-none r g v = ground (arith, v.sealed, v.decided, v.exclusive)

pub mark_failed-IsValid :
    (r : Option Error) (g g' : ReadyGate) → IsValid g → mark_failed r g ≡ some g' → IsValid g'
unfolding mark_failed mark_shut
mark_failed-IsValid r g g' v e = record {
  sealed = ground arith;
  decided = ground arith;
  exclusive = λ h. ground arith;
  bounded = ground (arith, v.bounded);
  retired = λ c h n. ground (arith, v.retired c);
  unused = λ c h. ground (arith, v.unused c, v.bounded);
}

-- So both marks return a gate.
pub mark_ready_total : (g : ReadyGate) → IsValid g → (g' : ReadyGate) × (mark_ready g ≡ some g')
mark_ready_total g v = elim (Option-cases (mark_ready g)) [
  | inl e ↦ absurd (mark_ready-ne-none g v e)
  | inr found ↦ found
]

pub mark_failed_total :
    (r : Option Error) (g : ReadyGate) → IsValid g → (g' : ReadyGate) × (mark_failed r g ≡ some g')
mark_failed_total r g v = elim (Option-cases (mark_failed r g)) [
  | inl e ↦ absurd (mark_failed-ne-none r g v e)
  | inr found ↦ found
]
