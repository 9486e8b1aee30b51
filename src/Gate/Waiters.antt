-- ===== src/Gate/Waiters.antt =====
-- The abstract gate, and the goroutines that wait at it, for internal/fusefs/ready_gate.go.
use gitfs.Prelude.{
  ℕ, suc, ◌<◌, ◌≡◌, ◌≢◌, Bool, true, false, Option, none, some, arith, List, [], ◌∷◌, ◌++◌, All,
}
use gitfs.Errors.{Error, repo_not_ready}
use gitfs.Gate.{
  ReadyGate, returns, blocks, mark_shut, new_ready_gate, reset, mark_ready, mark_failed, wait_enter,
  wait_resume,
}
use gitfs.Gate.Invariant.{
  IsValid, new_ready_gate-IsValid, reset-IsValid, mark_ready-IsValid, mark_failed-IsValid,
  mark_ready_total, mark_failed_total,
}

-- What a gate stands for.
pub data Phase : Type 0 where
  pending opened : Phase
  failed : Error → Phase

abbrev pub phase : ReadyGate → Phase
phase g = elim g.ready [
  | true ↦ opened
  | false ↦ elim g.failure [ some e ↦ failed e | none ↦ pending ]
]

-- An error reported while the gate is open is dropped, and a later one replaces an earlier one.
abbrev pub fail_phase : Error → Phase → Phase
fail_phase e pending = failed e
fail_phase e opened = opened
fail_phase e (failed old) = failed e

abbrev pub reported_error : Option Error → Error
reported_error none = repo_not_ready
reported_error (some e) = e

-- The verdict of a phase: nil, or the error that `Wait` returns.
abbrev pub verdict : Phase → Option Error
verdict pending = some repo_not_ready
verdict opened = none
verdict (failed e) = some e

-- `Reset` brings every phase back to pending.
pub phase-reset : (g : ReadyGate) → phase (reset g) ≡ pending
unfolding reset
phase-reset g = ground arith

pub phase-mark_ready : (g g' : ReadyGate) → mark_ready g ≡ some g' → phase g' ≡ opened
unfolding mark_ready
phase-mark_ready g g' e = ground arith

pub phase-mark_failed :
    (r : Option Error) (g g' : ReadyGate)
    → IsValid g
    → mark_failed r g ≡ some g'
    → phase g' ≡ fail_phase (reported_error r) (phase g)
unfolding mark_failed
phase-mark_failed none g g' v e = ground (arith, v.exclusive)
phase-mark_failed (some r) g g' v e = ground (arith, v.exclusive)

-- The first section of `Wait` blocks, on the current channel, exactly while the phase is pending.
pub wait_enter-phase :
    (g : ReadyGate)
    → (phase g ≡ pending → wait_enter g ≡ blocks g.done)
      × (phase g ≢ pending → wait_enter g ≡ returns (verdict (phase g)))
unfolding wait_enter
wait_enter-phase g = (λ h. ground arith, λ h. ground arith)

pub wait_resume-phase : (g : ReadyGate) → wait_resume g ≡ verdict (phase g)
unfolding wait_resume
wait_resume-phase g = ground arith

-- The gate and the channels that blocked goroutines receive from.
pub record Hall : Type 0 where
  pub gate : ReadyGate
  pub waiting : List ℕ

-- One critical section of some goroutine. `leave` is the end of a wait: the channel was closed, or
-- the context was cancelled.
pub data Step (h : Hall) : Hall → Type 0 where
  enter : {c : ℕ} → wait_enter h.gate ≡ blocks c → Step h (record h { waiting = c ∷ h.waiting })
  leave :
      {ws : List ℕ} (c : ℕ) (before after : List ℕ)
      → h.waiting ≡ before ++ (c ∷ after)
      → ws ≡ before ++ after
      → Step h (record h { waiting = ws })
  resets : Step h (record h { gate = reset h.gate })
  readies : {g : ReadyGate} → mark_ready h.gate ≡ some g → Step h (record h { gate = g })
  fails :
      {g : ReadyGate} (r : Option Error)
      → mark_failed r h.gate ≡ some g
      → Step h (record h { gate = g })

pub data Reach : Hall → Type 0 where
  start : (b : Bool) → Reach (record { gate = new_ready_gate b; waiting = [] })
  later : {h k : Hall} → Reach h → Step h k → Reach k

pub record IsSafe (h : Hall) : Type 0 where
  pub valid : IsValid h.gate
  pub known : All (λ c. c < h.gate.fresh) h.waiting

All-mono : {m n : ℕ} (ws : List ℕ) → m < suc n → All (λ c. c < m) ws → All (λ c. c < n) ws
All-mono [] h a = tt
All-mono (w ∷ ws) h a = (omega arith, All-mono ws h a.1)

All-drop :
    (n : ℕ) (xs : List ℕ) (c : ℕ) (ys : List ℕ)
    → All (λ c. c < n) (xs ++ (c ∷ ys))
    → All (λ c. c < n) (xs ++ ys)
All-drop n [] c ys a = a.1
All-drop n (x ∷ xs) c ys a = (a.0, All-drop n xs c ys a.1)

fresh-reset : (g : ReadyGate) → g.fresh < suc (reset g).fresh
unfolding reset
fresh-reset g = ground arith

fresh-mark_ready : (g g' : ReadyGate) → mark_ready g ≡ some g' → g.fresh < suc g'.fresh
unfolding mark_ready
fresh-mark_ready g g' e = ground arith

fresh-mark_failed :
    (r : Option Error) (g g' : ReadyGate) → mark_failed r g ≡ some g' → g.fresh < suc g'.fresh
unfolding mark_failed
fresh-mark_failed r g g' e = ground arith

entered_known : (g : ReadyGate) (c : ℕ) → IsValid g → wait_enter g ≡ blocks c → c < g.fresh
unfolding wait_enter
entered_known g c v e = ground (arith, v.bounded)

Step-IsSafe : {h k : Hall} → Step h k → IsSafe h → IsSafe k
Step-IsSafe {h} (enter {c} e) s = record {
  valid = s.valid;
  known = (entered_known h.gate c s.valid e, s.known);
}
Step-IsSafe {h} (leave c xs ys e e') s = record {
  valid = s.valid;
  known = rw e' (All-drop h.gate.fresh xs c ys (rw e at s.known));
}
Step-IsSafe {h} resets s = record {
  valid = reset-IsValid h.gate s.valid;
  known = All-mono h.waiting (fresh-reset h.gate) s.known;
}
Step-IsSafe {h} (readies {g} e) s = record {
  valid = mark_ready-IsValid h.gate g s.valid e;
  known = All-mono h.waiting (fresh-mark_ready h.gate g e) s.known;
}
Step-IsSafe {h} (fails {g} r e) s = record {
  valid = mark_failed-IsValid r h.gate g s.valid e;
  known = All-mono h.waiting (fresh-mark_failed r h.gate g e) s.known;
}

pub Reach-IsSafe : {h : Hall} → Reach h → IsSafe h
Reach-IsSafe (start b) = record { valid = new_ready_gate-IsValid b; known = tt }
Reach-IsSafe (later r st) = Step-IsSafe st (Reach-IsSafe r)

All-imp {ℓ} :
    {A : Type ℓ} (P Q : A → Type 0) (xs : List A) → ((x : A) → P x → Q x) → All P xs → All Q xs
All-imp P Q [] f a = tt
All-imp P Q (x ∷ xs) f a = (f x a.0, All-imp P Q xs f a.1)

waits_or_woken :
    (g : ReadyGate) (c : ℕ)
    → IsValid g
    → c < g.fresh
    → g.shut c ≡ false
    → (c ≡ g.done) × (phase g ≡ pending)
waits_or_woken g c v h open_c =
    (ground (arith, v.retired c), ground (arith, v.retired c, v.sealed, v.decided))

woken_by_ready :
    (g g' : ReadyGate) (c : ℕ) → IsValid g → c < g.fresh → mark_ready g ≡ some g' → g'.shut c ≡ true
unfolding mark_ready mark_shut
woken_by_ready g g' c v h e = ground (arith, v.retired c, v.sealed, v.decided)

woken_by_failed :
    (r : Option Error) (g g' : ReadyGate) (c : ℕ)
    → IsValid g
    → c < g.fresh
    → mark_failed r g ≡ some g'
    → g'.shut c ≡ true
unfolding mark_failed mark_shut
woken_by_failed r g g' c v h e = ground (arith, v.retired c, v.sealed, v.decided)

-- In every reachable state, a goroutine that waits on a channel not yet closed waits on the
-- current channel, and the gate is pending.
pub no_lost_wakeup :
    {h : Hall}
    → Reach h
    → All (λ c. h.gate.shut c ≡ false → (c ≡ h.gate.done) × (phase h.gate ≡ pending)) h.waiting
no_lost_wakeup {h} r =
    let s : IsSafe h = Reach-IsSafe r in
    All-imp _ _ h.waiting (λ c below. waits_or_woken h.gate c s.valid below) s.known

-- In every reachable state `MarkReady` and `MarkFailed` close no closed channel, and after either
-- of them the channel of every waiting goroutine is closed.
pub marks_wake_everyone :
    {h : Hall}
    → Reach h
    → (r : Option Error)
    → ((g : ReadyGate) × (mark_ready h.gate ≡ some g) × All (λ c. g.shut c ≡ true) h.waiting)
      × ((g : ReadyGate) × (mark_failed r h.gate ≡ some g) × All (λ c. g.shut c ≡ true) h.waiting)
marks_wake_everyone {h} reach r =
    let s : IsSafe h = Reach-IsSafe reach in
    let (g, e) = mark_ready_total h.gate s.valid in
    let (k, d) = mark_failed_total r h.gate s.valid in
    (
      (g, e, All-imp _ _ h.waiting (λ c below. woken_by_ready h.gate g c s.valid below e) s.known),
      (
        k,
        d,
        All-imp _ _ h.waiting (λ c below. woken_by_failed r h.gate k c s.valid below d) s.known,
      ),
    )
