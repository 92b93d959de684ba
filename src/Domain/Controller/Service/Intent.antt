-- ===== src/Domain/Controller/Service/Intent.antt =====
-- When a service gets a new execution: the intent revisions.
use susm.Common.{◌∷◌, [], List, ◌++◌, ◌≡◌, ◌⊎◌, refl, arith, ok, err, All, Bool, true, false, ap}
use susm.Domain.Ids.{ExecutionId, IntentRevision}
use susm.Domain.Transition.{without_effects, with_effects}
use susm.Domain.Execution.{ExecutionOutcome}
use susm.Domain.Controller.{
  is_available, StoppedPhase, RunningPhase, needs_execution, active, blocked, ServiceControl,
  stopped, running, ServiceState, ServiceCommand, ServiceControlEvent, command, execution_allocated,
  execution_terminated, ServiceControlEffect, allocate_execution, stop_execution,
}
use susm.Domain.Controller.Service.{Step, Outcome, transition}

-- The revisions for which effects ask for an execution.
abbrev pub asked : List ServiceControlEffect → List IntentRevision
asked [] = []
asked (allocate_execution r ∷ es) = r ∷ asked es
asked (stop_execution _ _ ∷ es) = asked es

abbrev pub wanted : ServiceControl → List IntentRevision
wanted (running r needs_execution) = r ∷ []
wanted _ = []

-- An accepted event asks for an execution exactly when the control then waits for one of that
-- revision, but for an event that leaves the state alone and asks for nothing.
pub transition-asked :
    (s : ServiceState) (e : ServiceControlEvent) {t : Step}
    → transition s e ≡ ok t
    → (asked t.effects ≡ wanted t.state.control) ⊎ ((t.state ≡ s) × (t.effects ≡ []))
unfolding transition
transition-asked s (command c) h = ground arith
transition-asked s (execution_allocated r id) h = ground arith
transition-asked s (execution_terminated id o) h = ground arith

-- Only the allocation for the latest intent is accepted, and only while one is wanted: it makes
-- that execution the active one.
pub transition-allocated :
    (s : ServiceState) (r : IntentRevision) (id : ExecutionId) {t : Step}
    → transition s (execution_allocated r id) ≡ ok t
    → (s.control ≡ running r needs_execution)
      × (t.state.control ≡ running r (active id))
      × (t.effects ≡ [])
unfolding transition
transition-allocated s r id h = (ground arith, ground arith, ground arith)

abbrev pub kept : ServiceState → Outcome → Step
kept s (ok t) = t
kept s (err _) = without_effects s

-- A history; a rejected event changes nothing.
unfoldable pub run :
    ServiceState → List ServiceControlEvent → ServiceState × List ServiceControlEffect
run s [] = (s, [])
run s (e ∷ es) =
    let t = kept s (transition s e) in let rest = run t.state es in (rest.0, t.effects ++ rest.1)

run-cons :
    (s : ServiceState) (e : ServiceControlEvent) (es : List ServiceControlEvent) {t : Step}
    → kept s (transition s e) ≡ t
    → run s (e ∷ es) ≡ ((run t.state es).0, t.effects ++ (run t.state es).1)
unfolding run
run-cons s e es h = ap (λ t. ((run t.state es).0, t.effects ++ (run t.state es).1)) h

run-nil : (s : ServiceState) → run s [] ≡ (s, [])
unfolding run
run-nil s = refl

-- No `start` or `restart`.
abbrev pub is_passive : ServiceControlEvent → Bool
is_passive (command (ServiceCommand.start _)) = false
is_passive (command (ServiceCommand.restart _)) = false
is_passive _ = true

abbrev pub is_resting : ServiceControl → Bool
is_resting (running _ (blocked _ _)) = true
is_resting (stopped StoppedPhase.idle) = true
is_resting _ = false

passive_step :
    (s : ServiceState) (e : ServiceControlEvent)
    → is_resting s.control ≡ true
    → is_passive e ≡ true
    → let t = kept s (transition s e) in (is_resting t.state.control ≡ true) × (t.effects ≡ [])
unfolding transition
passive_step s (command (ServiceCommand.start v)) r p = cc
passive_step s (command (ServiceCommand.restart v)) r p = cc
passive_step s (command ServiceCommand.stop) r p = ground arith
passive_step s (execution_allocated v id) r p = ground arith
passive_step s (execution_terminated id o) r p = ground arith

-- A service that is idle, or blocked by an outcome, stays so, with no effect at all, whatever
-- events come other than `start` and `restart`: a blocked intent revision never gets a second
-- execution.
pub run_passive :
    (s : ServiceState) (es : List ServiceControlEvent)
    → is_resting s.control ≡ true
    → All (λ e. is_passive e ≡ true) es
    → (is_resting (run s es).0.control ≡ true) × ((run s es).1 ≡ [])
unfolding run
run_passive s [] r p = (r, refl)
run_passive s (e ∷ es) r p =
    let (q, none_now) = passive_step s e r p.0 in
    let rest = run_passive (kept s (transition s e)).state es q p.1 in
    (rest.0, rw (none_now, rest.1))

-- `restart` commands with these revisions, then the end of the execution.
abbrev pub restarts :
    List IntentRevision → ExecutionId → ExecutionOutcome → List ServiceControlEvent
restarts [] id o = execution_terminated id o ∷ []
restarts (r ∷ rs) id o = command (ServiceCommand.restart r) ∷ restarts rs id o

abbrev pub latest : IntentRevision → List IntentRevision → IntentRevision
latest r [] = r
latest r (x ∷ xs) = latest x xs

draining_step :
    (s : ServiceState) (r x : IntentRevision) (id : ExecutionId)
    → is_available s.definition ≡ true
    → s.control ≡ running r (RunningPhase.draining id)
    → kept s (transition s (command (ServiceCommand.restart x)))
      ≡ without_effects (record s { control = running x (RunningPhase.draining id) })
unfolding transition
draining_step s r x id a c = ground arith

drained_step :
    (s : ServiceState) (r : IntentRevision) (id : ExecutionId) (o : ExecutionOutcome)
    → s.control ≡ running r (RunningPhase.draining id)
    → kept s (transition s (execution_terminated id o))
      ≡ with_effects (record s { control = running r needs_execution }) (allocate_execution r ∷ [])
unfolding transition
drained_step s r id o c = ground arith

-- Restarts of an available service while its execution drains coalesce: however many come, the
-- end of the execution asks for one replacement, of the latest revision, and nothing else
-- happens.
pub run-restarts :
    (s : ServiceState) (r : IntentRevision) (rs : List IntentRevision) (id : ExecutionId)
    (o : ExecutionOutcome)
    → is_available s.definition ≡ true
    → s.control ≡ running r (RunningPhase.draining id)
    → ((run s (restarts rs id o)).0.control ≡ running (latest r rs) needs_execution)
      × ((run s (restarts rs id o)).1 ≡ allocate_execution (latest r rs) ∷ [])
run-restarts s r [] id o a c = rw (run-cons s _ [] (drained_step s r id o c), run-nil) (refl, refl)
run-restarts s r (x ∷ rs) id o a c =
    rw (run-cons s _ (restarts rs id o) (draining_step s r x id a c))
      (run-restarts (record s { control = running x (RunningPhase.draining id) }) x rs id o a refl)
