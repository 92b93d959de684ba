-- ===== src/Domain/Controller/Service/Exclusive.antt =====
-- A service has at most one execution, whatever the order of commands and reports.
use susm.Common.{
  ◌≤◌, ◌∷◌, [], List, ◌≡◌, ◌⊎◌, inl, inr, arith, ok, err, Result-cases, length, ap, sym, ◌∙◌,
  if◌then◌else◌, ◌==◌,
}
use susm.Domain.Ids.{ExecutionId}
use susm.Domain.Controller.{
  StoppedPhase, RunningPhase, active, ServiceControl, stopped, running, ServiceState,
  ServiceControlEvent, command, execution_allocated, execution_terminated, ServiceControlEffect,
  allocate_execution, stop_execution,
}
use susm.Domain.Controller.Service.{Step, Outcome, transition}

-- The execution that the control state knows to be alive.
abbrev pub live : ServiceControl → List ExecutionId
live (stopped (StoppedPhase.draining id)) = id ∷ []
live (running _ (active id)) = id ∷ []
live (running _ (RunningPhase.draining id)) = id ∷ []
live _ = []

abbrev pub remove : ExecutionId → List ExecutionId → List ExecutionId
remove id [] = []
remove id (x ∷ xs) = if x == id then remove id xs else x ∷ remove id xs

-- What an accepted event does to the executions that exist: an allocation creates one, a terminal
-- report ends it.
abbrev pub account : ServiceControlEvent → List ExecutionId → List ExecutionId
account (command _) xs = xs
account (execution_allocated _ id) xs = id ∷ xs
account (execution_terminated id _) xs = remove id xs

-- The state and the existing executions after an event. A rejected event changes neither.
abbrev pub observed :
    ServiceState × List ExecutionId
    → ServiceControlEvent
    → Outcome
    → ServiceState × List ExecutionId
observed (s, xs) e (ok t) = (t.state, account e xs)
observed (s, xs) e (err _) = (s, xs)

unfoldable pub observe :
    ServiceState × List ExecutionId → List ServiceControlEvent → ServiceState × List ExecutionId
observe w [] = w
observe w (e ∷ es) = observe (observed w e (transition w.0 e)) es

transition-live :
    (s : ServiceState) (e : ServiceControlEvent) {t : Step}
    → transition s e ≡ ok t
    → live t.state.control ≡ account e (live s.control)
unfolding transition
transition-live s (command c) h = ground arith
transition-live s (execution_allocated r id) h = ground arith
transition-live s (execution_terminated id o) h = ground arith

observed-live :
    (s : ServiceState) (xs : List ExecutionId) (e : ServiceControlEvent)
    → xs ≡ live s.control
    → let w = observed (s, xs) e (transition s e) in w.1 ≡ live w.0.control
observed-live s xs e p = elim (Result-cases (transition s e)) [
  | inl (t, h) ↦ rw h (ap (account e) p ∙ sym (transition-live s e {t = t} h))
  | inr (x, h) ↦ rw h p
]

-- If the control state knows the executions that exist, it does so after any history: the accepted
-- allocations that have not been terminated are exactly the execution that it holds as active or
-- draining.
pub observe-live :
    (s : ServiceState) (xs : List ExecutionId) (es : List ServiceControlEvent)
    → xs ≡ live s.control
    → (observe (s, xs) es).1 ≡ live (observe (s, xs) es).0.control
unfolding observe
observe-live s xs [] p = p
observe-live s xs (e ∷ es) p =
    let w = observed (s, xs) e (transition s e) in observe-live w.0 w.1 es (observed-live s xs e p)

length-live : (c : ServiceControl) → length (live c) ≤ 1
length-live (stopped StoppedPhase.idle) = omega arith
length-live (stopped (StoppedPhase.draining id)) = omega arith
length-live (running _ (active id)) = omega arith
length-live (running _ (RunningPhase.draining id)) = omega arith
length-live (running _ _) = omega arith

-- From a service state without an execution no history of commands, allocations and terminal
-- reports makes two executions exist at once.
pub observe_at_most_one :
    (s : ServiceState) (es : List ServiceControlEvent)
    → live s.control ≡ []
    → length (observe (s, []) es).1 ≤ 1
observe_at_most_one s es p =
    rw (observe-live s [] es (sym p)) (length-live (observe (s, []) es).0.control)

abbrev pub targets : List ServiceControlEffect → List ExecutionId
targets [] = []
targets (stop_execution id _ ∷ es) = id ∷ targets es
targets (allocate_execution _ ∷ es) = targets es

-- The stops that an accepted event sends are none, or go to the live execution, once.
pub transition-targets :
    (s : ServiceState) (e : ServiceControlEvent) {t : Step}
    → transition s e ≡ ok t
    → (targets t.effects ≡ []) ⊎ (targets t.effects ≡ live s.control)
unfolding transition
transition-targets s (command c) h = ground arith
transition-targets s (execution_allocated r id) h = ground arith
transition-targets s (execution_terminated id o) h = ground arith
