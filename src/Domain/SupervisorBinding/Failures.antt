-- ===== src/Domain/SupervisorBinding/Failures.antt =====
-- The supervisor-launch budget, and the identities of the processes.
use susm.Common.{
  ℕ, ◌+◌, ◌<◌, ◌∷◌, [], List, Option, none, some, ◌≡◌, inl, inr, arith, ok, Result-cases,
}
use susm.Domain.Time.{BootInstant}
use susm.Domain.Ids.{ExecutionId, next_incarnation}
use susm.Domain.SupervisorBinding.{
  SupervisorProcessIdentity, next_process, SupervisorFailureCount, after_failure,
  SupervisorLaunchPolicy, permits_retry_after, SupervisorBinding, discovering, launch_pending,
  awaiting_handshake, attached, restart_backoff, SupervisorBindingEvent, discovery_attached,
  discovery_failed, launch_succeeded, launch_failed, handshake_accepted, handshake_failed,
  supervisor_exited, retry_deadline_reached, execution_terminated,
}
use susm.Domain.SupervisorBinding.Run.{apply, run}
use susm.Domain.SupervisorBinding.Events.{Step, transition, process_failed}

abbrev pub process_of : SupervisorBinding → SupervisorProcessIdentity
process_of (discovering p _ _) = p
process_of (launch_pending p _) = p
process_of (awaiting_handshake p _ _) = p
process_of (attached p _ _) = p
process_of (restart_backoff p _ _) = p

abbrev pub failures_of : SupervisorBinding → SupervisorFailureCount
failures_of (discovering _ n _) = n
failures_of (launch_pending _ n) = n
failures_of (awaiting_handshake _ n _) = n
failures_of (attached _ n _) = n
failures_of (restart_backoff _ n _) = n

-- The process with its id, `n` failures after incarnation `first`, which the budget covers.
abbrev pub InBudget : ℕ → ℕ → SupervisorLaunchPolicy → SupervisorBinding → Type 0
InBudget id first policy b =
    ((process_of b).supervisor_id ≡ id)
    × ((process_of b).incarnation ≡ first + failures_of b)
    × (failures_of b < policy.max_failures)

abbrev pub StepInBudget : ℕ → ℕ → SupervisorLaunchPolicy → Option SupervisorBinding → Type 0
StepInBudget id first policy none = Unit {0}
StepInBudget id first policy (some b) = InBudget id first policy b

process_failed-InBudget :
    (b : SupervisorBinding) (p : SupervisorProcessIdentity) (at : BootInstant) (id first : ℕ)
    (policy : SupervisorLaunchPolicy) {t : Step}
    → InBudget id first policy b
    → process_failed b p at policy ≡ ok t
    → StepInBudget id first policy t.state
unfolding process_failed next_process next_incarnation after_failure permits_retry_after
process_failed-InBudget b p at id first policy v h = ground arith

-- The binding stays with one supervisor identity, its incarnation counts the failures, and the
-- budget is never overdrawn: a binding exists only with fewer failures than `max_failures`.
pub transition-InBudget :
    (b : SupervisorBinding) (e : SupervisorBindingEvent) (x : ExecutionId) (id first : ℕ)
    (policy : SupervisorLaunchPolicy) {t : Step}
    → InBudget id first policy b
    → transition b e x policy ≡ ok t
    → StepInBudget id first policy t.state
unfolding transition
transition-InBudget b (discovery_attached p n) x id first policy v h = ground arith
transition-InBudget b (discovery_failed p at f) x id first policy {t} v h =
    process_failed-InBudget b p at id first policy {t = t} v h
transition-InBudget b (handshake_failed p at f) x id first policy {t} v h =
    process_failed-InBudget b p at id first policy {t = t} v h
transition-InBudget b (supervisor_exited p at) x id first policy {t} v h =
    process_failed-InBudget b p at id first policy {t = t} v h
transition-InBudget b (launch_failed p at) x id first policy {t} v h =
    process_failed-InBudget b p at id first policy {t = t} v h
transition-InBudget b (launch_succeeded p at) x id first policy v h = ground arith
transition-InBudget b (handshake_accepted p n) x id first policy v h = ground arith
transition-InBudget b (retry_deadline_reached p d) x id first policy v h = ground arith
transition-InBudget b execution_terminated x id first policy v h = ground arith

pub StepInBudget-apply :
    (b : Option SupervisorBinding) (e : SupervisorBindingEvent) (x : ExecutionId) (id first : ℕ)
    (policy : SupervisorLaunchPolicy)
    → StepInBudget id first policy b
    → StepInBudget id first policy (apply b e x policy).state
unfolding apply
StepInBudget-apply none e x id first policy v = tt
StepInBudget-apply (some b) e x id first policy v = elim (Result-cases (transition b e x policy)) [
  | inl (t, h) ↦ rw h (transition-InBudget b e x id first policy {t = t} v h)
  | inr (y, h) ↦ rw h v
]

-- From a binding of supervisor `id` whose incarnation is `first` plus its failures, which are
-- below `max_failures`, the same holds after any history, as long as there is a binding: the
-- supervisor never changes, each failure takes the next incarnation, and the budget is never
-- overdrawn.
pub run-StepInBudget :
    (b : Option SupervisorBinding) (es : List SupervisorBindingEvent) (x : ExecutionId)
    (id first : ℕ) (policy : SupervisorLaunchPolicy)
    → StepInBudget id first policy b
    → StepInBudget id first policy (run b es x policy).0
unfolding run
run-StepInBudget b [] x id first policy v = v
run-StepInBudget b (e ∷ es) x id first policy v =
    run-StepInBudget (apply b e x policy).state es x id first policy
      (StepInBudget-apply b e x id first policy v)
