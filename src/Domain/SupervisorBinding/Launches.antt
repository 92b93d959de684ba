-- ===== src/Domain/SupervisorBinding/Launches.antt =====
-- How often a supervisor is launched again, and when the controller gives up.
use susm.Common.{
  ℕ, suc, ◌+◌, ◌-◌, ◌≤◌, ◌<◌, Bool, true, false, ◌∷◌, [], List, ◌++◌, Option, none, some, ◌≡◌, ◌⊎◌,
  inl, inr, arith, ok, Result-cases,
}
use susm.Domain.Time.{BootInstant, checked_add_duration}
use susm.Domain.Ids.{ExecutionId, next_incarnation}
use susm.Domain.Restart.{retry_ordinal, delay_for}
use susm.Domain.SupervisorBinding.{
  SupervisorProcessIdentity, next_process, after_failure, failure_ordinal, SupervisorLaunchPolicy,
  permits_retry_after, SupervisorBinding, restart_backoff, SupervisorBindingEvent,
  discovery_attached, discovery_failed, launch_succeeded, launch_failed, handshake_accepted,
  handshake_failed, supervisor_exited, retry_deadline_reached, execution_terminated,
  SupervisorBindingEffect, arm_retry_deadline, launch_supervisor, report_supervisor_unavailable,
}
use susm.Domain.SupervisorBinding.Run.{apply, run}
use susm.Domain.SupervisorBinding.Failures.{
  process_of, failures_of, StepInBudget, StepInBudget-apply,
}
use susm.Domain.SupervisorBinding.Events.{Step, transition, process_failed}

abbrev pub launches : List SupervisorBindingEffect → ℕ
launches [] = 0
launches (launch_supervisor _ ∷ es) = suc (launches es)
launches (_ ∷ es) = launches es

launches-append :
    (xs ys : List SupervisorBindingEffect) → launches (xs ++ ys) ≡ launches xs + launches ys
launches-append [] ys = omega arith
launches-append (launch_supervisor _ ∷ xs) ys = omega (arith, launches-append xs ys)
launches-append (_ ∷ xs) ys = launches-append xs ys

-- The launches that the budget still covers.
abbrev pub launches_left : SupervisorLaunchPolicy → Option SupervisorBinding → ℕ
launches_left policy none = 0
launches_left policy (some (restart_backoff _ n _)) = policy.max_failures - n
launches_left policy (some b) = policy.max_failures - 1 - failures_of b

process_failed_left :
    (b : SupervisorBinding) (p : SupervisorProcessIdentity) (at : BootInstant)
    (policy : SupervisorLaunchPolicy) {t : Step}
    → process_failed b p at policy ≡ ok t
    → launches t.effects + launches_left policy t.state ≤ launches_left policy (some b)
unfolding process_failed after_failure permits_retry_after
process_failed_left b p at policy h = ground arith

transition_left :
    (b : SupervisorBinding) (e : SupervisorBindingEvent) (x : ExecutionId)
    (policy : SupervisorLaunchPolicy) {t : Step}
    → (failures_of b < policy.max_failures)
    → transition b e x policy ≡ ok t
    → launches t.effects + launches_left policy t.state ≤ launches_left policy (some b)
unfolding transition
transition_left b (discovery_attached p n) x policy v h = ground arith
transition_left b (discovery_failed p at f) x policy {t} v h =
    process_failed_left b p at policy {t = t} h
transition_left b (handshake_failed p at f) x policy {t} v h =
    process_failed_left b p at policy {t = t} h
transition_left b (supervisor_exited p at) x policy {t} v h =
    process_failed_left b p at policy {t = t} h
transition_left b (launch_failed p at) x policy {t} v h =
    process_failed_left b p at policy {t = t} h
transition_left b (launch_succeeded p at) x policy v h = ground arith
transition_left b (handshake_accepted p n) x policy v h = ground arith
transition_left b (retry_deadline_reached p d) x policy v h = ground arith
transition_left b execution_terminated x policy v h = ground arith

apply_left :
    (b : Option SupervisorBinding) (e : SupervisorBindingEvent) (x : ExecutionId) (id first : ℕ)
    (policy : SupervisorLaunchPolicy)
    → StepInBudget id first policy b
    → let t = apply b e x policy in
      launches t.effects + launches_left policy t.state ≤ launches_left policy b
unfolding apply
apply_left none e x id first policy v = omega arith
apply_left (some b) e x id first policy v = elim (Result-cases (transition b e x policy)) [
  | inl (t, h) ↦ rw h (transition_left b e x policy {t = t} v.2 h)
  | inr (y, h) ↦ rw h (omega arith)
]

-- From a binding within its budget, over any history, the launches of replacements and those that
-- the budget still covers afterwards do not exceed those that it covered before: from a first
-- process without failures there are fewer than `max_failures` replacements.
pub run-launches :
    (b : Option SupervisorBinding) (es : List SupervisorBindingEvent) (x : ExecutionId)
    (id first : ℕ) (policy : SupervisorLaunchPolicy)
    → StepInBudget id first policy b
    → launches (run b es x policy).1 + launches_left policy (run b es x policy).0
      ≤ launches_left policy b
unfolding run
run-launches b [] x id first policy v = omega arith
run-launches b (e ∷ es) x id first policy v =
    let t = apply b e x policy in
    omega (
      arith,
      apply_left b e x id first policy v,
      run-launches t.state es x id first policy (StepInBudget-apply b e x id first policy v),
      launches-append t.effects (run t.state es x policy).1,
    )

-- The process that an event reports on.
abbrev pub reported : SupervisorBindingEvent → Option SupervisorProcessIdentity
reported (discovery_attached p _) = some p
reported (discovery_failed p _ _) = some p
reported (launch_succeeded p _) = some p
reported (launch_failed p _) = some p
reported (handshake_accepted p _) = some p
reported (handshake_failed p _ _) = some p
reported (supervisor_exited p _) = some p
reported (retry_deadline_reached p _) = some p
reported execution_terminated = none

-- An event that reports on a process is accepted only if that is the process of the binding, in
-- its incarnation: reports on earlier incarnations are refused.
pub accepted_process :
    (b : SupervisorBinding) (e : SupervisorBindingEvent) (x : ExecutionId)
    (policy : SupervisorLaunchPolicy) {p : SupervisorProcessIdentity} {t : Step}
    → reported e ≡ some p
    → transition b e x policy ≡ ok t
    → p ≡ process_of b
unfolding transition
accepted_process b e x policy r h = ground arith

abbrev pub gave_up : List SupervisorBindingEffect → Bool
gave_up (report_supervisor_unavailable ∷ _) = true
gave_up _ = false

-- When a failure of the process is accepted, the controller gives up exactly when the failure
-- uses up the budget, and then the binding is gone; before that the next incarnation is planned
-- after the backoff, and the retry timer is its only effect.
pub process_failed-gave_up :
    (b : SupervisorBinding) (p : SupervisorProcessIdentity) (at : BootInstant)
    (policy : SupervisorLaunchPolicy) {t : Step}
    → process_failed b p at policy ≡ ok t
    → ((policy.max_failures ≤ failures_of b + 1)
        × (t.state ≡ none)
        × (t.effects ≡ report_supervisor_unavailable ∷ []))
      ⊎ ((d : BootInstant) × (failures_of b + 1 < policy.max_failures)
          × (checked_add_duration at (delay_for policy.backoff (failures_of b + 1)) ≡ some d)
          × (t.state
              ≡ some (
                  restart_backoff
                    (record p { incarnation = p.incarnation + 1 })
                    (failures_of b + 1)
                    d))
          × (t.effects ≡ arm_retry_deadline d ∷ []))
unfolding process_failed after_failure permits_retry_after next_process next_incarnation
    failure_ordinal retry_ordinal
process_failed-gave_up b p at policy {t} h = ground arith
