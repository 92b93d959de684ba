-- ===== src/Domain/Execution/Errors.antt =====
-- Which events are rejected, and why.
use susm.Common.{true, false, Option, none, some, [], ◌≡◌, ◌≢◌, ◌⊎◌, refl, arith, ok, err}
use susm.Domain.Time.{BootInstant}
use susm.Domain.Ids.{AttemptNumber}
use susm.Domain.Restart.{ExecutionRestartPolicy}
use susm.Domain.Execution.{
  RetryDeadline, StopDeadline, AttemptEnd, ExecutionPhase, launching, running, restart_backoff,
  stopping, awaiting_launch, graceful, ExecutionState, ExecutionEvent, launch_succeeded,
  process_exited, stop_requested, restart_deadline_reached, stop_deadline_reached,
  restart_policy_changed, success_exit_codes_changed, policy_kind_mismatch,
}
use susm.Domain.Execution.Attempts.{
  Step, backoff, finish_attempt, finish_terminal, policy_permits, validate_stop_cause,
  validate_policy_kind, same_kind_policy, stop_deadline,
}
use susm.Domain.Execution.Events.{transition}
use susm.Domain.Execution.Validity.{IsValid}

-- The attempt that an event reports on.
abbrev pub reported : ExecutionEvent → Option AttemptNumber
reported (launch_succeeded attempt _) = some attempt
reported (ExecutionEvent.launch_failed attempt _ _) = some attempt
reported (process_exited attempt _ _ _) = some attempt
reported _ = none

-- The attempt that a phase waits for.
abbrev pub current : ExecutionPhase → Option AttemptNumber
current (launching attempt) = some attempt
current (running attempt) = some attempt
current (stopping attempt _ _ _) = some attempt
current _ = none

-- A report on an attempt is accepted only while that very attempt is the current one.
pub accepted_report :
    (s : ExecutionState) (e : ExecutionEvent) {a : AttemptNumber} {t : Step}
    → reported e ≡ some a
    → transition s e ≡ ok t
    → current s.phase ≡ some a
unfolding transition
accepted_report s e r h = ground arith

abbrev pub restart_timer : ExecutionPhase → Option RetryDeadline
restart_timer (restart_backoff _ _ _ _ retry_at) = some retry_at
restart_timer _ = none

abbrev pub stop_timer : ExecutionPhase → Option StopDeadline
stop_timer (stopping _ (awaiting_launch deadline) _ _) = some deadline
stop_timer (stopping _ (graceful deadline) _ _) = some deadline
stop_timer _ = none

-- A restart timer counts only if it is the one that the phase waits for.
pub accepted_restart_timer :
    (s : ExecutionState) (d : RetryDeadline) {t : Step}
    → transition s (restart_deadline_reached d) ≡ ok t
    → restart_timer s.phase ≡ some d
unfolding transition
accepted_restart_timer s d h = ground arith

-- A stop timer counts only if it is the one that the phase waits for: otherwise, when it is accepted,
-- nothing changes.
pub accepted_stop_timer :
    (s : ExecutionState) (d : StopDeadline) {t : Step}
    → transition s (stop_deadline_reached d) ≡ ok t
    → (stop_timer s.phase ≡ some d) ⊎ (t.state ≡ s) × (t.effects ≡ [])
unfolding transition
accepted_stop_timer s d h = ground arith

finish_attempt_kind :
    (s : ExecutionState) (a : AttemptNumber) (e : AttemptEnd) (at : BootInstant)
    → same_kind_policy s.origin s.restart_policy ≡ true
    → finish_attempt s a e at ≢ err policy_kind_mismatch
unfolding finish_attempt finish_terminal policy_permits backoff
finish_attempt_kind s a e at k h = ground arith

lost_kind :
    (p : ExecutionPhase) (s : ExecutionState) (at : BootInstant)
    → s.phase ≡ p
    → same_kind_policy s.origin s.restart_policy ≡ true
    → transition s (ExecutionEvent.supervisor_lost at) ≢ err policy_kind_mismatch
unfolding transition
lost_kind (launching a) s at e k h =
    ground (arith, finish_attempt_kind s a AttemptEnd.supervisor_lost at)
lost_kind (running a) s at e k h =
    ground (arith, finish_attempt_kind s a AttemptEnd.supervisor_lost at)
lost_kind p s at e k h = ground arith

abbrev pub policy_in : ExecutionEvent → Option ExecutionRestartPolicy
policy_in (restart_policy_changed p) = some p
policy_in _ = none

-- In a well-formed state the error `PolicyKindMismatch` means one thing: the event brought a policy
-- of the other kind of workload. No attempt's end, stop or timer ever reports it.
pub transition-policy_kind_mismatch :
    (s : ExecutionState) (e : ExecutionEvent)
    → IsValid s
    → transition s e ≡ err policy_kind_mismatch
    → (p : ExecutionRestartPolicy) × (policy_in e ≡ some p) × (same_kind_policy s.origin p ≡ false)
unfolding transition validate_policy_kind validate_stop_cause stop_deadline policy_permits
transition-policy_kind_mismatch s (launch_succeeded a at) v h = absurd (ground arith)
transition-policy_kind_mismatch s (ExecutionEvent.launch_failed a f at) v h =
    absurd (ground (arith, finish_attempt_kind s a (AttemptEnd.launch_failed f) at))
transition-policy_kind_mismatch s (process_exited a c d at) v h =
    absurd (ground (arith, finish_attempt_kind s a (AttemptEnd.exited c d) at))
transition-policy_kind_mismatch s (stop_requested c p at) v h = absurd (ground arith)
transition-policy_kind_mismatch s (restart_deadline_reached d) v h = absurd (ground arith)
transition-policy_kind_mismatch s (stop_deadline_reached d) v h = absurd (ground arith)
transition-policy_kind_mismatch s (restart_policy_changed p) v h = (p, refl, ground arith)
transition-policy_kind_mismatch s (success_exit_codes_changed cs) v h = absurd (ground arith)
transition-policy_kind_mismatch s (ExecutionEvent.supervisor_lost at) v h =
    absurd (lost_kind s.phase s at refl v.kind_fits h)
