-- ===== src/Domain/SupervisorBinding/Events.antt =====
-- crates/domain/src/supervisor_binding.rs: `SupervisorBinding::transition`. The state afterwards is
-- `none` when there is no binding any more.
use susm.Common.{
  ◌∷◌, [], List, Option, none, some, if◌then◌else◌, ◌==◌, not, Result, ok, err, ok_or, ◌>>=◌, ◌>>◌,
}
use susm.Domain.Time.{BootInstant, checked_add_duration}
use susm.Domain.Ids.{ExecutionId, ObservationSequence}
use susm.Domain.Restart.{delay_for}
use susm.Domain.Transition.{Transition, with_effects, without_effects}
use susm.Domain.SupervisorBinding.{
  SupervisorProcessIdentity, same_process, next_process, SupervisorFailureCount, after_failure,
  failure_ordinal, SupervisorLaunchPolicy, permits_retry_after, SupervisorBinding, discovering,
  launch_pending, awaiting_handshake, attached, restart_backoff, SupervisorBindingEvent,
  discovery_attached, discovery_failed, launch_succeeded, launch_failed, handshake_accepted,
  handshake_failed, supervisor_exited, retry_deadline_reached, execution_terminated,
  SupervisorBindingEffect, launch_supervisor, arm_handshake_deadline, arm_retry_deadline,
  adopt_supervisor, request_supervisor_shutdown, report_supervisor_unavailable,
  SupervisorBindingError, unexpected_event, stale_process, stale_deadline, failure_count_overflow,
  incarnation_overflow, deadline_overflow,
}

abbrev pub Step : Type 0
Step = Transition (Option SupervisorBinding) SupervisorBindingEffect

abbrev pub Outcome : Type 0
Outcome = Result Step SupervisorBindingError

-- `if current != process { return Err(StaleProcess) }`.
check_process :
    SupervisorProcessIdentity → SupervisorProcessIdentity → Result (Unit {0}) SupervisorBindingError
check_process current process = if same_process current process then ok tt else err stale_process

on_discovery_attached :
    SupervisorBinding → SupervisorProcessIdentity → ExecutionId → ObservationSequence → Outcome
unfolding check_process
on_discovery_attached (discovering current failures _) process execution_id last_sequence = do
  check_process current process
  ok (
      with_effects (some (attached process failures last_sequence))
        (adopt_supervisor process execution_id last_sequence ∷ []))
on_discovery_attached _ process execution_id last_sequence = err unexpected_event

on_launch_succeeded :
    SupervisorBinding → SupervisorProcessIdentity → BootInstant → SupervisorLaunchPolicy → Outcome
unfolding check_process
on_launch_succeeded (launch_pending current failures) process at policy = do
  check_process current process
  deadline ← ok_or (checked_add_duration at policy.handshake_timeout) deadline_overflow
  ok (
      with_effects (some (awaiting_handshake process failures deadline))
        (arm_handshake_deadline deadline ∷ []))
on_launch_succeeded _ process at policy = err unexpected_event

on_handshake_accepted :
    SupervisorBinding → SupervisorProcessIdentity → ObservationSequence → Outcome
unfolding check_process
on_handshake_accepted (awaiting_handshake current failures _) process last_sequence = do
  check_process current process
  ok (without_effects (some (attached process failures last_sequence)))
on_handshake_accepted _ process last_sequence = err unexpected_event

-- The process and its failures, where there is a process that can fail.
running_process : SupervisorBinding → Option (SupervisorProcessIdentity × SupervisorFailureCount)
running_process (discovering process failures _) = some (process, failures)
running_process (launch_pending process failures) = some (process, failures)
running_process (awaiting_handshake process failures _) = some (process, failures)
running_process (attached process failures _) = some (process, failures)
running_process (restart_backoff _ _ _) = none

-- The part of `process_failed` after the budget has been checked.
plan_retry :
    SupervisorProcessIdentity
    → SupervisorFailureCount
    → BootInstant
    → SupervisorLaunchPolicy
    → Outcome
plan_retry process failures at policy = do
  next ← ok_or (next_process process) incarnation_overflow
  retry ← ok_or (failure_ordinal failures) failure_count_overflow
  retry_at ← ok_or (checked_add_duration at (delay_for policy.backoff retry)) deadline_overflow
  ok (
      with_effects (some (restart_backoff next failures retry_at))
        (arm_retry_deadline retry_at ∷ []))

unfoldable pub process_failed :
    SupervisorBinding → SupervisorProcessIdentity → BootInstant → SupervisorLaunchPolicy → Outcome
unfolding check_process running_process plan_retry
process_failed b process at policy = do
  (current, failures) ← ok_or (running_process b) unexpected_event
  check_process current process
  failures' ← ok_or (after_failure failures) failure_count_overflow
  if not (permits_retry_after policy failures')
      then ok (with_effects none (report_supervisor_unavailable ∷ []))
      else plan_retry process failures' at policy

on_retry_deadline : SupervisorBinding → SupervisorProcessIdentity → BootInstant → Outcome
unfolding check_process
on_retry_deadline (restart_backoff next failures retry_at) process deadline = do
  check_process next process
  if not (retry_at == deadline)
      then err stale_deadline
      else ok
          (with_effects (some (launch_pending process failures)) (launch_supervisor process ∷ []))
on_retry_deadline _ process deadline = err unexpected_event

shutdown_of : SupervisorBinding → List SupervisorBindingEffect
shutdown_of (discovering process _ _) = request_supervisor_shutdown process ∷ []
shutdown_of (awaiting_handshake process _ _) = request_supervisor_shutdown process ∷ []
shutdown_of (attached process _ _) = request_supervisor_shutdown process ∷ []
shutdown_of _ = []

-- `SupervisorBinding::terminate`.
terminate : SupervisorBinding → Step
unfolding shutdown_of
terminate b = with_effects none (shutdown_of b)

-- `SupervisorBinding::transition`.
unfoldable pub transition :
    SupervisorBinding → SupervisorBindingEvent → ExecutionId → SupervisorLaunchPolicy → Outcome
unfolding on_discovery_attached on_launch_succeeded on_handshake_accepted process_failed
    on_retry_deadline terminate
transition b (discovery_attached process last_sequence) execution_id policy =
    on_discovery_attached b process execution_id last_sequence
transition b (discovery_failed process at _) execution_id policy =
    process_failed b process at policy
transition b (handshake_failed process at _) execution_id policy =
    process_failed b process at policy
transition b (supervisor_exited process at) execution_id policy = process_failed b process at policy
transition b (launch_succeeded process at) execution_id policy =
    on_launch_succeeded b process at policy
transition b (launch_failed process at) execution_id policy = process_failed b process at policy
transition b (handshake_accepted process last_sequence) execution_id policy =
    on_handshake_accepted b process last_sequence
transition b (retry_deadline_reached process deadline) execution_id policy =
    on_retry_deadline b process deadline
transition b execution_terminated execution_id policy = ok (terminate b)
