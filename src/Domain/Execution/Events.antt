-- ===== src/Domain/Execution/Events.antt =====
-- crates/domain/src/execution.rs: `ExecutionState::transition` and its handlers, one for an event.
use susm.Common.{Bool, true, false, ◌∷◌, [], if◌then◌else◌, ◌==◌, Result, ok, err, ◌>>=◌, ◌>>◌}
use susm.Domain.Time.{Duration, BootInstant}
use susm.Domain.Ids.{AttemptNumber}
use susm.Domain.Restart.{ExecutionRestartPolicy}
use susm.Domain.Transition.{with_effects, without_effects}
use susm.Domain.Execution.{
  ExitCode, RetryDeadline, StopDeadline, ExecutionOrigin, service_intent, StopCause, StopPlan,
  ctrl_break, command, kill, StopPhase, awaiting_launch, graceful, killing, LaunchFailure,
  launch_failed, exited, supervisor_lost, InfrastructureFailure, outcome_unknown, ExecutionPhase,
  launching, running, restart_backoff, stopping, terminal, ExecutionState, ExecutionEvent,
  launch_succeeded, process_exited, stop_requested, restart_deadline_reached, stop_deadline_reached,
  restart_policy_changed, success_exit_codes_changed, ExecutionEffect, launch_attempt,
  send_ctrl_break, run_stop_command, schedule_stop_deadline, terminate_job_object,
  ExecutionTransitionError, unexpected_event, stale_attempt, stale_deadline,
}
use susm.Domain.Execution.Attempts.{
  Step, finish, finish_stop, finish_terminal, stop_deadline, validate_stop_cause,
  validate_policy_kind, policy_permits, finish_attempt,
}

abbrev pub Outcome : Type 0
Outcome = Result Step ExecutionTransitionError

-- The stop effect of a plan, with `Err` for the kill plan that no launch waits for.
stop_on_launch : ExecutionState → StopPlan → Outcome
stop_on_launch s (ctrl_break timeout) = ok (with_effects s (send_ctrl_break ∷ []))
stop_on_launch s (command timeout) = ok (with_effects s (run_stop_command ∷ []))
stop_on_launch s kill = err unexpected_event

launch_succeeded_in : ExecutionPhase → ExecutionState → AttemptNumber → Outcome
unfolding stop_on_launch
launch_succeeded_in (launching current) s attempt =
    if current == attempt
    then ok (without_effects (record s { phase = running attempt }))
    else err stale_attempt
launch_succeeded_in (stopping current (awaiting_launch deadline) cause plan) s attempt =
    if current == attempt
    then stop_on_launch (record s { phase = stopping attempt (graceful deadline) cause plan }) plan
    else err stale_attempt
launch_succeeded_in (stopping current phase cause plan) s attempt =
    if current == attempt then err unexpected_event else err stale_attempt
launch_succeeded_in phase s attempt = err unexpected_event

launch_failed_in :
    ExecutionPhase → ExecutionState → AttemptNumber → LaunchFailure → BootInstant → Outcome
launch_failed_in (launching current) s attempt failure at =
    if current == attempt
    then finish_attempt s attempt (launch_failed failure) at
    else err stale_attempt
launch_failed_in (stopping current phase cause plan) s attempt failure at =
    if current == attempt then ok (finish_stop s cause false) else err stale_attempt
launch_failed_in phase s attempt failure at = err unexpected_event

-- `matches!(phase, StopPhase::Killing)`.
abbrev is_killing : StopPhase → Bool
is_killing killing = true
is_killing _ = false

process_exited_in :
    ExecutionPhase → ExecutionState → AttemptNumber → ExitCode → Duration → BootInstant → Outcome
process_exited_in (running current) s attempt exit_code ran_for at =
    if current == attempt
    then finish_attempt s attempt (exited exit_code ran_for) at
    else err stale_attempt
process_exited_in (stopping current phase cause plan) s attempt exit_code ran_for at =
    if current == attempt then ok (finish_stop s cause (is_killing phase)) else err stale_attempt
process_exited_in phase s attempt exit_code ran_for at = err unexpected_event

kill_now : ExecutionState → AttemptNumber → StopCause → StopPlan → Outcome
kill_now s attempt cause plan = ok (
    with_effects (record s { phase = stopping attempt killing cause plan })
      (terminate_job_object ∷ []))

-- A stop before the launch is known: the deadline is set, the stop itself waits.
stop_launching :
    ExecutionState → AttemptNumber → StopCause → StopPlan → BootInstant → Duration → Outcome
stop_launching s attempt cause plan at timeout = do
  deadline ← stop_deadline at timeout
  ok (
      with_effects (record s { phase = stopping attempt (awaiting_launch deadline) cause plan })
        (schedule_stop_deadline deadline ∷ []))

stop_running :
    ExecutionState
    → AttemptNumber
    → StopCause
    → StopPlan
    → BootInstant
    → Duration
    → ExecutionEffect
    → Outcome
stop_running s attempt cause plan at timeout stop_effect = do
  deadline ← stop_deadline at timeout
  ok (
      with_effects (record s { phase = stopping attempt (graceful deadline) cause plan })
        (stop_effect ∷ schedule_stop_deadline deadline ∷ []))

stop_requested_in : ExecutionPhase → ExecutionState → StopCause → StopPlan → BootInstant → Outcome
unfolding kill_now stop_launching stop_running
stop_requested_in (launching attempt) s cause kill at = kill_now s attempt cause kill
stop_requested_in (launching attempt) s cause (ctrl_break timeout) at =
    stop_launching s attempt cause (ctrl_break timeout) at timeout
stop_requested_in (launching attempt) s cause (command timeout) at =
    stop_launching s attempt cause (command timeout) at timeout
stop_requested_in (running attempt) s cause kill at = kill_now s attempt cause kill
stop_requested_in (running attempt) s cause (ctrl_break timeout) at =
    stop_running s attempt cause (ctrl_break timeout) at timeout send_ctrl_break
stop_requested_in (running attempt) s cause (command timeout) at =
    stop_running s attempt cause (command timeout) at timeout run_stop_command
stop_requested_in (restart_backoff _ _ _ _ _) s cause plan at = ok (finish_stop s cause false)
stop_requested_in phase s cause plan at = ok (without_effects s)

restart_deadline_reached_in : ExecutionPhase → ExecutionState → RetryDeadline → Outcome
restart_deadline_reached_in (restart_backoff _ _ next _ retry_at) s deadline =
    if retry_at == deadline
    then ok (with_effects (record s { phase = launching next }) (launch_attempt next ∷ []))
    else err stale_deadline
restart_deadline_reached_in phase s deadline = err unexpected_event

escalate :
    ExecutionState → AttemptNumber → StopDeadline → StopCause → StopPlan → StopDeadline → Outcome
escalate s attempt current cause plan deadline =
    if current == deadline
    then ok (
        with_effects (record s { phase = stopping attempt killing cause plan })
          (terminate_job_object ∷ []))
    else err stale_deadline

stop_deadline_reached_in : ExecutionPhase → ExecutionState → StopDeadline → Outcome
unfolding escalate
stop_deadline_reached_in (stopping attempt (awaiting_launch current) cause plan) s deadline =
    escalate s attempt current cause plan deadline
stop_deadline_reached_in (stopping attempt (graceful current) cause plan) s deadline =
    escalate s attempt current cause plan deadline
stop_deadline_reached_in (stopping attempt killing cause plan) s deadline = ok (without_effects s)
stop_deadline_reached_in phase s deadline = err unexpected_event

reconsider_in : ExecutionPhase → ExecutionState → Outcome
reconsider_in (restart_backoff previous_attempt previous_end _ retry _) s = do
  permitted ← policy_permits s previous_end retry
  ok (if permitted then without_effects s else finish_terminal s previous_attempt previous_end)
reconsider_in phase s = ok (without_effects s)

-- `ExecutionState::reconsider_backoff`.
reconsider_backoff : ExecutionState → Outcome
unfolding reconsider_in
reconsider_backoff s = reconsider_in s.phase s

change_policy : ExecutionState → ExecutionRestartPolicy → Outcome
unfolding reconsider_backoff
change_policy s policy = do
  validate_policy_kind s policy
  reconsider_backoff (record s { restart_policy = policy })

lose_attempt : ExecutionOrigin → ExecutionState → AttemptNumber → BootInstant → Outcome
lose_attempt (ExecutionOrigin.job _) s attempt at =
    ok (finish s (outcome_unknown (InfrastructureFailure.supervisor_lost attempt)))
lose_attempt (service_intent _) s attempt at = finish_attempt s attempt supervisor_lost at

supervisor_lost_at : ExecutionPhase → ExecutionState → BootInstant → Outcome
unfolding lose_attempt
supervisor_lost_at (launching attempt) s at = lose_attempt s.origin s attempt at
supervisor_lost_at (running attempt) s at = lose_attempt s.origin s attempt at
supervisor_lost_at (stopping _ _ cause _) s at = ok (finish_stop s cause true)
supervisor_lost_at (restart_backoff _ _ _ _ _) s at = err unexpected_event
supervisor_lost_at (terminal _) s at = ok (without_effects s)

-- `ExecutionState::transition`.
unfoldable pub transition : ExecutionState → ExecutionEvent → Outcome
unfolding launch_succeeded_in launch_failed_in process_exited_in stop_requested_in
    restart_deadline_reached_in stop_deadline_reached_in change_policy supervisor_lost_at
transition s (launch_succeeded attempt _) = launch_succeeded_in s.phase s attempt
transition s (ExecutionEvent.launch_failed attempt failure at) =
    launch_failed_in s.phase s attempt failure at
transition s (process_exited attempt exit_code ran_for at) =
    process_exited_in s.phase s attempt exit_code ran_for at
transition s (stop_requested cause plan at) = do
  validate_stop_cause s cause
  stop_requested_in s.phase s cause plan at
transition s (restart_deadline_reached deadline) = restart_deadline_reached_in s.phase s deadline
transition s (stop_deadline_reached deadline) = stop_deadline_reached_in s.phase s deadline
transition s (restart_policy_changed policy) = change_policy s policy
transition s (success_exit_codes_changed codes) =
    reconsider_backoff (record s { success_exit_codes = codes })
transition s (ExecutionEvent.supervisor_lost at) = supervisor_lost_at s.phase s at
