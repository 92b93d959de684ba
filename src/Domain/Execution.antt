-- ===== src/Domain/Execution.antt =====
-- crates/domain/src/execution.rs: the state machine of one execution. This file has its data;
-- `Attempts` has the decision at the end of an attempt, `Events` the handlers.
pub mod Attempts
pub mod Events
pub mod Run
pub mod Publishing
pub mod Stopping
pub mod Validity
pub mod Errors
pub mod Sequence
pub mod JobBudget
pub mod Retry
mod Examples
use susm.Common.{List, ℕ, Bool, Option}
use susm.Domain.Time.{Duration, BootInstant}
use susm.Domain.Ids.{
  AttemptNumber, ExecutionConfigHash, ExecutionId, IntentRevision, ManagerSessionId,
  ProcessDefinitionHash, WorkloadId,
}
use susm.Domain.Restart.{ExecutionRestartPolicy, RetryOrdinal}

-- A `u32` as Windows reports it.
abbrev pub ExitCode : Type 0
ExitCode = ℕ

abbrev pub Win32ErrorCode : Type 0
Win32ErrorCode = ℕ

abbrev pub RetryDeadline : Type 0
RetryDeadline = BootInstant

abbrev pub StopDeadline : Type 0
StopDeadline = BootInstant

pub data JobExecutionOrigin : Type 0 where
  manual : JobExecutionOrigin
  enabled : ManagerSessionId → JobExecutionOrigin
  rerun : ExecutionId → JobExecutionOrigin

pub data ExecutionOrigin : Type 0 where
  service_intent : IntentRevision → ExecutionOrigin
  job : JobExecutionOrigin → ExecutionOrigin

pub data ServiceStopCause : Type 0 where
  stop restart manager_session_ended : ServiceStopCause

pub data JobCancelCause : Type 0 where
  cancel rerun manager_session_ended : JobCancelCause

pub data StopCause : Type 0 where
  service : ServiceStopCause → StopCause
  job : JobCancelCause → StopCause

pub data StopPlan : Type 0 where
  ctrl_break command : Duration → StopPlan
  kill : StopPlan

pub data StopPhase : Type 0 where
  awaiting_launch graceful : StopDeadline → StopPhase
  killing : StopPhase

pub data PreflightFailure : Type 0 where
  environment_variable_missing executable_not_found : PreflightFailure
  working_directory_unavailable command_line_too_long : PreflightFailure

pub data LaunchFailure : Type 0 where
  preflight : PreflightFailure → LaunchFailure
  win32 : Win32ErrorCode → LaunchFailure

pub data AttemptEnd : Type 0 where
  launch_failed : LaunchFailure → AttemptEnd
  exited : ExitCode → Duration → AttemptEnd
  killed supervisor_lost : AttemptEnd

pub data ExecutionFailure : Type 0 where
  attempt : AttemptNumber → AttemptEnd → ExecutionFailure
  supervisor_unavailable : ExecutionFailure

-- `InfrastructureFailure::SupervisorLost { attempt }`.
pub data InfrastructureFailure : Type 0 where
  supervisor_lost : AttemptNumber → InfrastructureFailure

pub data ExecutionOutcome : Type 0 where
  completed : ExitCode → ExecutionOutcome
  failed : ExecutionFailure → ExecutionOutcome
  outcome_unknown : InfrastructureFailure → ExecutionOutcome
  stopped : ServiceStopCause → Bool → ExecutionOutcome
  cancelled : JobCancelCause → Bool → ExecutionOutcome

-- The fields of `restart_backoff` are previous_attempt, previous_end, next_attempt, retry, retry_at;
-- those of `stopping` are attempt, phase, cause, plan.
pub data ExecutionPhase : Type 0 where
  launching running : AttemptNumber → ExecutionPhase
  restart_backoff :
      AttemptNumber → AttemptEnd → AttemptNumber → RetryOrdinal → RetryDeadline → ExecutionPhase
  stopping : AttemptNumber → StopPhase → StopCause → StopPlan → ExecutionPhase
  terminal : ExecutionOutcome → ExecutionPhase

pub record ExecutionState : Type 0 where
  pub id : ExecutionId
  pub workload_id : WorkloadId
  pub origin : ExecutionOrigin
  pub source_definition : ProcessDefinitionHash
  pub execution_config : ExecutionConfigHash
  pub success_exit_codes : List ExitCode
  pub restart_policy : ExecutionRestartPolicy
  pub last_retry : Option RetryOrdinal
  pub phase : ExecutionPhase

-- `launch_failed` is (attempt, failure, at), `process_exited` (attempt, exit_code, ran_for, at).
pub data ExecutionEvent : Type 0 where
  launch_succeeded : AttemptNumber → BootInstant → ExecutionEvent
  launch_failed : AttemptNumber → LaunchFailure → BootInstant → ExecutionEvent
  process_exited : AttemptNumber → ExitCode → Duration → BootInstant → ExecutionEvent
  stop_requested : StopCause → StopPlan → BootInstant → ExecutionEvent
  restart_deadline_reached : RetryDeadline → ExecutionEvent
  stop_deadline_reached : StopDeadline → ExecutionEvent
  restart_policy_changed : ExecutionRestartPolicy → ExecutionEvent
  success_exit_codes_changed : List ExitCode → ExecutionEvent
  supervisor_lost : BootInstant → ExecutionEvent

pub data ExecutionEffect : Type 0 where
  launch_attempt : AttemptNumber → ExecutionEffect
  schedule_restart : RetryDeadline → ExecutionEffect
  send_ctrl_break run_stop_command : ExecutionEffect
  schedule_stop_deadline : StopDeadline → ExecutionEffect
  terminate_job_object : ExecutionEffect
  publish_terminal : ExecutionOutcome → ExecutionEffect

pub data ExecutionTransitionError : Type 0 where
  unexpected_event stale_attempt stale_deadline : ExecutionTransitionError
  attempt_overflow retry_overflow deadline_overflow : ExecutionTransitionError
  policy_kind_mismatch : ExecutionTransitionError
