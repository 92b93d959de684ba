-- ===== src/Domain/Controller.antt =====
-- crates/domain/src/controller.rs: the controller's state for a service and for a job. This file
-- has the data; `Service` and `Job` have the transitions.
pub mod Service
pub mod Job
mod Examples
use susm.Common.{Bool, true, false}
use susm.Domain.Ids.{
  ConfigGeneration, ExecutionId, IntentRevision, ManagerSessionId, ProcessDefinitionHash,
}
use susm.Domain.Execution.{ExecutionOutcome, JobCancelCause, JobExecutionOrigin, ServiceStopCause}

pub data Enablement : Type 0 where
  disabled enabled : Enablement

pub data DefinitionState : Type 0 where
  available : ConfigGeneration → ProcessDefinitionHash → DefinitionState
  missing : DefinitionState

-- `DefinitionState::is_available`.
abbrev pub is_available : DefinitionState → Bool
is_available (available _ _) = true
is_available missing = false

pub data StoppedPhase : Type 0 where
  idle : StoppedPhase
  draining : ExecutionId → StoppedPhase

pub data RunningPhase : Type 0 where
  needs_execution : RunningPhase
  active draining : ExecutionId → RunningPhase
  blocked : ExecutionId → ExecutionOutcome → RunningPhase

pub data ServiceControl : Type 0 where
  stopped : StoppedPhase → ServiceControl
  running : IntentRevision → RunningPhase → ServiceControl

pub record ServiceState : Type 0 where
  pub definition : DefinitionState
  pub enablement : Enablement
  pub control : ServiceControl

pub data ServiceCommand : Type 0 where
  start restart : IntentRevision → ServiceCommand
  stop : ServiceCommand

pub data ServiceControlEvent : Type 0 where
  command : ServiceCommand → ServiceControlEvent
  execution_allocated : IntentRevision → ExecutionId → ServiceControlEvent
  execution_terminated : ExecutionId → ExecutionOutcome → ServiceControlEvent

pub data ServiceControlEffect : Type 0 where
  allocate_execution : IntentRevision → ServiceControlEffect
  stop_execution : ExecutionId → ServiceStopCause → ServiceControlEffect

pub data SessionTrigger : Type 0 where
  never : SessionTrigger
  triggered : ManagerSessionId → SessionTrigger

pub record JobEnablement : Type 0 where
  pub state : Enablement
  pub last_trigger : SessionTrigger

pub data AfterActive : Type 0 where
  nothing rerun : AfterActive

pub data JobActivity : Type 0 where
  idle : JobActivity
  active : ExecutionId → AfterActive → JobActivity

pub record JobState : Type 0 where
  pub definition : DefinitionState
  pub enablement : JobEnablement
  pub activity : JobActivity

pub data RerunDisposition : Type 0 where
  not_requested : RerunDisposition
  start : ExecutionId → RerunDisposition
  definition_missing : RerunDisposition

pub data JobActivityEvent : Type 0 where
  start_requested : ExecutionId → JobExecutionOrigin → JobActivityEvent
  rerun_requested : ExecutionId → JobActivityEvent
  cancel_requested : JobActivityEvent
  execution_terminated : ExecutionId → ExecutionOutcome → RerunDisposition → JobActivityEvent

pub data JobActivityEffect : Type 0 where
  start_execution : ExecutionId → JobExecutionOrigin → JobActivityEffect
  cancel_execution : ExecutionId → JobCancelCause → JobActivityEffect
  rerun_skipped_definition_missing : JobActivityEffect

pub data ControllerTransitionError : Type 0 where
  definition_missing stale_execution stale_intent_revision : ControllerTransitionError
