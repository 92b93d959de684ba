-- ===== src/Domain/Controller/Service.antt =====
-- crates/domain/src/controller.rs: `ServiceState::transition`.
pub mod Intent
pub mod Exclusive
use susm.Common.{◌∷◌, [], List, if◌then◌else◌, not, ◌==◌, Result, ok, err}
use susm.Domain.Ids.{ExecutionId, IntentRevision}
use susm.Domain.Transition.{Transition, with_effects, without_effects}
use susm.Domain.Execution.{ExecutionOutcome, ServiceStopCause}
use susm.Domain.Controller.{
  is_available, StoppedPhase, RunningPhase, needs_execution, active, blocked, ServiceControl,
  stopped, running, ServiceState, ServiceCommand, ServiceControlEvent, command, execution_allocated,
  execution_terminated, ServiceControlEffect, allocate_execution, stop_execution,
  ControllerTransitionError, definition_missing, stale_execution, stale_intent_revision,
}

abbrev pub Step : Type 0
Step = Transition ServiceState ServiceControlEffect

abbrev pub Outcome : Type 0
Outcome = Result Step ControllerTransitionError

-- The new control with its effects, put into the state.
abbrev set_control : ServiceState → ServiceControl × List ServiceControlEffect → Step
set_control s c = with_effects (record s { control = c.0 }) c.1

start_from : ServiceControl → IntentRevision → ServiceControl × List ServiceControlEffect
start_from (stopped StoppedPhase.idle) revision =
    (running revision needs_execution, allocate_execution revision ∷ [])
start_from (running _ (blocked _ _)) revision =
    (running revision needs_execution, allocate_execution revision ∷ [])
start_from (stopped (StoppedPhase.draining execution_id)) revision =
    (running revision (RunningPhase.draining execution_id), [])
start_from (running current phase) revision = (running current phase, [])

restart_from : ServiceControl → IntentRevision → ServiceControl × List ServiceControlEffect
restart_from (stopped StoppedPhase.idle) revision =
    (running revision needs_execution, allocate_execution revision ∷ [])
restart_from (running _ needs_execution) revision =
    (running revision needs_execution, allocate_execution revision ∷ [])
restart_from (running _ (blocked _ _)) revision =
    (running revision needs_execution, allocate_execution revision ∷ [])
restart_from (stopped (StoppedPhase.draining execution_id)) revision =
    (running revision (RunningPhase.draining execution_id), [])
restart_from (running _ (RunningPhase.draining execution_id)) revision =
    (running revision (RunningPhase.draining execution_id), [])
restart_from (running _ (active execution_id)) revision = (
  running revision (RunningPhase.draining execution_id),
  stop_execution execution_id ServiceStopCause.restart ∷ [],
)

stop_from : ServiceControl → ServiceControl × List ServiceControlEffect
stop_from (stopped phase) = (stopped phase, [])
stop_from (running _ (active execution_id)) = (
  stopped (StoppedPhase.draining execution_id),
  stop_execution execution_id ServiceStopCause.stop ∷ [],
)
stop_from (running _ (RunningPhase.draining execution_id)) = (
  stopped (StoppedPhase.draining execution_id),
  stop_execution execution_id ServiceStopCause.stop ∷ [],
)
stop_from (running _ needs_execution) = (stopped StoppedPhase.idle, [])
stop_from (running _ (blocked _ _)) = (stopped StoppedPhase.idle, [])

-- `ServiceState::command`.
on_command : ServiceState → ServiceCommand → Outcome
unfolding start_from restart_from stop_from
on_command s (ServiceCommand.start revision) =
    if not (is_available s.definition)
    then err definition_missing
    else ok (set_control s (start_from s.control revision))
on_command s (ServiceCommand.restart revision) =
    if not (is_available s.definition)
    then err definition_missing
    else ok (set_control s (restart_from s.control revision))
on_command s ServiceCommand.stop = ok (set_control s (stop_from s.control))

allocated_in : ServiceControl → ServiceState → IntentRevision → ExecutionId → Outcome
allocated_in (running current needs_execution) s revision execution_id =
    if current == revision
    then ok (without_effects (record s { control = running revision (active execution_id) }))
    else err stale_intent_revision
allocated_in (running current phase) s revision execution_id =
    if current == revision then err stale_execution else err stale_intent_revision
allocated_in (stopped phase) s revision execution_id = err stale_execution

terminated_in : ServiceControl → ServiceState → ExecutionId → ExecutionOutcome → Outcome
terminated_in (stopped (StoppedPhase.draining current)) s execution_id outcome =
    if current == execution_id
    then ok (without_effects (record s { control = stopped StoppedPhase.idle }))
    else err stale_execution
terminated_in (running revision (active current)) s execution_id outcome =
    if current == execution_id
    then ok
        (without_effects (record s { control = running revision (blocked execution_id outcome) }))
    else err stale_execution
terminated_in (running revision (RunningPhase.draining current)) s execution_id outcome =
    if current == execution_id
    then ok (
        with_effects (record s { control = running revision needs_execution })
          (allocate_execution revision ∷ []))
    else err stale_execution
terminated_in control s execution_id outcome = err stale_execution

-- `ServiceState::transition`.
unfoldable pub transition : ServiceState → ServiceControlEvent → Outcome
unfolding on_command allocated_in terminated_in
transition s (command c) = on_command s c
transition s (execution_allocated revision execution_id) =
    allocated_in s.control s revision execution_id
transition s (execution_terminated execution_id outcome) =
    terminated_in s.control s execution_id outcome
