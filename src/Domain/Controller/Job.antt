-- ===== src/Domain/Controller/Job.antt =====
-- crates/domain/src/controller.rs: `JobState::transition`.
pub mod Activity
use susm.Common.{◌∷◌, [], List, if◌then◌else◌, not, ◌==◌, Result, ok, err}
use susm.Domain.Ids.{ExecutionId}
use susm.Domain.Transition.{Transition, with_effects}
use susm.Domain.Execution.{ExecutionOutcome, JobCancelCause, JobExecutionOrigin, manual}
use susm.Domain.Controller.{
  is_available, AfterActive, nothing, JobActivity, idle, active, JobState, RerunDisposition,
  not_requested, JobActivityEvent, start_requested, rerun_requested, cancel_requested,
  execution_terminated, JobActivityEffect, start_execution, cancel_execution,
  rerun_skipped_definition_missing, ControllerTransitionError, stale_execution,
}

abbrev pub Step : Type 0
Step = Transition JobState JobActivityEffect

abbrev pub Outcome : Type 0
Outcome = Result Step ControllerTransitionError

-- The new activity with its effects, put into the state.
abbrev set_activity : JobState → JobActivity × List JobActivityEffect → Step
set_activity s a = with_effects (record s { activity = a.0 }) a.1

start_from : JobActivity → ExecutionId → JobExecutionOrigin → JobActivity × List JobActivityEffect
start_from idle execution_id origin =
    (active execution_id nothing, start_execution execution_id origin ∷ [])
start_from (active current after) execution_id origin = (active current after, [])

rerun_from : JobActivity → ExecutionId → JobActivity × List JobActivityEffect
rerun_from idle if_idle = (active if_idle nothing, start_execution if_idle manual ∷ [])
rerun_from (active current nothing) if_idle =
    (active current AfterActive.rerun, cancel_execution current JobCancelCause.rerun ∷ [])
rerun_from (active current AfterActive.rerun) if_idle = (active current AfterActive.rerun, [])

cancel_from : JobActivity → JobActivity × List JobActivityEffect
cancel_from idle = (idle, [])
cancel_from (active current after) =
    (active current nothing, cancel_execution current JobCancelCause.cancel ∷ [])

-- `match (after, rerun)`.
ended : JobState → ExecutionId → AfterActive → RerunDisposition → Outcome
ended s execution_id nothing not_requested = ok (set_activity s (idle, []))
ended s execution_id AfterActive.rerun RerunDisposition.definition_missing =
    ok (set_activity s (idle, rerun_skipped_definition_missing ∷ []))
ended s execution_id AfterActive.rerun (RerunDisposition.start next) = ok (
    set_activity s
      (active next nothing, start_execution next (JobExecutionOrigin.rerun execution_id) ∷ []))
ended s execution_id after disposition = err stale_execution

terminated_in : JobActivity → JobState → ExecutionId → RerunDisposition → Outcome
unfolding ended
terminated_in (active current after) s execution_id disposition =
    if current == execution_id then ended s execution_id after disposition else err stale_execution
terminated_in idle s execution_id disposition = err stale_execution

-- `JobState::transition`.
unfoldable pub transition : JobState → JobActivityEvent → Outcome
unfolding start_from rerun_from cancel_from terminated_in
transition s (start_requested execution_id origin) =
    if not (is_available s.definition)
    then err ControllerTransitionError.definition_missing
    else ok (set_activity s (start_from s.activity execution_id origin))
transition s (rerun_requested execution_id_if_idle) =
    if not (is_available s.definition)
    then err ControllerTransitionError.definition_missing
    else ok (set_activity s (rerun_from s.activity execution_id_if_idle))
transition s cancel_requested = ok (set_activity s (cancel_from s.activity))
transition s (execution_terminated execution_id outcome disposition) =
    terminated_in s.activity s execution_id disposition
