-- ===== src/Domain/Controller/Examples.antt =====
-- A service that is started, restarted and stopped, and a job that is rerun.
use susm.Common.{◌≤◌, ◌≡◌, refl, true, List, [], ◌∷◌, length, ok, err}
use susm.Domain.Transition.{with_effects}
use susm.Domain.Execution.{completed, JobExecutionOrigin, manual, JobCancelCause}
use susm.Domain.Controller.{
  enabled, available, StoppedPhase, RunningPhase, needs_execution, active, blocked, stopped,
  running, ServiceState, ServiceCommand, ServiceControlEvent, command, execution_allocated,
  allocate_execution, never, JobActivity, idle, AfterActive, nothing, JobState, RerunDisposition,
  not_requested, JobActivityEvent, rerun_requested, cancel_requested, start_requested,
  start_execution, cancel_execution, stale_execution,
}
use susm.Domain.Controller.Service
use susm.Domain.Controller.Service.Exclusive
use susm.Domain.Controller.Service.Exclusive.{
  observe-live, observe_at_most_one, transition-targets, targets,
}
use susm.Domain.Controller.Service.Intent
use susm.Domain.Controller.Service.Intent.{
  transition-asked, transition-allocated, run_passive, run-restarts, asked, wanted, is_resting,
  restarts,
}
use susm.Domain.Controller.Job
use susm.Domain.Controller.Job.Activity
use susm.Domain.Controller.Job.Activity.{observe_job-live, run-reruns, cancel_clears_rerun, reruns}

abbrev stopped_service : ServiceState
stopped_service = record {
  definition = available 1 2;
  enablement = enabled;
  control = stopped StoppedPhase.idle;
}

abbrev day : List ServiceControlEvent
day =
    command (ServiceCommand.start 1)
    ∷ execution_allocated 1 10
    ∷ command (ServiceCommand.restart 2)
    ∷ ServiceControlEvent.execution_terminated 10 (completed 0)
    ∷ execution_allocated 2 11
    ∷ []

at_most_one_example : length (Exclusive.observe (stopped_service, []) day).1 ≤ 1
at_most_one_example = observe_at_most_one stopped_service day refl

abbrev started : Service.Step
started =
    with_effects (record stopped_service { control = running 1 needs_execution })
      (allocate_execution 1 ∷ [])

start_step : Service.transition stopped_service (command (ServiceCommand.start 1)) ≡ ok started
unfolding Service.transition
start_step = refl

abbrev allocated : Service.Step
allocated = with_effects (record stopped_service { control = running 1 (active 10) }) []

allocate_step : Service.transition started.state (execution_allocated 1 10) ≡ ok allocated
unfolding Service.transition
allocate_step = refl

abbrev blocked_service : ServiceState
blocked_service = record stopped_service { control = running 1 (blocked 10 (completed 3)) }

passive_example :
    (is_resting (Intent.run blocked_service (execution_allocated 1 12 ∷ [])).0.control ≡ true)
    × ((Intent.run blocked_service (execution_allocated 1 12 ∷ [])).1 ≡ [])
passive_example = run_passive blocked_service (execution_allocated 1 12 ∷ []) refl (refl, tt)

abbrev draining_service : ServiceState
draining_service = record stopped_service { control = running 1 (RunningPhase.draining 10) }

restarts_example :
    ((Intent.run draining_service (restarts (2 ∷ 3 ∷ []) 10 (completed 0))).0.control
      ≡ running 3 needs_execution)
    × ((Intent.run draining_service (restarts (2 ∷ 3 ∷ []) 10 (completed 0))).1
        ≡ allocate_execution 3 ∷ [])
restarts_example = run-restarts draining_service 1 (2 ∷ 3 ∷ []) 10 (completed 0) refl refl

abbrev active_job : JobState
active_job = record {
  definition = available 1 2;
  enablement = record { state = enabled; last_trigger = never };
  activity = JobActivity.active 20 nothing;
}

abbrev job_events : List JobActivityEvent
job_events =
    rerun_requested 21
    ∷ JobActivityEvent.execution_terminated 20 (completed 0) (RerunDisposition.start 22)
    ∷ start_requested 23 manual
    ∷ []

job_live_example :
    (Activity.observe (active_job, 20 ∷ []) job_events).1
    ≡ Activity.live (Activity.observe (active_job, 20 ∷ []) job_events).0.activity
job_live_example = observe_job-live active_job (20 ∷ []) job_events refl

reruns_example :
    let w = Activity.run active_job (
      reruns (21 ∷ 22 ∷ []) (
        JobActivityEvent.execution_terminated 20 (completed 0) (RerunDisposition.start 30) ∷ [])) in
    (w.0.activity ≡ JobActivity.active 30 nothing)
    × (w.1
        ≡ cancel_execution 20 JobCancelCause.rerun
          ∷ start_execution 30 (JobExecutionOrigin.rerun 20)
          ∷ [])
reruns_example = run-reruns active_job 20 21 30 (completed 0) (22 ∷ []) refl refl

abbrev rerun_job : JobState
rerun_job = record active_job { activity = JobActivity.active 20 AfterActive.rerun }

cancel_example :
    let c = Activity.kept rerun_job (Job.transition rerun_job cancel_requested) in
    let t = Activity.kept c.state (
      Job.transition c.state
        (JobActivityEvent.execution_terminated 20 (completed 0) not_requested)) in
    (c.effects ≡ cancel_execution 20 JobCancelCause.cancel ∷ [])
    × (t.state.activity ≡ idle)
    × (t.effects ≡ [])
    × (Job.transition c.state
          (JobActivityEvent.execution_terminated 20 (completed 0) (RerunDisposition.start 30))
        ≡ err stale_execution)
cancel_example = cancel_clears_rerun rerun_job 20 30 AfterActive.rerun (completed 0) refl
