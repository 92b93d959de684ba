-- ===== src/Manager/History.antt =====
-- crates/controller/src/manager.rs: the manager's methods as steps, and histories of them.
use Prim.Native.String.{String}
use susm.Common.{ℕ, zero, suc, Bool, Option, none, some, List, [], ◌∷◌}
use susm.Protocol.{ExecutionConfiguration}
use susm.Manager.{Setting, Task, Manager}
use susm.Manager.Lifecycle.{start_service, run_job}
use susm.Manager.Stopping.{stop_service, restart_service, cancel_job, rerun_job}
use susm.Manager.Supervisors.{SupervisorObservation, supervisor_launched, supervisor_disconnected}
use susm.Manager.Attaching.{attach_supervisor}
use susm.Manager.Reports.{record_supervisor_observation}
use susm.Manager.Completion.{ExecutionFinish, supervisor_terminal, complete_execution}
use susm.Manager.Sessions.{end_session, set_enabled, start_enabled, recovery_expired}
use susm.Manager.Reconcile.{reload}

-- A call of a method, with what it takes from outside: the new UUIDs and the clock, which is past 1970.
-- A task is named by its place in the list of tasks.
pub data Call : Type 0 where
  service_start job_run job_rerun : String → String → ℕ → Call
  service_stop service_restart job_cancel : String → Call
  enablement : String → Bool → Call
  startup : (String → String) → ℕ → Call
  session_end : Call
  reloading : List ℕ → List ExecutionConfiguration → Call
  attachment : String → String → String → List ℕ → ℕ → String → Call
  disconnection : String → String → Call
  observation : String → SupervisorObservation → String → ℕ → Call
  attempt_result : String → String → Option ℕ → String → String → ℕ → Call
  process_started : ℕ → ℕ → Call
  task_ended : ℕ → ExecutionFinish → String → ℕ → Call
  recovery_timeout : String → Call

unfoldable pub task_at : ℕ → List Task → Option Task
task_at n [] = none
task_at zero (t ∷ ts) = some t
task_at (suc n) (t ∷ ts) = task_at n ts

module _ (x : Setting) where
  unfoldable pub start_process : ℕ → Manager → Option Task → Manager
  start_process process_id m none = m
  start_process process_id m (some t) =
      supervisor_launched t.workload_id t.execution_id process_id m

  unfoldable pub end_task : ExecutionFinish → String → ℕ → Manager → Option Task → Manager
  end_task f fresh now m none = m
  end_task f fresh now m (some t) =
      complete_execution x t.workload_id t.execution_id f fresh (suc now) m

  unfoldable pub step : Call → Manager → Manager
  unfolding start_process end_task
  step (service_start id fresh now) m = (start_service x id fresh (suc now) m).1
  step (job_run id fresh now) m = (run_job x id fresh (suc now) m).1
  step (job_rerun id fresh now) m = (rerun_job x id fresh (suc now) m).1
  step (service_stop id) m = (stop_service id m).1
  step (service_restart id) m = (restart_service id m).1
  step (job_cancel id) m = (cancel_job id m).1
  step (enablement id enabled) m = (set_enabled id enabled m).1
  step (startup fresh now) m = start_enabled x fresh (suc now) m
  step session_end m = end_session m
  step (reloading generation definitions) m = (reload x generation definitions m).1
  step (attachment e id session hash process_id fresh) m =
      (attach_supervisor x e id session hash process_id fresh m).1
  step (disconnection e a) m = supervisor_disconnected e a m
  step (observation e o fresh now) m = (record_supervisor_observation x e o fresh (suc now) m).1
  step (attempt_result e outcome code error fresh now) m =
      (supervisor_terminal x e outcome code error fresh (suc now) m).1
  step (process_started n process_id) m = start_process process_id m (task_at n m.tasks)
  step (task_ended n f fresh now) m = end_task f fresh now m (task_at n m.tasks)
  step (recovery_timeout e) m = recovery_expired x e m

  unfoldable pub steps : List Call → Manager → Manager
  steps [] m = m
  steps (c ∷ cs) m = steps cs (step c m)
