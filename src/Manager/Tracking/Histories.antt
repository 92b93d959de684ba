-- ===== src/Manager/Tracking/Histories.antt =====
-- crates/controller/src/manager.rs: whole histories, by the active executions and the rows of the storage.
use Prim.Native.String.{String}
use text.Mathlib.Text.{◌==◌ as str_eq}
use susm.Common.{ℕ, zero, suc, true, false, Option, none, some, List, [], ◌∷◌, All}
use susm.Common.Maps.{lookup}
use susm.Manager.{Setting, ActiveExecution, Task, Manager}
use susm.Manager.Lifecycle.{start_service, run_job}
use susm.Manager.Stopping.{rerun_job, rerun_active, stop_service, restart_service, cancel_job}
use susm.Manager.Sessions.{start_enabled, start_all, trigger_all, trigger_in, enabled_of}
use susm.Manager.Completion.{ExecutionFinish}
use susm.Manager.History.{
  Call, service_start, job_run, job_rerun, service_stop, service_restart, job_cancel, enablement,
  startup, session_end, reloading, attachment, disconnection, observation, attempt_result,
  process_started, task_ended, recovery_timeout, task_at, start_process, end_task, step, steps,
}
use susm.Manager.Tracking.{IsTracking, IsTaskOf}
use susm.Manager.Tracking.Starting.{Decodes}
use susm.Manager.Tracking.Starts.{start-IsTracking, if-Manager}
use susm.Manager.Tracking.Steps.{cancel-IsTracking, end_session-IsTracking, set_enabled-IsTracking}
use susm.Manager.Tracking.Attachments.{
  supervisor_launched-IsTracking, disconnected-IsTracking, attach-IsTracking, reload-IsTracking,
}
use susm.Manager.Tracking.Recovery.{recovery-IsTracking}
use susm.Manager.Tracking.Reports.Ends.{complete-IsTracking, terminal-IsTracking}
use susm.Manager.Tracking.Reports.Observations.{record-IsTracking}

module _ (x : Setting) (decodes : Decodes x) where
  rerun-IsTracking :
      (id fresh : String) (now : ℕ) (m : Manager) (a : Option ActiveExecution)
      → IsTracking x m
      → IsTracking x (rerun_active x id fresh now m a).1
  unfolding rerun_active
  rerun-IsTracking id fresh now m none t =
      start-IsTracking x decodes id fresh now "job" true none m t
  rerun-IsTracking id fresh now m (some a) t = cancel-IsTracking x id "job" true m t

  start_all-IsTracking :
      (ids : List String) (fresh : String → String) (now : ℕ) (m : Manager)
      → IsTracking x m
      → IsTracking x (start_all x ids fresh now m)
  unfolding start_all start_service
  start_all-IsTracking [] fresh now m t = t
  start_all-IsTracking (id ∷ ids) fresh now m t =
      start_all-IsTracking ids fresh now _
        (start-IsTracking x decodes id (fresh id) now "service" false none m t)

  trigger_all-IsTracking :
      (ids : List String) (fresh : String → String) (now : ℕ) (session : String) (m : Manager)
      → IsTracking x m
      → IsTracking x (trigger_all x ids fresh now session m)
  unfolding trigger_all
  trigger_all-IsTracking [] fresh now session m t = t
  trigger_all-IsTracking (id ∷ ids) fresh now session m t =
      trigger_all-IsTracking ids fresh now session _
        (start-IsTracking x decodes id (fresh id) now "job" true (some session) m t)

  trigger_in-IsTracking :
      (ids : List String) (fresh : String → String) (now : ℕ) (session : Option String)
      (m : Manager)
      → IsTracking x m
      → IsTracking x (trigger_in x ids fresh now session m)
  unfolding trigger_in
  trigger_in-IsTracking ids fresh now none m t = t
  trigger_in-IsTracking ids fresh now (some session) m t =
      if-Manager x (str_eq session "") m _ t (trigger_all-IsTracking ids fresh now session m t)

  process-IsTracking :
      (process_id : ℕ) (m : Manager) (task : Option Task)
      → IsTracking x m
      → IsTracking x (start_process x process_id m task)
  unfolding start_process
  process-IsTracking process_id m none t = t
  process-IsTracking process_id m (some task) t =
      supervisor_launched-IsTracking x task.workload_id task.execution_id process_id m t

  end_at-IsTracking :
      (n : ℕ) (tasks : List Task) (f : ExecutionFinish) (fresh : String) (now : ℕ) (m : Manager)
      → All (IsTaskOf m.tables.executions) tasks
      → IsTracking x m
      → IsTracking x (end_task x f fresh now m (task_at n tasks))
  unfolding end_task task_at
  end_at-IsTracking n [] f fresh now m ts t = t
  end_at-IsTracking zero (task ∷ tasks) f fresh now m (own, ts) t =
      complete-IsTracking x decodes task.workload_id task.execution_id f fresh now m own t
  end_at-IsTracking (suc n) (task ∷ tasks) f fresh now m (own, ts) t =
      end_at-IsTracking n tasks f fresh now m ts t

  step-IsTracking : (c : Call) (m : Manager) → IsTracking x m → IsTracking x (step x c m)
  unfolding step IsTracking start_service run_job rerun_job stop_service restart_service cancel_job
      start_enabled
  step-IsTracking (service_start id fresh now) m t =
      start-IsTracking x decodes id fresh (suc now) "service" false none m t
  step-IsTracking (job_run id fresh now) m t =
      start-IsTracking x decodes id fresh (suc now) "job" true none m t
  step-IsTracking (job_rerun id fresh now) m t =
      rerun-IsTracking id fresh (suc now) m (lookup id m.state.active) t
  step-IsTracking (service_stop id) m t = cancel-IsTracking x id "service" false m t
  step-IsTracking (service_restart id) m t = cancel-IsTracking x id "service" true m t
  step-IsTracking (job_cancel id) m t = cancel-IsTracking x id "job" false m t
  step-IsTracking (enablement id enabled) m t = set_enabled-IsTracking x id enabled m t
  step-IsTracking (startup fresh now) m t =
      trigger_in-IsTracking (enabled_of "job" m.state.workloads) fresh (suc now)
        x.manager_session_id _
        (start_all-IsTracking (enabled_of "service" m.state.workloads) fresh (suc now) m t)
  step-IsTracking session_end m t = end_session-IsTracking x m t
  step-IsTracking (reloading generation definitions) m t =
      reload-IsTracking x generation definitions m t
  step-IsTracking (attachment e id session hash process_id fresh) m t =
      attach-IsTracking x e id session hash process_id fresh m t
  step-IsTracking (disconnection e a) m t = disconnected-IsTracking x e a m t
  step-IsTracking (observation e o fresh now) m t = record-IsTracking x decodes o e fresh now m t
  step-IsTracking (attempt_result e outcome code error fresh now) m t =
      terminal-IsTracking x decodes e outcome code error fresh now m t
  step-IsTracking (process_started n process_id) m t =
      process-IsTracking process_id m (task_at n m.tasks) t
  step-IsTracking (task_ended n f fresh now) m t =
      end_at-IsTracking n m.tasks f fresh now m t.known t
  step-IsTracking (recovery_timeout e) m t = recovery-IsTracking x e m t

  -- The active executions are those that have not ended in the storage: after any calls of the manager's
  -- methods, in any order and with any outcome, a workload's active execution is one of its rows that has
  -- no end, and every row of the workload that has no end is its active execution, so that there is at
  -- most one. The condition is that it is so before the calls, and that every encoded snapshot can be
  -- decoded.
  pub steps-IsTracking :
      (cs : List Call) (m : Manager) → IsTracking x m → IsTracking x (steps x cs m)
  unfolding steps
  steps-IsTracking [] m t = t
  steps-IsTracking (c ∷ cs) m t = steps-IsTracking cs (step x c m) (step-IsTracking c m t)
