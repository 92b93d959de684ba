-- ===== src/Manager/Ending/Histories.antt =====
-- crates/controller/src/manager.rs: whole histories, when the session is ending.
use Prim.Native.String.{String}
use text.Mathlib.Text.{◌==◌ as str_eq}
use susm.Common.{
  ℕ, suc, ◌≡◌, refl, Bool, true, false, ◌&&◌, ◌||◌, not, Option, none, some, List, [], ◌∷◌,
  Bool-cases, inl, inr, if◌then◌else◌, Result, ok, err, map,
}
use susm.Common.Maps.{lookup}
use susm.Protocol.{ExecutionConfiguration}
use susm.Storage.{StoredExecution, Tables, StorageError, NewDefinition, ObservationUpdate}
use susm.Storage.Operations.{replace_definitions, commit_observation, updated, get_execution}
use susm.Manager.{Setting, ActiveExecution, Manager, State, Task, bump}
use susm.Manager.Lifecycle.{start_service, run_job}
use susm.Manager.Stopping.{rerun_job, stop_service, restart_service, cancel_job}
use susm.Manager.Supervisors.{matching, find_execution, retired, SupervisorObservation}
use susm.Manager.Reports.{
  record_supervisor_observation, record_stored, record_committed, end_recorded, ended_in,
  end_active, observe_active, terminal_for, update_for, progress_for, is_terminal_update,
  is_applied, is_progress,
}
use susm.Manager.Completion.{ExecutionFinish}
use susm.Manager.Sessions.{
  start_enabled, enabled_of, recovery_expired, recover_stored, recover_decoded, recover_found,
}
use susm.Manager.Reconcile.{
  reload, reload_checked, reload_stored, reloaded, reconcile_reload, take_over, stored_definition,
  kind_change,
}
use susm.Manager.History.{
  Call, service_start, job_run, job_rerun, service_stop, service_restart, job_cancel, enablement,
  startup, session_end, reloading, attachment, disconnection, observation, attempt_result,
  process_started, task_ended, recovery_timeout, task_at, start_process, end_task, step, steps,
}
use susm.Manager.Tracking.Reports.{committed-rows, refused-tables}
use susm.Manager.Tracking.Attachments.{replaced-executions}
use susm.Manager.Ending.{
  IsQuiet, absent-adjust, replaced-IsQuiet, started-IsQuiet, start_all-IsQuiet, trigger_in-IsQuiet,
  cancel-IsQuiet, rerun-IsQuiet, end_session-IsQuiet, set_enabled-IsQuiet,
}
use susm.Manager.Ending.Reports.{
  launched-IsQuiet, disconnected-IsQuiet, attach-IsQuiet, complete-IsQuiet, terminal-IsQuiet,
}

module _ (x : Setting) (id : String) where
  observed-ending :
      (o : SupervisorObservation) (w : String) (s : State) (a : Option ActiveExecution)
      → s.session_ending ≡ true
      → (observe_active x o w s a).session_ending ≡ true
  unfolding observe_active bump
  observed-ending o w s none h = h
  observed-ending o w s (some a) h =
      elim (Bool-cases (is_applied x o a || is_progress (progress_for o))) [
        | inl k ↦ rw (k) h
        | inr k ↦ rw (k) h
      ]

  ended-IsQuiet :
      (e fresh : String) (now : ℕ) (stored : StoredExecution) (outcome : String) (m : Manager)
      (a : Option ActiveExecution)
      → IsQuiet id m
      → IsQuiet id
          (ended_in x e fresh now stored m (end_active stored.workload_id outcome m.state a))
  unfolding ended_in end_active retired bump
  ended-IsQuiet e fresh now stored outcome m none q =
      replaced-IsQuiet x id stored.workload_id fresh now false m q
  ended-IsQuiet e fresh now stored outcome m (some a) q =
      replaced-IsQuiet x id stored.workload_id fresh now
        (not m.state.session_ending && a.restart_after) _
        (record { ending = q.ending; absent = q.absent })

  recorded-IsQuiet :
      (o : SupervisorObservation) (e fresh : String) (now : ℕ) (stored : StoredExecution)
      (m : Manager) (c : Option ExecutionConfiguration)
      → IsQuiet id m
      → IsQuiet id (end_recorded x o e fresh now stored m c).1
  unfolding end_recorded
  recorded-IsQuiet o e fresh now stored m none q = q
  recorded-IsQuiet o e fresh now stored m (some c) q =
      ended-IsQuiet e fresh now stored o.kind m
        (matching e (lookup stored.workload_id m.state.active)) q

  committed-IsQuiet :
      (o : SupervisorObservation) (e fresh : String) (now : ℕ) (stored : StoredExecution)
      (terminal : Bool) (u : ObservationUpdate) (m : Manager)
      (result : Result (Bool × Tables) StorageError)
      → commit_observation e o.sequence u m.tables ≡ result
      → IsQuiet id m
      → IsQuiet id (record_committed x o e fresh now stored terminal m result).1
  unfolding record_committed
  committed-IsQuiet o e fresh now stored terminal u m (err error) h q = q
  committed-IsQuiet o e fresh now stored terminal u m (ok (false, tables)) h q =
      rw (refused-tables e o.sequence u m.tables {next = tables} h) q
  committed-IsQuiet o e fresh now stored true u m (ok (true, tables)) h q =
      recorded-IsQuiet o e fresh now stored (record m { tables = tables })
        (x.decode stored.snapshot)
        (record {
          ending = q.ending;
          absent =
              rw (committed-rows e o.sequence u m.tables {next = tables} h)
                (absent-adjust id e (updated u o.sequence) m.tables.executions q.absent);
        })
  committed-IsQuiet o e fresh now stored false u m (ok (true, tables)) h q = record {
    ending =
        observed-ending o stored.workload_id m.state
          (matching e (lookup stored.workload_id m.state.active)) q.ending;
    absent =
        rw (committed-rows e o.sequence u m.tables {next = tables} h)
          (absent-adjust id e (updated u o.sequence) m.tables.executions q.absent);
  }

  stored-IsQuiet :
      (o : SupervisorObservation) (e fresh : String) (now : ℕ) (m : Manager)
      (stored : Option StoredExecution)
      → IsQuiet id m
      → IsQuiet id (record_stored x o e fresh now m stored).1
  unfolding record_stored
  stored-IsQuiet o e fresh now m none q = q
  stored-IsQuiet o e fresh now m (some stored) q =
      let t = terminal_for o now (matching e (lookup stored.workload_id m.state.active)) in
      committed-IsQuiet o e fresh now stored (is_terminal_update t) (update_for t (progress_for o))
        m (commit_observation e o.sequence (update_for t (progress_for o)) m.tables) refl q

  reload-IsQuiet :
      (m : Manager) (g : List ℕ) (ds : List NewDefinition)
      (result : Result (Bool × Tables) StorageError)
      → replace_definitions g ds m.tables ≡ result
      → IsQuiet id m
      → IsQuiet id (reload_stored x m result).1
  unfolding reload_stored reloaded reconcile_reload bump
  reload-IsQuiet m g ds (err e) h q = q
  reload-IsQuiet m g ds (ok (false, tables)) h q = record {
    ending = if-ending (reconcile_reload x m.state).0 (reconcile_reload x m.state).1 q.ending;
    absent = rw (replaced-executions x g ds m.tables false {next = tables} h) q.absent;
  }
    where
      if-ending :
          (b : Bool) (s : State)
          → s.session_ending ≡ true
          → (if b then bump s else s).session_ending ≡ true
      if-ending true s h = h
      if-ending false s h = h
  reload-IsQuiet m g ds (ok (true, tables)) h q =
      let rows : lookup id tables.executions ≡ none =
        rw (replaced-executions x g ds m.tables true {next = tables} h) q.absent in
      elim (Bool-cases (take_over x tables.workloads m.state.workloads).0) [
        | inl c ↦ rw (c) (record { ending = q.ending; absent = rows })
        | inr c ↦ rw (c) (record { ending = q.ending; absent = rows })
      ]

  checked-IsQuiet :
      (g : List ℕ) (ds : List ExecutionConfiguration) (m : Manager) (c : Option String)
      → IsQuiet id m
      → IsQuiet id (reload_checked x g ds m c).1
  unfolding reload_checked
  checked-IsQuiet g ds m (some w) q = q
  checked-IsQuiet g ds m none q = reload-IsQuiet m g (map (stored_definition x) ds) _ refl q

  recovered-IsQuiet :
      (stored : StoredExecution) (c : ExecutionConfiguration) (m : Manager)
      (found : Option (String × ActiveExecution))
      → IsQuiet id m
      → IsQuiet id (recover_found x stored c m found)
  unfolding recover_found
  recovered-IsQuiet stored c m none q = q
  recovered-IsQuiet stored c m (some (w, a)) q = elim (Bool-cases (str_eq a.state "recovering")) [
    | inl h ↦ rw (h) (record { ending = q.ending; absent = q.absent })
    | inr h ↦ rw (h) q
  ]

  recovery-IsQuiet :
      (m : Manager) (stored : Option StoredExecution)
      → IsQuiet id m
      → IsQuiet id (recover_stored x m stored)
  unfolding recover_stored recover_decoded
  recovery-IsQuiet m none q = q
  recovery-IsQuiet m (some stored) q = go (x.decode stored.snapshot)
    where
      go : (c : Option ExecutionConfiguration) → IsQuiet id (recover_decoded x stored m c)
      go none = q
      go (some c) = recovered-IsQuiet stored c m (find_execution stored.id m.state.active) q

  process-IsQuiet :
      (process_id : ℕ) (m : Manager) (task : Option Task)
      → IsQuiet id m
      → IsQuiet id (start_process x process_id m task)
  unfolding start_process
  process-IsQuiet process_id m none q = q
  process-IsQuiet process_id m (some t) q =
      launched-IsQuiet x id t.workload_id t.execution_id process_id m q

  end-IsQuiet :
      (f : ExecutionFinish) (fresh : String) (now : ℕ) (m : Manager) (task : Option Task)
      → IsQuiet id m
      → IsQuiet id (end_task x f fresh now m task)
  unfolding end_task
  end-IsQuiet f fresh now m none q = q
  end-IsQuiet f fresh now m (some t) q =
      complete-IsQuiet x id t.workload_id t.execution_id f fresh (suc now) m q

  step-IsQuiet : (c : Call) (m : Manager) → IsQuiet id m → IsQuiet id (step x c m)
  unfolding step start_service run_job rerun_job stop_service restart_service cancel_job
      start_enabled reload recovery_expired record_supervisor_observation
  step-IsQuiet (service_start w fresh now) m q =
      started-IsQuiet x id w fresh (suc now) "service" false none m q
  step-IsQuiet (job_run w fresh now) m q =
      started-IsQuiet x id w fresh (suc now) "job" true none m q
  step-IsQuiet (job_rerun w fresh now) m q =
      rerun-IsQuiet x id w fresh (suc now) m (lookup w m.state.active) q
  step-IsQuiet (service_stop w) m q = cancel-IsQuiet x id w "service" false m q
  step-IsQuiet (service_restart w) m q = cancel-IsQuiet x id w "service" true m q
  step-IsQuiet (job_cancel w) m q = cancel-IsQuiet x id w "job" false m q
  step-IsQuiet (enablement w enabled) m q = set_enabled-IsQuiet x id w enabled m q
  step-IsQuiet (startup fresh now) m q =
      trigger_in-IsQuiet x id (enabled_of "job" m.state.workloads) fresh (suc now)
        x.manager_session_id _
        (start_all-IsQuiet x id (enabled_of "service" m.state.workloads) fresh (suc now) m q)
  step-IsQuiet session_end m q = end_session-IsQuiet x id m q
  step-IsQuiet (reloading g ds) m q = checked-IsQuiet g ds m (kind_change x ds m.state) q
  step-IsQuiet (attachment e w session hash process_id fresh) m q =
      attach-IsQuiet x id e w session hash process_id fresh m q
  step-IsQuiet (disconnection e a) m q = disconnected-IsQuiet x id e a m q
  step-IsQuiet (observation e o fresh now) m q =
      stored-IsQuiet o e fresh (suc now) m (get_execution e m.tables) q
  step-IsQuiet (attempt_result e outcome code error fresh now) m q =
      terminal-IsQuiet x id e outcome code error fresh (suc now) m q
  step-IsQuiet (process_started n process_id) m q =
      process-IsQuiet process_id m (task_at n m.tasks) q
  step-IsQuiet (task_ended n f fresh now) m q = end-IsQuiet f fresh now m (task_at n m.tasks) q
  step-IsQuiet (recovery_timeout e) m q = recovery-IsQuiet m (get_execution e m.tables) q

  -- When the session is ending, it goes on ending, and no execution is started any more: an id that has no
  -- row in the storage has none after any calls of the manager's methods, starts, reruns, replacements and
  -- enabled workloads included.
  pub steps-IsQuiet : (cs : List Call) (m : Manager) → IsQuiet id m → IsQuiet id (steps x cs m)
  unfolding steps
  steps-IsQuiet [] m q = q
  steps-IsQuiet (c ∷ cs) m q = steps-IsQuiet cs (step x c m) (step-IsQuiet c m q)
