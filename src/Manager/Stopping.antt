-- ===== src/Manager/Stopping.antt =====
-- crates/controller/src/manager.rs: stopping and restarting executions.
use Prim.Native.String.{String}
use text.Mathlib.Text.{◌==◌ as str_eq}
use susm.Common.{ℕ, Bool, true, false, ◌||◌, Option, none, some, [], if◌then◌else◌, ok, err}
use susm.Common.Maps.{lookup, adjust}
use susm.Manager.{
  Setting, not_found, wrong_kind, WorkloadRecord, ActiveExecution, Manager, Workload, bump,
}
use susm.Manager.Lifecycle.{Outcome, send, start, with_state, workload_view}

-- What `cancel` makes of the active execution.
unfoldable pub stopping_active : Bool → ActiveExecution → ActiveExecution
unfolding send
stopping_active restart_after a =
    send (record { kind = "stop"; payload = [] })
      (record a {
        restart_after = a.restart_after || restart_after;
        state = "stopping";
        cancelled = true;
      })

unfoldable pub cancel_active :
    String → Bool → WorkloadRecord → Manager → Option ActiveExecution → Outcome (Bool × Workload)
cancel_active id restart_after r m none = (ok (false, workload_view id r none), m)
cancel_active id restart_after r m (some a) =
    let s =
      bump (record m.state { active = adjust id (stopping_active restart_after) m.state.active }) in
    (ok (true, workload_view id r (lookup id s.active)), with_state m s)

unfoldable pub cancel_known :
    String → String → Bool → Manager → Option WorkloadRecord → Outcome (Bool × Workload)
unfolding cancel_active
cancel_known id expected restart_after m none = (err (not_found id), m)
cancel_known id expected restart_after m (some r) =
    if str_eq r.kind expected
    then cancel_active id restart_after r m (lookup id m.state.active)
    else (err (wrong_kind id expected r.kind), m)

unfoldable pub cancel : String → String → Bool → Manager → Outcome (Bool × Workload)
unfolding cancel_known
cancel id expected restart_after m =
    cancel_known id expected restart_after m (lookup id m.state.workloads)

unfoldable pub stop_service : String → Manager → Outcome (Bool × Workload)
stop_service id m = cancel id "service" false m

unfoldable pub cancel_job : String → Manager → Outcome (Bool × Workload)
cancel_job id m = cancel id "job" false m

unfoldable pub restart_service : String → Manager → Outcome (Bool × Workload)
restart_service id m = cancel id "service" true m

unfoldable pub rerun_active :
    Setting → String → String → ℕ → Manager → Option ActiveExecution → Outcome (Bool × Workload)
rerun_active x id fresh now m (some a) = cancel id "job" true m
rerun_active x id fresh now m none = start x id fresh now "job" true none m

unfoldable pub rerun_job : Setting → String → String → ℕ → Manager → Outcome (Bool × Workload)
unfolding rerun_active
rerun_job x id fresh now m = rerun_active x id fresh now m (lookup id m.state.active)
