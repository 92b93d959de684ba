-- ===== src/Manager/Sessions.antt =====
-- crates/controller/src/manager.rs: the manager's start, the workloads it starts then, and its end.
use Prim.Native.String.{String}
use text.Mathlib.Text.{◌==◌ as str_eq}
use susm.Common.{
  ℕ, Bool, true, false, ◌&&◌, Option, none, some, List, [], ◌∷◌, ◌++◌, if◌then◌else◌, Result, ok,
  err,
}
use susm.Common.Maps.{Map, lookup, insert, map_entries, adjust}
use susm.Protocol.{ExecutionConfiguration}
use susm.Storage.{StoredExecution, Tables}
use susm.Storage.Operations.{
  set_enabled as write_enabled, get_execution, finish_execution, load_active_executions,
}
use susm.Manager.{
  Setting, ManagerError, not_found, undecodable, WorkloadRecord, ActiveExecution, Manager, Workload,
  bump,
}
use susm.Manager.Snapshot.{policy_update}
use susm.Manager.Lifecycle.{
  Outcome, with_state, workload_view, send, session_of, digest, start, start_service,
}
use susm.Manager.Supervisors.{outcome_set, find_execution}
use susm.Manager.Reconcile.{take_over}

-- What the end of the session makes of an active execution.
unfoldable pub ending_active : ActiveExecution → ActiveExecution
ending_active a =
    send (record { kind = "session-ending"; payload = [] })
      (record a { restart_after = false; state = "stopping"; cancelled = true })

-- `Manager::end_session`.
unfoldable pub end_session : Manager → Manager
end_session m =
    if m.state.session_ending
    then m
    else with_state m (
        bump (record m.state {
          session_ending = true;
          active = map_entries (λ _ a. ending_active a) m.state.active;
        }))

-- `Manager::is_quiescent`.
unfoldable pub is_quiescent : Manager → Bool
is_quiescent m = elim m.state.active [ [] ↦ true | _ ∷ _ ↦ false ]

unfoldable pub enable_known :
    String → Bool → Bool → Manager → Option WorkloadRecord → Outcome (Bool × Workload)
enable_known id enabled changed m none = (err (not_found id), m)
enable_known id enabled changed m (some r) =
    let r = if changed then record r { enabled = enabled } else r in
    (
      ok (changed, workload_view id r (lookup id m.state.active)),
      if changed
          then with_state m (
              bump (record m.state {
                workloads = adjust id (λ r. record r { enabled = enabled }) m.state.workloads;
              }))
          else m,
    )

-- `Manager::set_enabled`. The storage comes first.
unfoldable pub set_enabled : String → Bool → Manager → Outcome (Bool × Workload)
unfolding enable_known
set_enabled id enabled m =
    let (changed, tables) = write_enabled id enabled m.tables in
    enable_known id enabled changed (record m { tables = tables }) (lookup id m.state.workloads)

-- The workloads of a kind that are enabled.
unfoldable pub enabled_of : String → Map WorkloadRecord → List String
enabled_of kind [] = []
enabled_of kind ((id, r) ∷ rest) =
    let ids = enabled_of kind rest in if r.enabled && str_eq r.kind kind then id ∷ ids else ids

module _ (x : Setting) where
  unfoldable pub start_all : List String → (String → String) → ℕ → Manager → Manager
  start_all [] fresh now m = m
  start_all (id ∷ ids) fresh now m = start_all ids fresh now (start_service x id (fresh id) now m).1

  unfoldable pub trigger_all : List String → (String → String) → ℕ → String → Manager → Manager
  trigger_all [] fresh now session m = m
  trigger_all (id ∷ ids) fresh now session m =
      trigger_all ids fresh now session (start x id (fresh id) now "job" true (some session) m).1

  unfoldable pub trigger_in :
      List String → (String → String) → ℕ → Option String → Manager → Manager
  unfolding trigger_all
  trigger_in ids fresh now none m = m
  trigger_in ids fresh now (some session) m =
      if str_eq session "" then m else trigger_all ids fresh now session m

  -- `Manager::start_enabled`; `fresh` gives each workload's execution its UUID. Errors are logged.
  unfoldable pub start_enabled : (String → String) → ℕ → Manager → Manager
  unfolding start_all trigger_in
  start_enabled fresh now m =
      trigger_in (enabled_of "job" m.state.workloads) fresh now x.manager_session_id
        (start_all (enabled_of "service" m.state.workloads) fresh now m)

  -- The state of the manager while it opens.
  pub record Opening : Type 0 where
    pub workloads : Map WorkloadRecord
    pub active : Map ActiveExecution
    pub tables : Tables

  unfoldable pub recovered : StoredExecution → ExecutionConfiguration → ActiveExecution
  recovered e c = record {
    execution_id = e.id;
    supervisor_process_id = e.supervisor_process_id;
    workload_process_id = e.workload_process_id;
    attempt = e.attempt;
    error = e.error;
    state = if str_eq e.state "stopping" then "stopping" else "recovering";
    cancelled = false;
    commands = [];
    locally_owned = false;
    restart_after = false;
    process_definition_hash = c.process_definition_hash;
    policy_hash = (policy_update (digest x) c).policy_hash;
    restart_required = false;
    policy_sync_pending = false;
    attachment_id = none;
  }

  -- An execution of another session is closed, one of this session recovered.
  unfoldable pub open_execution : ℕ → StoredExecution → ExecutionConfiguration → Opening → Opening
  unfolding recovered
  open_execution now e c o =
      if str_eq c.manager_session_id (session_of x.manager_session_id)
      then record o { active = insert e.workload_id (recovered e c) o.active }
      else let outcome = if str_eq c.kind "job" then "outcome-unknown" else "stopped" in
        record o {
          workloads = adjust e.workload_id (outcome_set outcome) o.workloads;
          tables =
              finish_execution
                (record e {
                  state = outcome;
                  supervisor_process_id = 0;
                  workload_process_id = 0;
                  ended_unix_ms = now;
                  exit_code = none;
                  error = "execution belonged to an ended manager session";
                })
                o.tables;
        }

  unfoldable pub open_executions : ℕ → List StoredExecution → Opening → Bool × Opening
  unfolding open_execution
  open_executions now [] o = (true, o)
  open_executions now (e ∷ es) o = elim (x.decode e.snapshot) [
    | none ↦ (false, o)
    | some c ↦ open_executions now es (open_execution now e c o)
  ]

  unfoldable pub opened : Bool → Opening → Result Manager ManagerError × Tables
  opened false o = (err undecodable, o.tables)
  opened true o = (
    ok (record {
      tables = o.tables;
      state = record {
        workloads = o.workloads;
        active = o.active;
        revision = 0;
        session_ending = false;
      };
      tasks = [];
    }),
    o.tables,
  )

  -- `Manager::open` on the tables that are on the disk, with the tables after it.
  unfoldable pub open_manager : ℕ → Tables → Result Manager ManagerError × Tables
  unfolding opened
  open_manager now t =
      let (complete, workloads) = take_over x t.workloads [] in
      if complete
      then (let (all, o) =
            open_executions now (load_active_executions t.executions)
              (record { workloads = workloads; active = []; tables = t }) in
          opened all o)
      else (err undecodable, t)

  abbrev pub replaced_locally : ActiveExecution → ActiveExecution
  replaced_locally a = record a { locally_owned = true; state = "starting" }

  unfoldable pub recover_found :
      StoredExecution
      → ExecutionConfiguration
      → Manager
      → Option (String × ActiveExecution)
      → Manager
  recover_found stored c m none = m
  recover_found stored c m (some (id, a)) =
      if str_eq a.state "recovering"
      then record m {
        state = record m.state { active = adjust id replaced_locally m.state.active };
        tasks =
            m.tasks
            ++ record {
              workload_id = id;
              execution_id = stored.id;
              definition = c;
              started_unix_ms = stored.started_unix_ms;
            }
              ∷ [];
      }
      else m

  unfoldable pub recover_decoded :
      StoredExecution → Manager → Option ExecutionConfiguration → Manager
  unfolding recover_found
  recover_decoded stored m none = m
  recover_decoded stored m (some c) =
      recover_found stored c m (find_execution stored.id m.state.active)

  unfoldable pub recover_stored : Manager → Option StoredExecution → Manager
  unfolding recover_decoded
  recover_stored m none = m
  recover_stored m (some stored) = recover_decoded stored m (x.decode stored.snapshot)

  -- A monitor of `start_recovery_monitors` when the execution has been recovering for three seconds.
  unfoldable pub recovery_expired : String → Manager → Manager
  unfolding recover_stored
  recovery_expired execution_id m = recover_stored m (get_execution execution_id m.tables)
