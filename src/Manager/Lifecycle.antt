-- ===== src/Manager/Lifecycle.antt =====
-- crates/controller/src/manager.rs: starting and stopping executions.
use Prim.Native.String.{String}
use text.Mathlib.Text.{◌==◌ as str_eq}
use susm.Common.{
  ℕ, Bool, true, false, Option, none, some, List, [], ◌∷◌, ◌++◌, if◌then◌else◌, Result, ok, err,
  ◌>>=◌,
}
use susm.Common.Maps.{lookup, insert, remove_key}
use susm.Protocol.{ExecutionConfiguration, PolicyUpdate}
use susm.Storage.{StoredExecution, Tables, StorageError}
use susm.Storage.Operations.{insert_execution, insert_enabled_job_execution}
use susm.Manager.{
  Setting, ManagerError, storage, not_found, definition_missing, already_active, wrong_kind,
  session_is_ending, WorkloadRecord, ExecutionCommand, sent, ActiveExecution, State, Manager,
  Workload, bump,
}
use susm.Manager.Snapshot.{policy_update}

abbrev pub Outcome : Type 0 → Type 0
Outcome A = Result A ManagerError × Manager

abbrev pub with_state : Manager → State → Manager
with_state m s = record m { state = s }

-- `Option::map_or_else` and `map_or` over the active execution.
inactive_state : Option ExecutionConfiguration → String
inactive_state (some definition) = "inactive"
inactive_state none = "definition-missing"

missing : Option ExecutionConfiguration → Bool
missing (some definition) = false
missing none = true

unfoldable pub workload_view : String → WorkloadRecord → Option ActiveExecution → Workload
unfolding inactive_state missing
workload_view id r none = record {
  workload_id = id;
  kind = r.kind;
  enabled = r.enabled;
  state = inactive_state r.definition;
  execution_id = "";
  supervisor_process_id = 0;
  workload_process_id = 0;
  attempt = 0;
  error = "";
  last_outcome = r.last_outcome;
  is_definition_missing = missing r.definition;
  restart_required = false;
  policy_sync_pending = false;
}
workload_view id r (some a) = record {
  workload_id = id;
  kind = r.kind;
  enabled = r.enabled;
  state = a.state;
  execution_id = a.execution_id;
  supervisor_process_id = a.supervisor_process_id;
  workload_process_id = a.workload_process_id;
  attempt = a.attempt;
  error = a.error;
  last_outcome = r.last_outcome;
  is_definition_missing = missing r.definition;
  restart_required = a.restart_required;
  policy_sync_pending = a.policy_sync_pending;
}

unfoldable pub send : ExecutionCommand → ActiveExecution → ActiveExecution
send c a = record a { commands = a.commands ++ sent c ∷ [] }

abbrev pub session_of : Option String → String
session_of none = ""
session_of (some s) = s

module _ (x : Setting) where
  abbrev pub digest : PolicyUpdate → List ℕ
  digest update = x.sha256 (x.encode_update update)

  -- `set_execution_hash`.
  unfoldable pub set_execution_hash : ExecutionConfiguration → ExecutionConfiguration
  set_execution_hash c =
      let unhashed = record c { execution_config_hash = [] } in
      record unhashed { execution_config_hash = x.sha256 (x.encode unhashed) }

  pinned : Option String → ExecutionConfiguration → ExecutionConfiguration
  pinned none c = c
  pinned (some pin) c = record c { version_pin = pin }

  -- `prepare_execution_build`. The pin's file is written.
  unfoldable pub prepare_execution_build : ExecutionConfiguration → String → ExecutionConfiguration
  unfolding pinned
  prepare_execution_build c execution_id = set_execution_hash (
      pinned (x.version_pin_path execution_id)
        (record c { supervisor_executable = x.supervisor_executable }))

  -- The definition that an execution gets.
  unfoldable pub prepared : ExecutionConfiguration → String → ExecutionConfiguration
  prepared definition execution_id =
      prepare_execution_build
        (record definition {
          execution_id = execution_id;
          manager_session_id = session_of x.manager_session_id;
        })
        execution_id

  unfoldable pub new_active : ExecutionConfiguration → String → ActiveExecution
  new_active definition execution_id = record {
    execution_id = execution_id;
    supervisor_process_id = 0;
    workload_process_id = 0;
    attempt = 0;
    error = "";
    state = "starting";
    cancelled = false;
    commands = [];
    locally_owned = true;
    restart_after = false;
    process_definition_hash = definition.process_definition_hash;
    policy_hash = (policy_update digest definition).policy_hash;
    restart_required = false;
    policy_sync_pending = false;
    attachment_id = none;
  }

  unfoldable pub new_row : ExecutionConfiguration → String → String → ℕ → StoredExecution
  new_row definition id execution_id started = record {
    id = execution_id;
    workload_id = id;
    state = "starting";
    supervisor_process_id = 0;
    workload_process_id = 0;
    attempt = 0;
    started_unix_ms = started;
    ended_unix_ms = 0;
    exit_code = none;
    error = "";
    snapshot = x.encode definition;
    committed_sequence = 0;
  }

  unfoldable pub insert_row :
      Option String → StoredExecution → Tables → Result (Bool × Tables) StorageError
  insert_row (some session) e t = insert_enabled_job_execution e session t
  insert_row none e t = insert_execution e t >>= λ next. ok (true, next)

  -- How `start` goes on with the result of the insertion: the active execution is there already, and goes
  -- again when the row was not inserted.
  unfoldable pub started :
      String
      → String
      → ℕ
      → WorkloadRecord
      → ExecutionConfiguration
      → Manager
      → Result (Bool × Tables) StorageError
      → Outcome (Bool × Workload)
  started id fresh now r definition m (err e) =
      (err (storage e), with_state m (record m.state { active = remove_key id m.state.active }))
  started id fresh now r definition m (ok (false, tables)) = (
    ok (false, workload_view id r none),
    record m { tables = tables; state = record m.state { active = remove_key id m.state.active } },
  )
  started id fresh now r definition m (ok (true, tables)) = (
    ok (true, workload_view id r (lookup id m.state.active)),
    record m {
      tables = tables;
      state = bump m.state;
      tasks =
          m.tasks
          ++ record {
            workload_id = id;
            execution_id = fresh;
            definition = definition;
            started_unix_ms = now;
          }
            ∷ [];
    },
  )

  unfoldable pub launch :
      String
      → String
      → ℕ
      → WorkloadRecord
      → ExecutionConfiguration
      → Option String
      → Manager
      → Outcome (Bool × Workload)
  unfolding prepared insert_row started
  launch id fresh now r definition session m =
      let build = prepared definition fresh in
      let s = record m.state { active = insert id (new_active build fresh) m.state.active } in
      started id fresh now r build (with_state m s)
        (insert_row session (new_row build id fresh now) m.tables)

  unfoldable pub start_inactive :
      String
      → String
      → ℕ
      → Bool
      → Option String
      → Manager
      → WorkloadRecord
      → ExecutionConfiguration
      → Option ActiveExecution
      → Outcome (Bool × Workload)
  start_inactive id fresh now exclusive session m r definition (some a) =
      if exclusive
      then (err (already_active id), m)
      else (ok (false, workload_view id r (some a)), m)
  start_inactive id fresh now exclusive session m r definition none =
      launch id fresh now r definition session m

  unfoldable pub start_defined :
      String
      → String
      → ℕ
      → Bool
      → Option String
      → Manager
      → WorkloadRecord
      → Option ExecutionConfiguration
      → Outcome (Bool × Workload)
  unfolding start_inactive
  start_defined id fresh now exclusive session m r none = (err (definition_missing id), m)
  start_defined id fresh now exclusive session m r (some definition) =
      start_inactive id fresh now exclusive session m r definition (lookup id m.state.active)

  unfoldable pub start_known :
      String
      → String
      → ℕ
      → String
      → Bool
      → Option String
      → Manager
      → Option WorkloadRecord
      → Outcome (Bool × Workload)
  unfolding start_defined
  start_known id fresh now expected exclusive session m none = (err (not_found id), m)
  start_known id fresh now expected exclusive session m (some r) =
      if str_eq r.kind expected
      then start_defined id fresh now exclusive session m r r.definition
      else (err (wrong_kind id expected r.kind), m)

  -- `Manager::start`, at the time `now`; `fresh` is the new UUID.
  unfoldable pub start :
      String → String → ℕ → String → Bool → Option String → Manager → Outcome (Bool × Workload)
  unfolding start_known
  start id fresh now expected exclusive session m =
      if m.state.session_ending
      then (err session_is_ending, m)
      else start_known id fresh now expected exclusive session m (lookup id m.state.workloads)

  unfoldable pub start_service : String → String → ℕ → Manager → Outcome (Bool × Workload)
  start_service id fresh now m = start id fresh now "service" false none m

  unfoldable pub run_job : String → String → ℕ → Manager → Outcome (Bool × Workload)
  run_job id fresh now m = start id fresh now "job" true none m

  unfoldable pub replace_kind : String → String → ℕ → Manager → Option WorkloadRecord → Manager
  replace_kind id fresh now m none = m
  replace_kind id fresh now m (some r) =
      if str_eq r.kind "service"
      then (start_service id fresh now m).1
      else if str_eq r.kind "job"
      then (run_job id fresh now m).1
      else m

  -- `Manager::start_replacement`; an error is logged.
  unfoldable pub start_replacement : String → String → ℕ → Manager → Manager
  unfolding replace_kind
  start_replacement id fresh now m = replace_kind id fresh now m (lookup id m.state.workloads)
