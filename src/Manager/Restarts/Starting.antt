-- ===== src/Manager/Restarts/Starting.antt =====
-- crates/controller/src/manager.rs: a replacement that starts.
use Prim.Native.String.{String}
use susm.Common.{ℕ, ◌≡◌, refl, ◌∙◌, Bool, true, false, none, some, List, [], ◌∷◌, ◌++◌}
use susm.Common.Maps.{lookup, insert, lookup-insert, str_eq_refl}
use susm.Protocol.{ExecutionConfiguration}
use susm.Storage.{StoredExecution, WorkloadRow}
use susm.Storage.Operations.{insert_execution}
use susm.Manager.{Setting, WorkloadRecord, ActiveExecution, Task, Manager, bump}
use susm.Manager.Lifecycle.{
  start, start_service, run_job, start_replacement, prepared, new_active, new_row, launch,
}
use susm.Manager.Restarts.{WorkloadKind, service, job, kind_name}

-- One execution, `fresh`, has been started for the workload at `now`: it is the active one and is to be
-- followed by none, its row has not ended, and its task is the only new one after `tasks`.
pub record IsStarted (id fresh : String) (now : ℕ) (tasks : List Task) (m : Manager) : Type 0 where
  pub active : ActiveExecution
  pub found : lookup id m.state.active ≡ some active
  pub is_fresh : (active.execution_id ≡ fresh) × (active.state ≡ "starting")
  pub settled : (active.restart_after ≡ false) × (active.cancelled ≡ false)
  pub row : StoredExecution
  pub stored : lookup fresh m.tables.executions ≡ some row
  pub of_workload : (row.workload_id ≡ id) × (row.ended_unix_ms ≡ 0)
  pub task : Task
  pub spawned : m.tasks ≡ tasks ++ task ∷ []
  pub runs : (task.workload_id ≡ id) × (task.execution_id ≡ fresh) × (task.started_unix_ms ≡ now)

-- What a start needs.
pub record IsStartable (k : WorkloadKind) (id fresh : String) (d : ExecutionConfiguration)
    (m : Manager) : Type 0 where
  pub workload : WorkloadRecord
  pub known : lookup id m.state.workloads ≡ some workload
  pub of_kind : workload.kind ≡ kind_name k
  pub defined : workload.definition ≡ some d
  pub row : WorkloadRow
  pub stored : lookup id m.tables.workloads ≡ some row
  pub unused : lookup fresh m.tables.executions ≡ none
  pub inactive : lookup id m.state.active ≡ none
  pub goes_on : m.state.session_ending ≡ false

abbrev first_row : Setting → String → String → ℕ → ExecutionConfiguration → StoredExecution
first_row x id fresh now d = record (new_row x (prepared x d fresh) id fresh now) {
  ended_unix_ms = 0;
  exit_code = none;
  error = "";
  committed_sequence = 0;
}

abbrev first_task : Setting → String → String → ℕ → ExecutionConfiguration → Task
first_task x id fresh now d = record {
  workload_id = id;
  execution_id = fresh;
  definition = prepared x d fresh;
  started_unix_ms = now;
}

-- The manager after a start.
abbrev pub begun : Setting → String → String → ℕ → ExecutionConfiguration → Manager → Manager
begun x id fresh now d m = record m {
  tables = record m.tables {
    executions = insert fresh (first_row x id fresh now d) m.tables.executions;
  };
  state = bump (record m.state {
    active = insert id (new_active x (prepared x d fresh) fresh) m.state.active;
  });
  tasks = m.tasks ++ first_task x id fresh now d ∷ [];
}

launch-begun :
    (x : Setting) (k : WorkloadKind) (id fresh : String) (now : ℕ) (r : WorkloadRecord)
    (d : ExecutionConfiguration) (m : Manager)
    → IsStartable k id fresh d m
    → (launch x id fresh now r d none m).1 ≡ begun x id fresh now d m
unfolding launch insert_execution new_row
launch-begun x k id fresh now r d m w = rw (w.unused, w.stored) refl

start-launch :
    (x : Setting) (k : WorkloadKind) (id fresh : String) (now : ℕ) (exclusive : Bool)
    (d : ExecutionConfiguration) (m : Manager) (w : IsStartable k id fresh d m)
    → (start x id fresh now (kind_name k) exclusive none m).1
      ≡ (launch x id fresh now w.workload d none m).1
unfolding start
start-launch x k id fresh now exclusive d m w =
    simp (w.goes_on, w.known, w.of_kind, str_eq_refl (kind_name k), w.defined, w.inactive) refl

start-begun :
    (x : Setting) (k : WorkloadKind) (id fresh : String) (now : ℕ) (exclusive : Bool)
    (d : ExecutionConfiguration) (m : Manager)
    → IsStartable k id fresh d m
    → (start x id fresh now (kind_name k) exclusive none m).1 ≡ begun x id fresh now d m
start-begun x k id fresh now exclusive d m w =
    start-launch x k id fresh now exclusive d m w ∙ launch-begun x k id fresh now w.workload d m w

pub replacement-begun :
    (x : Setting) (k : WorkloadKind) (id fresh : String) (now : ℕ) (d : ExecutionConfiguration)
    (m : Manager)
    → IsStartable k id fresh d m
    → start_replacement x id fresh now m ≡ begun x id fresh now d m
unfolding start_replacement start_service run_job
replacement-begun x service id fresh now d m w =
    rw (w.known, w.of_kind) (start-begun x service id fresh now false d m w)
replacement-begun x job id fresh now d m w =
    rw (w.known, w.of_kind) (start-begun x job id fresh now true d m w)

pub begun-IsStarted :
    (x : Setting) (id fresh : String) (now : ℕ) (d : ExecutionConfiguration) (m : Manager)
    → IsStarted id fresh now m.tasks (begun x id fresh now d m)
unfolding bump new_active new_row
begun-IsStarted x id fresh now d m = record {
  active = new_active x (prepared x d fresh) fresh;
  found = lookup-insert id id _ m.state.active ∙ rw (str_eq_refl id) refl;
  is_fresh = (refl, refl);
  settled = (refl, refl);
  row = first_row x id fresh now d;
  stored = lookup-insert fresh fresh _ m.tables.executions ∙ rw (str_eq_refl fresh) refl;
  of_workload = (refl, refl);
  task = first_task x id fresh now d;
  spawned = refl;
  runs = (refl, refl, refl);
}
