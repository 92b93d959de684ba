-- ===== src/Manager/Supervisors.antt =====
-- crates/controller/src/manager.rs: what a supervisor does to its execution: it attaches, reports,
-- disconnects and ends.
use Prim.Native.String.{String}
use text.Mathlib.Text.{◌==◌ as str_eq}
use susm.Common.{ℕ, Bool, false, ◌||◌, not, Option, none, some, List, [], ◌∷◌, if◌then◌else◌}
use susm.Common.Maps.{Map, lookup, remove_key, adjust}
use susm.Storage.{ProgressObservation}
use susm.Storage.Operations.{set_execution_supervisor}
use susm.Manager.{WorkloadRecord, ActiveExecution, State, Manager, bump}
use susm.Manager.Lifecycle.{with_state}

pub record SupervisorObservation : Type 0 where
  pub sequence : ℕ
  pub kind : String
  pub exit_code : Option ℕ
  pub detail : String
  pub attempt : ℕ
  pub workload_process_id : ℕ

abbrev one_of : List String → String → Bool
one_of [] name = false
one_of (s ∷ ss) name = str_eq s name || one_of ss name

abbrev pub is_terminal : String → Bool
is_terminal kind =
    one_of ("completed" ∷ "failed" ∷ "stopped" ∷ "cancelled" ∷ "outcome-unknown" ∷ []) kind

unfoldable pub active_state : String → String
active_state state =
    if one_of
      ("starting" ∷ "launching" ∷ "running" ∷ "launch-failed" ∷ "attempt-exited" ∷ "supervisor-lost"
        ∷ "restart-backoff" ∷ "stopping" ∷ [])
      state
    then state
    else "recovering"

-- `(!detail.is_empty()).then(…)`.
unless_empty : String → Option String
unless_empty detail = if str_eq detail "" then none else some detail

-- `ActiveProgress` has the fields of `ProgressObservation`.
unfoldable pub progress_observation : String → ℕ → ℕ → String → Option ProgressObservation
unfolding unless_empty
progress_observation kind attempt process_id detail =
    if str_eq kind "attempt-started"
    then some (record {
      state = "running";
      workload_process_id = process_id;
      attempt = attempt;
      error = some "";
    })
    else if str_eq kind "launch-failed"
    then some (record {
      state = "launch-failed";
      workload_process_id = 0;
      attempt = attempt;
      error = some detail;
    })
    else if str_eq kind "attempt-exited"
    then some (record {
      state = "attempt-exited";
      workload_process_id = 0;
      attempt = attempt;
      error = unless_empty detail;
    })
    else if str_eq kind "supervisor-lost"
    then some (record {
      state = "supervisor-lost";
      workload_process_id = 0;
      attempt = attempt;
      error = some detail;
    })
    else if str_eq kind "restart-backoff"
    then some (record {
      state = "restart-backoff";
      workload_process_id = 0;
      attempt = attempt;
      error = unless_empty detail;
    })
    else none

-- `.filter(|active| active.execution_id == execution_id)`.
unfoldable pub matching : String → Option ActiveExecution → Option ActiveExecution
matching execution_id none = none
matching execution_id (some a) = if str_eq a.execution_id execution_id then some a else none

-- The first active execution with the id, by its key.
unfoldable pub find_execution : String → Map ActiveExecution → Option (String × ActiveExecution)
find_execution execution_id [] = none
find_execution execution_id ((id, a) ∷ rest) =
    let found = find_execution execution_id rest in
    if str_eq a.execution_id execution_id then some (id, a) else found

abbrev is_attached : String → Option String → Bool
is_attached attachment_id none = false
is_attached attachment_id (some current) = str_eq current attachment_id

unfoldable pub disconnected : ActiveExecution → ActiveExecution
disconnected a = record a { attachment_id = none; state = "recovering" }

unfoldable pub disconnect_found : String → Manager → Option (String × ActiveExecution) → Manager
disconnect_found attachment_id m none = m
disconnect_found attachment_id m (some (id, a)) =
    if a.locally_owned
      || str_eq a.state "stopping"
      || not (is_attached attachment_id a.attachment_id)
    then m
    else with_state m (bump (record m.state { active = adjust id disconnected m.state.active }))

-- `Manager::supervisor_disconnected`.
unfoldable pub supervisor_disconnected : String → String → Manager → Manager
unfolding disconnect_found
supervisor_disconnected execution_id attachment_id m =
    disconnect_found attachment_id m (find_execution execution_id m.state.active)

unfoldable pub launched : ℕ → ActiveExecution → ActiveExecution
launched process_id a = record a { supervisor_process_id = process_id; state = "launching" }

unfoldable pub launched_in : String → ℕ → Manager → Option ActiveExecution → Manager
unfolding launched
launched_in id process_id m none = m
launched_in id process_id m (some a) =
    with_state m (bump (record m.state { active = adjust id (launched process_id) m.state.active }))

-- `run_execution` has started a supervisor's process.
unfoldable pub supervisor_launched : String → String → ℕ → Manager → Manager
unfolding launched_in
supervisor_launched id execution_id process_id m =
    launched_in id process_id
      (record m { tables = set_execution_supervisor execution_id process_id m.tables })
      (matching execution_id (lookup id m.state.active))

abbrev pub outcome_set : String → WorkloadRecord → WorkloadRecord
outcome_set outcome r = record r { last_outcome = outcome }

-- The active execution is removed, its outcome noted.
unfoldable pub retired : String → String → State → State
retired id outcome s = bump (record s {
  active = remove_key id s.active;
  workloads = adjust id (outcome_set outcome) s.workloads;
})
