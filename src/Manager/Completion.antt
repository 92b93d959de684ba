-- ===== src/Manager/Completion.antt =====
-- crates/controller/src/manager.rs: the ends of executions, by `supervisor_terminal` and `complete_execution`.
use Prim.Native.String.{String}
use text.Mathlib.Text.{◌==◌ as str_eq}
use susm.Common.{
  ℕ, Bool, false, ◌&&◌, ◌||◌, not, Option, none, some, List, [], ◌∷◌, if◌then◌else◌, ok, err, ◌==◌,
}
use susm.Common.Maps.{lookup, adjust}
use susm.Protocol.{ExecutionConfiguration}
use susm.Storage.{StoredExecution, Tables}
use susm.Storage.Operations.{get_execution, finish_execution}
use susm.Manager.{Setting, not_found, undecodable, ActiveExecution, State, Manager, bump}
use susm.Manager.Lifecycle.{Outcome}
use susm.Manager.Supervisors.{is_terminal, matching, outcome_set, retired}
use susm.Manager.Reports.{replaced}

-- `matches!` and the tests after it.
contains : ℕ → List ℕ → Bool
contains code [] = false
contains code (c ∷ cs) = code == c || contains code cs

unfoldable pub succeeded : List ℕ → Option ℕ → Bool
unfolding contains
succeeded codes none = false
succeeded codes (some code) = contains code codes

unfoldable pub terminal_name :
    String → String → Option ℕ → ActiveExecution → ExecutionConfiguration → String
unfolding succeeded
terminal_name stop_name outcome exit_code a c =
    if str_eq a.state "stopping"
    then stop_name
    else if is_terminal outcome
    then outcome
    else if succeeded c.success_exit_codes exit_code
    then "completed"
    else "failed"

-- The argument of `complete_execution`.
pub record ExecutionFinish : Type 0 where
  pub state : String
  pub exit_code : Option ℕ
  pub error : String
  pub supervisor_process_id : ℕ

unfoldable pub finished_row : ExecutionFinish → ℕ → StoredExecution → StoredExecution
finished_row f ended e = record e {
  state = f.state;
  supervisor_process_id = f.supervisor_process_id;
  workload_process_id = 0;
  ended_unix_ms = ended;
  exit_code = f.exit_code;
  error = f.error;
}

-- A row that is not there, or cannot be written, is passed over.
unfoldable pub complete_row : ExecutionFinish → ℕ → Tables → Option StoredExecution → Tables
unfolding finished_row
complete_row f ended t none = t
complete_row f ended t (some e) = finish_execution (finished_row f ended e) t

-- The outcome is noted whether or not the execution is the active one.
unfoldable pub complete_state : String → String → State → Option ActiveExecution → Bool × State
complete_state id outcome s none =
    (false, bump (record s { workloads = adjust id (outcome_set outcome) s.workloads }))
complete_state id outcome s (some a) =
    (not s.session_ending && a.restart_after, retired id outcome s)

module _ (x : Setting) where
  unfoldable pub terminal_found :
      String
      → String
      → Option ℕ
      → String
      → String
      → ℕ
      → StoredExecution
      → ExecutionConfiguration
      → Manager
      → Option ActiveExecution
      → Manager
  unfolding replaced
  terminal_found execution_id outcome exit_code error fresh now stored c m none = m
  terminal_found execution_id outcome exit_code error fresh now stored c m (some a) =
      if a.locally_owned
      then m
      else let name =
          terminal_name (if str_eq c.kind "job" then "cancelled" else "stopped") outcome exit_code a
            c in
        replaced x stored.workload_id fresh now (not m.state.session_ending && a.restart_after)
          (record m {
            tables =
                finish_execution
                  (record stored {
                    state = name;
                    workload_process_id = 0;
                    ended_unix_ms = now;
                    exit_code = exit_code;
                    error = error;
                  })
                  m.tables;
            state = retired stored.workload_id name m.state;
          })

  unfoldable pub terminal_decoded :
      String
      → String
      → Option ℕ
      → String
      → String
      → ℕ
      → StoredExecution
      → Manager
      → Option ExecutionConfiguration
      → Outcome Unit
  unfolding terminal_found
  terminal_decoded execution_id outcome exit_code error fresh now stored m none =
      (err undecodable, m)
  terminal_decoded execution_id outcome exit_code error fresh now stored m (some c) = (
    ok tt,
    terminal_found execution_id outcome exit_code error fresh now stored c m
        (matching execution_id (lookup stored.workload_id m.state.active)),
  )

  unfoldable pub terminal_stored :
      String
      → String
      → Option ℕ
      → String
      → String
      → ℕ
      → Manager
      → Option StoredExecution
      → Outcome Unit
  unfolding terminal_decoded
  terminal_stored execution_id outcome exit_code error fresh now m none =
      (err (not_found execution_id), m)
  terminal_stored execution_id outcome exit_code error fresh now m (some stored) =
      terminal_decoded execution_id outcome exit_code error fresh now stored m
        (x.decode stored.snapshot)

  -- `Manager::supervisor_terminal`.
  unfoldable pub supervisor_terminal :
      String → String → Option ℕ → String → String → ℕ → Manager → Outcome Unit
  unfolding terminal_stored
  supervisor_terminal execution_id outcome exit_code error fresh now m =
      terminal_stored execution_id outcome exit_code error fresh now m
        (get_execution execution_id m.tables)

  -- `Inner::complete_execution`; `ended` is its time.
  unfoldable pub complete_execution :
      String → String → ExecutionFinish → String → ℕ → Manager → Manager
  unfolding complete_row complete_state replaced
  complete_execution id execution_id finish fresh ended m =
      let (restart, s) =
        complete_state id finish.state m.state (matching execution_id (lookup id m.state.active)) in
      replaced x id fresh ended restart (record m {
        tables = complete_row finish ended m.tables (get_execution execution_id m.tables);
        state = s;
      })
