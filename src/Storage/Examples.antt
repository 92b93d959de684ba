-- ===== src/Storage/Examples.antt =====
-- The tables of one job with one execution.
use native.Mathlib.Nat.{}
use susm.Common.{ℕ, suc, ◌+◌, ◌≤◌, ◌≡◌, refl, true, false, none, some, List, [], ◌∷◌, ok}
use susm.Domain.Execution.Sequence.{count_up}
use susm.Storage.{
  WorkloadRow, StoredExecution, Tables, NewDefinition, ObservationUpdate, acknowledge,
  terminal_update,
}
use susm.Common.Maps.{lookup, insert, map_entries, remove_key}
use susm.Storage.Operations.{replace_definitions, upsert_all}
use susm.Storage.Commits.{HasCommitted, commits, commits-count_up}
use susm.Storage.Claims.{Operation, replaced, enablement, triggered, starts}
use susm.Storage.Triggers.{starts_at_most_once}
use susm.Storage.Reload.{Keeps, latest_definition, replace_definitions-Keeps}

abbrev job : WorkloadRow
job = record {
  kind = "job";
  definition = some (1 ∷ []);
  enabled = true;
  last_triggered_session = "";
  last_outcome = "failed";
}

abbrev execution : StoredExecution
execution = record {
  id = "e1";
  workload_id = "job";
  state = "starting";
  supervisor_process_id = 0;
  workload_process_id = 0;
  attempt = 0;
  started_unix_ms = 5;
  ended_unix_ms = 0;
  exit_code = none;
  error = "";
  snapshot = [];
  committed_sequence = 0;
}

abbrev tables : Tables
tables = record {
  config_generation = some (9 ∷ []);
  workloads = ("job", job) ∷ [];
  executions = ("e1", execution) ∷ [];
}

abbrev ended : ObservationUpdate
ended =
    terminal_update (record {
      state = "completed";
      ended_unix_ms = 8;
      exit_code = some 0;
      error = "";
      attempt = 1;
    })

-- The second arrives again, the fourth too early.
abbrev arrivals : List (ℕ × ObservationUpdate)
arrivals =
    (1, acknowledge) ∷ (1, acknowledge) ∷ (4, acknowledge) ∷ (2, acknowledge) ∷ (3, ended) ∷ []

commits_example :
    (k : ℕ) × ((commits "e1" arrivals tables).0 ≡ count_up (suc 0) k)
    × HasCommitted "e1" (0 + k) (commits "e1" arrivals tables).1
unfolding lookup
commits_example =
    commits-count_up "e1" 0 arrivals tables (record { row = execution; found = refl; last = refl })

-- The job is disabled and enabled again, and its definition comes again, between two triggers.
abbrev operations : List Operation
operations =
    triggered (record execution { id = "e2" }) "logon"
    ∷ enablement "job" false
    ∷ enablement "job" true
    ∷ replaced (3 ∷ [])
        (record { id = "job"; kind = "job"; definition = some (2 ∷ []); enabled = false } ∷ [])
    ∷ triggered (record execution { id = "e3" }) "logon"
    ∷ []

starts_example : starts "job" "logon" operations tables ≤ 1
starts_example =
    starts_at_most_once "job" "logon" operations tables (refl, (refl, (refl, (refl, (refl, tt)))))

abbrev definitions : List NewDefinition
definitions = record { id = "job"; kind = "job"; definition = some (2 ∷ []); enabled = false } ∷ []

abbrev reloaded : Tables
reloaded = record {
  config_generation = some (3 ∷ []);
  workloads = ("job", record job { definition = some (2 ∷ []) }) ∷ [];
  executions = ("e1", execution) ∷ [];
}

Keeps_example :
    Keeps "job" (latest_definition "job" definitions none) job reloaded.workloads
    × (reloaded.executions ≡ tables.executions)
    × (replace_definitions (3 ∷ []) [] reloaded ≡ ok (false, reloaded))
unfolding replace_definitions upsert_all lookup insert map_entries remove_key
Keeps_example =
    replace_definitions-Keeps (3 ∷ []) definitions [] tables "job" job {next = reloaded} refl refl
