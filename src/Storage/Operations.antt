-- ===== src/Storage/Operations.antt =====
-- crates/controller/src/storage.rs: what each operation does to the tables.
use Prim.Native.String.{String}
use text.Mathlib.Text.{◌==◌ as str_eq}
use susm.Common.{
  ℕ, ◌+◌, ◌^◌, Bool, true, false, ◌&&◌, ◌||◌, not, Option, none, some, List, [], ◌∷◌, if◌then◌else◌,
  ltb, leb, ◌==◌, Result, ok, err, ok_or, ◌>>=◌,
}
use susm.Common.Maps.{Map, lookup, insert, map_entries, adjust}
use susm.Storage.{
  WorkloadRow, StoredExecution, Tables, NewDefinition, StorageError, sqlite, invalid_integer,
  observation_out_of_order, ObservationUpdate, acknowledge, progress, terminal_update,
}

-- The number of values of an `i64` that are not negative.
abbrev pub i64_limit : ℕ
i64_limit = 2 ^ 63

abbrev pub same_bytes : List ℕ → List ℕ → Bool
same_bytes [] [] = true
same_bytes [] (c ∷ cs) = false
same_bytes (b ∷ bs) [] = false
same_bytes (b ∷ bs) (c ∷ cs) = b == c && same_bytes bs cs

-- CHECK(kind IN ('service', 'job')).
abbrev is_kind : String → Bool
is_kind kind = str_eq kind "service" || str_eq kind "job"

-- INSERT … ON CONFLICT(id) DO UPDATE SET kind, definition.
abbrev pub upserted : NewDefinition → Option WorkloadRow → WorkloadRow
upserted d none = record {
  kind = d.kind;
  definition = d.definition;
  enabled = d.enabled;
  last_triggered_session = "";
  last_outcome = "";
}
upserted d (some row) = record row { kind = d.kind; definition = d.definition }

unfoldable pub upsert_all :
    List NewDefinition → Map WorkloadRow → Result (Map WorkloadRow) StorageError
upsert_all [] rows = ok rows
upsert_all (d ∷ ds) rows =
    let rest = upsert_all ds (insert d.id (upserted d (lookup d.id rows)) rows) in
    if is_kind d.kind then rest else err sqlite

abbrev pub is_current : List ℕ → Option (List ℕ) → Bool
is_current generation none = false
is_current generation (some current) = same_bytes current generation

-- UPDATE workloads SET definition = NULL.
abbrev pub cleared : Map WorkloadRow → Map WorkloadRow
cleared rows = map_entries (λ _ row. record row { definition = none }) rows

unfoldable pub replace_definitions :
    List ℕ → List NewDefinition → Tables → Result (Bool × Tables) StorageError
replace_definitions generation definitions t =
    if is_current generation t.config_generation
    then ok (false, t)
    else (upsert_all definitions (cleared t.workloads) >>= λ rows.
        ok (true, record t { config_generation = some generation; workloads = rows }))

abbrev is_some {ℓ} : {A : Type ℓ} → Option A → Bool
is_some none = false
is_some (some _) = true

-- The count of changed rows is one if the row is there, whatever it holds.
unfoldable pub set_enabled : String → Bool → Tables → Bool × Tables
set_enabled id enabled t = (
  is_some (lookup id t.workloads),
  record t { workloads = adjust id (λ row. record row { enabled = enabled }) t.workloads },
)

-- The columns that are not named have their defaults.
unfoldable pub insert_execution : StoredExecution → Tables → Result Tables StorageError
insert_execution e t =
    if is_some (lookup e.id t.executions)
    then err sqlite
    else if not (is_some (lookup e.workload_id t.workloads))
    then err sqlite
    else ok (record t {
      executions =
          insert e.id
            (record e { ended_unix_ms = 0; exit_code = none; error = ""; committed_sequence = 0 })
            t.executions;
    })

-- Whether the UPDATE of `insert_enabled_job_execution` changes the row.
abbrev pub claims : String → Option WorkloadRow → Bool
claims session none = false
claims session (some row) =
    str_eq row.kind "job" && row.enabled && not (str_eq row.last_triggered_session session)

unfoldable pub insert_enabled_job_execution :
    StoredExecution → String → Tables → Result (Bool × Tables) StorageError
insert_enabled_job_execution e session t =
    if claims session (lookup e.workload_id t.workloads)
    then (insert_execution e (record t {
      workloads =
          adjust e.workload_id (λ row. record row { last_triggered_session = session }) t.workloads;
    })
        >>= λ next. ok (true, next))
    else ok (false, t)

unfoldable pub set_execution_supervisor : String → ℕ → Tables → Tables
set_execution_supervisor id process_id t = record t {
  executions =
      adjust id (λ e. record e { state = "launching"; supervisor_process_id = process_id })
        t.executions;
}

abbrev pub finished : StoredExecution → StoredExecution → StoredExecution
finished e row = record row {
  state = e.state;
  supervisor_process_id = e.supervisor_process_id;
  workload_process_id = e.workload_process_id;
  attempt = e.attempt;
  ended_unix_ms = e.ended_unix_ms;
  exit_code = e.exit_code;
  error = e.error;
}

unfoldable pub finish_execution : StoredExecution → Tables → Tables
finish_execution e t = record t {
  executions = adjust e.id (finished e) t.executions;
  workloads = adjust e.workload_id (λ row. record row { last_outcome = e.state }) t.workloads;
}

-- COALESCE(?5, error).
abbrev coalesce : Option String → String → String
coalesce none old = old
coalesce (some new) old = new

-- What a committed observation makes of the execution's row.
unfoldable pub updated : ObservationUpdate → ℕ → StoredExecution → StoredExecution
updated acknowledge sequence row = record row { committed_sequence = sequence }
updated (progress p) sequence row = record row {
  state = p.state;
  workload_process_id = p.workload_process_id;
  attempt = p.attempt;
  error = coalesce p.error row.error;
  committed_sequence = sequence;
}
updated (terminal_update t) sequence row = record row {
  state = t.state;
  workload_process_id = 0;
  attempt = t.attempt;
  ended_unix_ms = t.ended_unix_ms;
  exit_code = t.exit_code;
  error = t.error;
  committed_sequence = sequence;
}

-- Only a terminal update writes to `workloads`, in the row that the execution belongs to.
unfoldable pub outcome_noted : ObservationUpdate → String → Map WorkloadRow → Map WorkloadRow
outcome_noted acknowledge id rows = rows
outcome_noted (progress p) id rows = rows
outcome_noted (terminal_update t) id rows =
    adjust id (λ row. record row { last_outcome = t.state }) rows

-- The tables after the transaction.
abbrev pub committed_tables : String → ℕ → ObservationUpdate → StoredExecution → Tables → Tables
committed_tables id sequence update row t = record t {
  executions = adjust id (updated update sequence) t.executions;
  workloads = outcome_noted update row.workload_id t.workloads;
}

unfoldable pub commit_row :
    String → ℕ → ObservationUpdate → StoredExecution → Tables → Result (Bool × Tables) StorageError
commit_row id sequence update row t =
    if leb sequence row.committed_sequence
    then ok (false, t)
    else if not (ltb (row.committed_sequence + 1) i64_limit)
    then err invalid_integer
    else if not (sequence == row.committed_sequence + 1)
    then err (observation_out_of_order (row.committed_sequence + 1) sequence)
    else ok (true, committed_tables id sequence update row t)

unfoldable pub commit_observation :
    String → ℕ → ObservationUpdate → Tables → Result (Bool × Tables) StorageError
unfolding commit_row
commit_observation id sequence update t =
    if not (ltb sequence i64_limit)
    then err invalid_integer
    else (ok_or (lookup id t.executions) sqlite >>= λ row. commit_row id sequence update row t)

unfoldable pub get_execution : String → Tables → Option StoredExecution
get_execution id t = lookup id t.executions

-- ORDER BY started_unix_ms.
insert_started : StoredExecution → List StoredExecution → List StoredExecution
insert_started e [] = e ∷ []
insert_started e (x ∷ xs) =
    let rest = insert_started e xs in
    if ltb x.started_unix_ms e.started_unix_ms then x ∷ rest else e ∷ x ∷ xs

-- WHERE ended_unix_ms = 0 ORDER BY started_unix_ms.
unfoldable pub load_active_executions : Map StoredExecution → List StoredExecution
unfolding insert_started
load_active_executions [] = []
load_active_executions ((id, e) ∷ rows) =
    let rest = load_active_executions rows in
    if e.ended_unix_ms == 0 then insert_started e rest else rest
