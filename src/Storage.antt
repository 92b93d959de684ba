-- ===== src/Storage.antt =====
-- crates/controller/src/storage.rs: the controller's tables, and each operation as the SQL that it
-- runs, one transaction an operation. The connection is always there, and SQLite's own failures are
-- those of the schema: a second row with a primary key, a foreign key without its row, the check of a
-- workload's kind, a row that is not there.
pub mod Operations
pub mod Commits
pub mod Claims
pub mod Triggers
pub mod Reload
mod Examples
use Prim.Native.String.{String}
use susm.Common.{ℕ, Bool, Option, List}
use susm.Common.Maps.{Map}

-- A row of `workloads` without its key.
pub record WorkloadRow : Type 0 where
  pub kind : String
  pub definition : Option (List ℕ)
  pub enabled : Bool
  pub last_triggered_session : String
  pub last_outcome : String

-- A row of `executions`.
pub record StoredExecution : Type 0 where
  pub id : String
  pub workload_id : String
  pub state : String
  pub supervisor_process_id : ℕ
  pub workload_process_id : ℕ
  pub attempt : ℕ
  pub started_unix_ms : ℕ
  pub ended_unix_ms : ℕ
  pub exit_code : Option ℕ
  pub error : String
  pub snapshot : List ℕ
  pub committed_sequence : ℕ

pub record Tables : Type 0 where
  pub config_generation : Option (List ℕ)
  pub workloads : Map WorkloadRow
  pub executions : Map StoredExecution

-- What a reload stores of a definition. The field `enabled` is false there, `last_outcome` unused.
pub record NewDefinition : Type 0 where
  pub id : String
  pub kind : String
  pub definition : Option (List ℕ)
  pub enabled : Bool

pub data StorageError : Type 0 where
  sqlite invalid_integer : StorageError
  observation_out_of_order : ℕ → ℕ → StorageError

pub record TerminalObservation : Type 0 where
  pub state : String
  pub ended_unix_ms : ℕ
  pub exit_code : Option ℕ
  pub error : String
  pub attempt : ℕ

pub record ProgressObservation : Type 0 where
  pub state : String
  pub workload_process_id : ℕ
  pub attempt : ℕ
  pub error : Option String

pub data ObservationUpdate : Type 0 where
  acknowledge : ObservationUpdate
  progress : ProgressObservation → ObservationUpdate
  terminal_update : TerminalObservation → ObservationUpdate
