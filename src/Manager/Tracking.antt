-- ===== src/Manager/Tracking.antt =====
-- crates/controller/src/manager.rs: the manager's active executions and the rows of its storage.
pub mod Rows
pub mod Starting
pub mod Starts
pub mod Steps
pub mod Attachments
pub mod Recovery
pub mod Reports
pub mod Histories
use Prim.Native.String.{String}
use text.Mathlib.Text.{◌==◌ as str_eq}
use susm.Common.{ℕ, ◌≡◌, Bool, true, false, ◌&&◌, Option, none, some, List, ◌==◌, All}
use susm.Common.Maps.{Map, lookup}
use susm.Common.Maps.Keys.{has_unique_keys}
use susm.Storage.{StoredExecution}
use susm.Manager.{Setting, ActiveExecution, Task, Manager}

abbrev pub runs : String → Option ActiveExecution → Bool
runs id none = false
runs id (some a) = str_eq a.execution_id id

-- Whether the manager takes the execution for the active one of the workload.
abbrev pub is_active : String → String → Map ActiveExecution → Bool
is_active wid id active = runs id (lookup wid active)

abbrev pub is_open : String → Option StoredExecution → Bool
is_open wid none = false
is_open wid (some row) = str_eq row.workload_id wid && row.ended_unix_ms == 0

-- Whether the execution is one of the workload that has not ended in the storage.
abbrev pub is_unfinished : String → String → Map StoredExecution → Bool
is_unfinished wid id executions = is_open wid (lookup id executions)

abbrev pub is_decodable : {A : Type 0} → Option A → Bool
is_decodable none = false
is_decodable (some c) = true

-- A row stands under its id, and its snapshot can be decoded.
abbrev pub is_sound : Setting → String → Option StoredExecution → Bool
is_sound x id none = true
is_sound x id (some row) = str_eq row.id id && is_decodable (x.decode row.snapshot)

-- A row belongs to a task's workload.
abbrev pub belongs : String → Option StoredExecution → Bool
belongs wid none = false
belongs wid (some row) = str_eq row.workload_id wid

abbrev pub IsTaskOf : Map StoredExecution → Task → Type 0
IsTaskOf executions task = belongs task.workload_id (lookup task.execution_id executions) ≡ true

-- The active executions are those that have not ended in the storage.
pub record Tracks (x : Setting) (active : Map ActiveExecution) (executions : Map StoredExecution)
    (tasks : List Task) : Type 0 where
  pub sound : (id : String) → is_sound x id (lookup id executions) ≡ true
  pub agree : (wid id : String) → is_active wid id active ≡ is_unfinished wid id executions
  pub unique : has_unique_keys active ≡ true
  pub known : All (IsTaskOf executions) tasks

unfoldable pub IsTracking : Setting → Manager → Type 0
IsTracking x m = Tracks x m.state.active m.tables.executions m.tasks
