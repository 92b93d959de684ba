-- ===== src/Manager.antt =====
-- crates/controller/src/manager.rs: the manager's state, which its methods change under one lock. The
-- methods are modelled one after the other; the storage they call is that of Storage. What the manager
-- calls outside is a parameter: the encoding of messages (`prost`), SHA-256,
-- and the path of an execution's version pin.
pub mod Snapshot
pub mod Lifecycle
pub mod Stopping
pub mod Supervisors
pub mod Attaching
pub mod Reports
pub mod Completion
pub mod Sessions
pub mod Tracking
pub mod Reconcile
pub mod History
pub mod Launching
pub mod Restarts
pub mod Ending
mod Examples
use Prim.Native.String.{String}
use susm.Common.{ℕ, ◌+◌, ◌-◌, Bool, Option, List, if◌then◌else◌, ltb, u64_limit}
use susm.Common.Maps.{Map}
use susm.Protocol.{ExecutionConfiguration, PolicyUpdate}
use susm.Storage.{Tables, StorageError}

-- `ManagerPaths` and the code that is called outside.
pub record Setting : Type 0 where
  pub manager_session_id : Option String
  pub supervisor_executable : String
  pub version_pin_path : String → Option String
  pub encode : ExecutionConfiguration → List ℕ
  pub decode : List ℕ → Option ExecutionConfiguration
  pub encode_update : PolicyUpdate → List ℕ
  pub sha256 : List ℕ → List ℕ

pub data ManagerError : Type 0 where
  storage : StorageError → ManagerError
  not_found definition_missing already_active kind_change_active : String → ManagerError
  wrong_kind : String → String → String → ManagerError
  supervisor_identity_mismatch session_is_ending undecodable : ManagerError

pub record WorkloadRecord : Type 0 where
  pub kind : String
  pub definition : Option ExecutionConfiguration
  pub enabled : Bool
  pub last_outcome : String

pub record ExecutionCommand : Type 0 where
  pub kind : String
  pub payload : List ℕ

-- A call on the sender of an execution's commands: an attachment subscribes, or a command is sent.
pub data ChannelCall : Type 0 where
  subscribed : String → ChannelCall
  sent : ExecutionCommand → ChannelCall

-- `cancelled` is the state of the cancellation token, `commands` the calls of the channel, in order.
pub record ActiveExecution : Type 0 where
  pub execution_id : String
  pub supervisor_process_id : ℕ
  pub workload_process_id : ℕ
  pub attempt : ℕ
  pub error : String
  pub state : String
  pub cancelled : Bool
  pub commands : List ChannelCall
  pub locally_owned : Bool
  pub restart_after : Bool
  pub process_definition_hash : List ℕ
  pub policy_hash : List ℕ
  pub restart_required : Bool
  pub policy_sync_pending : Bool
  pub attachment_id : Option String

pub record State : Type 0 where
  pub workloads : Map WorkloadRecord
  pub active : Map ActiveExecution
  pub revision : ℕ
  pub session_ending : Bool

-- A call of `spawn_execution`: a task that runs the supervisor's process.
pub record Task : Type 0 where
  pub workload_id : String
  pub execution_id : String
  pub definition : ExecutionConfiguration
  pub started_unix_ms : ℕ

pub record Manager : Type 0 where
  pub tables : Tables
  pub state : State
  pub tasks : List Task

-- The message `Workload`.
pub record Workload : Type 0 where
  pub workload_id : String
  pub kind : String
  pub enabled : Bool
  pub state : String
  pub execution_id : String
  pub supervisor_process_id : ℕ
  pub workload_process_id : ℕ
  pub attempt : ℕ
  pub error : String
  pub last_outcome : String
  pub is_definition_missing : Bool
  pub restart_required : Bool
  pub policy_sync_pending : Bool

-- `Inner::bump`.
unfoldable pub bump : State → State
bump s = record s {
  revision = if ltb (s.revision + 1) u64_limit then s.revision + 1 else u64_limit - 1;
}
