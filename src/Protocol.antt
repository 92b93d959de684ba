-- ===== src/Protocol.antt =====
-- crates/protocol: the messages that the modelled code reads and writes, field by field. A `string`
-- is a `String`, `bytes` are their numbers, an environment value is a pair (name, value).
pub mod Runtime
use Prim.Native.String.{String}
use susm.Common.{ℕ, Bool, List}

-- proto/susm/supervisor/v1/supervisor.proto
pub record ExecutionConfiguration : Type 0 where
  pub workload_id : String
  pub execution_id : String
  pub attempt : ℕ
  pub kind : String
  pub executable : String
  pub arguments : List String
  pub working_directory : String
  pub environment_set : List (String × String)
  pub environment_unset : List String
  pub success_exit_codes : List ℕ
  pub stop_method : String
  pub stop_timeout_ms : ℕ
  pub stop_executable : String
  pub stop_arguments : List String
  pub capture_logs : Bool
  pub segment_size : ℕ
  pub segment_age_ms : ℕ
  pub retention_size : ℕ
  pub retention_size_unlimited : Bool
  pub retention_age_ms : ℕ
  pub retention_age_unlimited : Bool
  pub log_directory : String
  pub runtime_journal : String
  pub result_file : String
  pub restart_policy : String
  pub max_restarts : ℕ
  pub max_restarts_unlimited : Bool
  pub restart_reset_after_ms : ℕ
  pub restart_backoff_initial_ms : ℕ
  pub restart_backoff_multiplier : ℕ
  pub restart_backoff_maximum_ms : ℕ
  pub execution_config_hash : List ℕ
  pub manager_session_id : String
  pub process_definition_hash : List ℕ
  pub supervisor_executable : String
  pub version_pin : String

pub record PolicyUpdate : Type 0 where
  pub success_exit_codes : List ℕ
  pub restart_policy : String
  pub max_restarts : ℕ
  pub max_restarts_unlimited : Bool
  pub restart_reset_after_ms : ℕ
  pub restart_backoff_initial_ms : ℕ
  pub restart_backoff_multiplier : ℕ
  pub restart_backoff_maximum_ms : ℕ
  pub stop_method : String
  pub stop_timeout_ms : ℕ
  pub stop_executable : String
  pub stop_arguments : List String
  pub capture_logs : Bool
  pub segment_size : ℕ
  pub segment_age_ms : ℕ
  pub retention_size : ℕ
  pub retention_size_unlimited : Bool
  pub retention_age_ms : ℕ
  pub retention_age_unlimited : Bool
  pub policy_hash : List ℕ
