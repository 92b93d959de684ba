-- ===== src/Protocol/Runtime.antt =====
-- crates/protocol/proto/susm/runtime/v1/runtime.proto: the frames of a runtime journal.
use Prim.Native.String.{String}
use susm.Common.{ℕ, Bool, List, Option}

pub record Checkpoint : Type 0 where
  pub manager_session_id : String
  pub workload_id : String
  pub execution_id : String
  pub supervisor_id : String
  pub incarnation : ℕ
  pub execution_config_hash : List ℕ
  pub attempt : ℕ
  pub phase : String
  pub last_sequence : ℕ
  pub committed_sequence : ℕ
  pub retry_at_unix_ms : ℕ
  pub resolved_executable : String
  pub resolved_working_directory : String
  pub resolved_environment : List (String × String)

pub record RuntimeObservation : Type 0 where
  pub sequence : ℕ
  pub kind : String
  pub attempt : ℕ
  pub exit_code : Option ℕ
  pub detail : String
  pub observed_unix_ms : ℕ
  pub is_terminal : Bool
  pub workload_process_id : ℕ

pub data Record : Type 0 where
  checkpoint : Checkpoint → Record
  observation : RuntimeObservation → Record
  acknowledgement : ℕ → Record

pub record RuntimeFrame : Type 0 where
  pub format : ℕ
  pub content : Option Record
