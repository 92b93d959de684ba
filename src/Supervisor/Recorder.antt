-- ===== src/Supervisor/Recorder.antt =====
-- crates/supervisor/src/runner.rs: `RuntimeRecorder`, and where `run` makes it from the journal. The
-- sends of an observation to the link and to the log are not modelled; the clock's answer is an
-- argument.
pub mod Calls
pub mod Order
pub mod Reopening
use Prim.Native.String.{String}
use susm.Common.{
  ℕ, ◌+◌, ◌-◌, ◌≡◌, Bool, true, false, Option, none, some, List, [], ◌∷◌, if◌then◌else◌, ltb,
  u64_limit, Result, ok, err, ◌>>=◌,
}
use susm.Protocol.Runtime.{Checkpoint, RuntimeObservation}
use susm.Supervisor.Journal.{Codec, JournalError, RuntimeJournal, RuntimeRecovery}
use susm.Supervisor.Journal.Sequences.{recovery, append_checkpoint, append_observation, acknowledge}

-- Who records: `SupervisorIdentity` and the parts of the configuration that a checkpoint repeats.
pub record Identity : Type 0 where
  pub manager_session_id : String
  pub workload_id : String
  pub execution_id : String
  pub supervisor_id : String
  pub incarnation : ℕ
  pub execution_config_hash : List ℕ

pub record RuntimeRecorder : Type 0 where
  pub journal : RuntimeJournal
  pub sequence : ℕ
  pub committed_sequence : ℕ

pub record ObservationFacts : Type 0 where
  pub kind : String
  pub attempt : ℕ
  pub exit_code : Option ℕ
  pub detail : String
  pub is_terminal : Bool
  pub workload_process_id : ℕ

pub record Preflight : Type 0 where
  pub executable : String
  pub working_directory : String
  pub environment : List (String × String)

-- `u64::saturating_add(1)`.
unfoldable pub saturating_next : ℕ → ℕ
saturating_next n = if ltb (n + 1) u64_limit then n + 1 else u64_limit - 1

unfoldable pub new_recorder : RuntimeJournal → RuntimeRecorder
new_recorder j =
    let found = recovery j in
    record {
      journal = j;
      sequence = found.last_sequence;
      committed_sequence = found.committed_sequence;
    }

abbrev pub preflight_or_default : Option Preflight → Preflight
preflight_or_default (some p) = p
preflight_or_default none = record { executable = ""; working_directory = ""; environment = [] }

module _ (c : Codec) where
  unfoldable pub checkpoint :
      Identity
      → RuntimeRecorder
      → ℕ
      → String
      → ℕ
      → Option Preflight
      → Result RuntimeRecorder JournalError
  checkpoint identity r attempt phase retry_at_unix_ms preflight =
      let found = preflight_or_default preflight in
      append_checkpoint c r.journal (record {
        manager_session_id = identity.manager_session_id;
        workload_id = identity.workload_id;
        execution_id = identity.execution_id;
        supervisor_id = identity.supervisor_id;
        incarnation = identity.incarnation;
        execution_config_hash = identity.execution_config_hash;
        attempt = attempt;
        phase = phase;
        last_sequence = r.sequence;
        committed_sequence = r.committed_sequence;
        retry_at_unix_ms = retry_at_unix_ms;
        resolved_executable = found.executable;
        resolved_working_directory = found.working_directory;
        resolved_environment = found.environment;
      })
      >>= λ j. ok (record r { journal = j })

  unfoldable pub observe :
      RuntimeRecorder → ObservationFacts → ℕ → Result RuntimeRecorder JournalError
  observe r facts now =
      let sequence = saturating_next r.sequence in
      append_observation c r.journal (record {
        sequence = sequence;
        kind = facts.kind;
        attempt = facts.attempt;
        exit_code = facts.exit_code;
        detail = facts.detail;
        observed_unix_ms = now;
        is_terminal = facts.is_terminal;
        workload_process_id = facts.workload_process_id;
      })
      >>= λ j. ok (record r { journal = j; sequence = sequence })
