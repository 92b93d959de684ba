-- ===== src/Supervisor/Recorder/Calls.antt =====
-- crates/supervisor/src/runner.rs, main.rs, controller_link.rs: the calls that write a journal or open it.
use Prim.Native.String.{String}
use susm.Common.{ℕ, Option, some, List, [], ◌∷◌, Result, ok, ◌>>=◌}
use susm.Protocol.Runtime.{
  RuntimeFrame, Record, Checkpoint, RuntimeObservation, observation, acknowledgement,
}
use susm.Supervisor.Journal.{Codec, JournalError, open_journal}
use susm.Supervisor.Journal.Frames.{Writable}
use susm.Supervisor.Journal.Sequences.{acknowledge}
use susm.Supervisor.Recorder.{
  Identity, RuntimeRecorder, ObservationFacts, Preflight, new_recorder, checkpoint, observe,
  preflight_or_default,
}

-- What happens to a journal: the runner's two calls, an acknowledgement by `controller_link::run`, and
-- a supervisor that takes over the file of its predecessor.
pub data Call : Type 0 where
  checkpointed : Identity → ℕ → String → ℕ → Option Preflight → Call
  observed : ObservationFacts → ℕ → Call
  acknowledged : ℕ → Call
  recovered : Call

abbrev pub call : Codec → RuntimeRecorder → Call → Result RuntimeRecorder JournalError
call c r (checkpointed identity attempt phase retry_at preflight) =
    checkpoint c identity r attempt phase retry_at preflight
call c r (observed facts now) = observe c r facts now
call c r (acknowledged n) = acknowledge c r.journal n >>= λ j. ok (record r { journal = j })
call c r recovered = open_journal c r.journal.bytes >>= λ j. ok (new_recorder j)

-- The run ends with the first call that fails.
abbrev pub calls : Codec → RuntimeRecorder → List Call → Result RuntimeRecorder JournalError
calls c r [] = ok r
calls c r (e ∷ es) = call c r e >>= λ next. calls c next es

abbrev pub framed : Record → RuntimeFrame
framed content = record { format = 1; content = some content }

abbrev observation_of : ObservationFacts → ℕ → ℕ → RuntimeObservation
observation_of facts now n = record {
  sequence = n;
  kind = facts.kind;
  attempt = facts.attempt;
  exit_code = facts.exit_code;
  detail = facts.detail;
  observed_unix_ms = now;
  is_terminal = facts.is_terminal;
  workload_process_id = facts.workload_process_id;
}

abbrev checkpoint_of :
    Identity
    → ℕ
    → String
    → ℕ
    → Option Preflight
    → (last_sequence committed_sequence : ℕ) → Checkpoint
checkpoint_of identity attempt phase retry_at preflight last_sequence committed_sequence =
    let found = preflight_or_default preflight in
    record {
      manager_session_id = identity.manager_session_id;
      workload_id = identity.workload_id;
      execution_id = identity.execution_id;
      supervisor_id = identity.supervisor_id;
      incarnation = identity.incarnation;
      execution_config_hash = identity.execution_config_hash;
      attempt = attempt;
      phase = phase;
      last_sequence = last_sequence;
      committed_sequence = committed_sequence;
      retry_at_unix_ms = retry_at;
      resolved_executable = found.executable;
      resolved_working_directory = found.working_directory;
      resolved_environment = found.environment;
    }

-- What the call writes is decoded to what was encoded, whatever the recorder's numbers are.
abbrev pub IsEncoded : Codec → Call → Type 0
IsEncoded c (checkpointed identity attempt phase retry_at preflight) =
    (n m : ℕ)
    → Writable c
        (framed (Record.checkpoint (checkpoint_of identity attempt phase retry_at preflight n m)))
IsEncoded c (observed facts now) =
    (n : ℕ) → Writable c (framed (observation (observation_of facts now n)))
IsEncoded c (acknowledged n) = Writable c (framed (acknowledgement n))
IsEncoded c recovered = Unit
