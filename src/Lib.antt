-- ===== src/Lib.antt =====
-- SUSM, a supervisor of a Windows user's services and jobs: its lifecycle model, and the parts of the
-- controller and of the supervisor process that carry it out.
--
-- The parts. A controller owns the workloads of a session; for each execution it starts a supervisor
-- process, which launches the workload, retries it and reports what happens. The two agree on policies
-- by a configuration snapshot and its updates, and on progress by numbered observations, which the
-- supervisor keeps in a journal so that a successor can go on after a crash.
--
-- Domain models crates/domain, the rules of all this without input and output. Time is `time.rs` (a
-- duration is a number of nanoseconds, an instant a number of 100 ns ticks), Ids `ids.rs`, Restart
-- `restart.rs`, Execution `execution.rs`, Controller `controller.rs`, SupervisorBinding
-- `supervisor_binding.rs`, Transition `transition.rs`. Each `transition` is a function from a state and
-- an event to the next state with its effects, or to the error of the code. A method that matches on
-- `self.phase` or `self.control` is a function by clauses on it, with the suffix `_in` or `_from`
-- (`launch_succeeded_in` is `ExecutionState::launch_succeeded`). `run` is a history: the events in order,
-- a rejected one changing nothing, with all effects collected. UUIDs and hashes are opaque numbers.
--
-- Protocol has the messages of crates/protocol/proto that the modelled code uses; a signed number of the
-- wire is its 64-bit pattern. Config has the policies of crates/config/src/model.rs that a snapshot is
-- made of, and Config/Raw the validation of the restart table in crates/config/src/raw.rs.
--
-- Storage models crates/controller/src/storage.rs: the tables as maps by their primary keys, each
-- operation as the SQL that it runs, in one transaction; SQLite fails where the schema says so.
--
-- Manager models crates/controller/src/manager.rs on top of it. Snapshot makes snapshots and policy
-- updates (`apply_restart`, `apply_stop`, `apply_logging`, `policy_update`, `supervisor_retry_delay`);
-- Lifecycle has `start`, Stopping `cancel` and what is made of it; Supervisors and Attaching have
-- `supervisor_disconnected`, the launch of a supervisor and `attach_supervisor`; Reports
-- `record_supervisor_observation`, Completion `supervisor_terminal` and `complete_execution`; Sessions
-- `open`, `start_enabled`, `set_enabled`, `end_session` and the monitors of recovered executions;
-- Reconcile `reload` and `reconcile_reload`; Launching the loop of `run_execution`, on what each of its
-- rounds meets outside; Tracking, Ending and Restarts have the lemmas. A method is a function
-- from the manager to its result and the manager after it, and the methods run one after the other, where
-- the code has them take turns by its lock; a method that takes the lock more than once runs as a whole.
-- `open` is `open_manager`. A clock reading and a new UUID are arguments. A channel is the list of the
-- calls on it. Parameters (`Setting`): SHA-256, the Protobuf encoding (`Decodes` states what is relied
-- on: an encoded snapshot can be decoded) and the path of a version pin. History has the calls as steps.
--
-- Supervisor models crates/supervisor. Retry is `should_retry`, `retry_delay` and `apply_policy` of
-- `runner.rs`; Journal is the runtime journal of `journal.rs` on the bytes of its file, with the Protobuf
-- encoding and the CRC as the parameter `Codec` (`Writable` states what the code relies on: a frame
-- decodes to itself, and a checksum is a `u32`); Recorder is `RuntimeRecorder` of `runner.rs`, with
-- the calls on a journal in Calls: a supervisor that takes over reads the file again.
--
-- Bounds. `u32` and `u64` counters and times carry their checked or saturating operations written out
-- with the limits 2 ^ 32 and 2 ^ 64. A duration is below 2 ^ 64 seconds. A frame is 4 MiB at most, a file
-- below 2 ^ 63 bytes. The reading loop is on fuel, one round more than the file has bytes; each round
-- takes eight bytes at least. The backoff loops are recursion on the number of their rounds.
-- The loop of `run_execution` is recursion on the list of its rounds; eight are enough, as long as no
-- supervisor process hangs. A process that never exits leaves the task waiting, as `child.wait` does.
--
-- Not modelled: the asynchronous loops of the runner and of the controller link, the servers of the
-- controller, the manager's reading methods and its files, the rest of the validation of configuration
-- files, the output journal's segments and their retention, pipes, sessions, the host, diagnostics and
-- the command line. These are input and output, or are to follow. Disk writes are taken to succeed; what
-- an interrupted write leaves is modelled as a torn tail.

pub mod Common
pub mod Domain
pub mod Protocol
pub mod Config
pub mod Storage
pub mod Manager
pub mod Supervisor
