-- ===== src/Manager/Launching.antt =====
-- crates/controller/src/manager.rs: `run_execution`, the task that keeps an execution's supervisor running.
-- What a round of its loop meets outside is a `Round`.
pub mod Budget
use Prim.Native.String.{String}
use text.Mathlib.Text.{◌==◌ as str_eq}
use susm.Common.{
  ℕ, zero, suc, ◌+◌, ◌-◌, Bool, true, false, ◌||◌, Option, none, some, List, [], ◌∷◌, if◌then◌else◌,
  ltb, leb, u32_limit,
}
use susm.Protocol.{ExecutionConfiguration}
use susm.Manager.Supervisors.{is_terminal}
use susm.Manager.Completion.{ExecutionFinish, succeeded}

-- The message `AttemptResult`.
pub record AttemptResult : Type 0 where
  pub outcome : String
  pub exit_code : Option ℕ
  pub error : String
  pub stop_requested : Bool

-- The process that a round starts, or the error of the start.
pub data Spawned : Type 0 where
  process : ℕ → Spawned
  spawn_error : String → Spawned

-- How `child.wait` goes: the process exits, the cancellation comes first and the process ends after it, or
-- the process never exits.
pub data WaitEnd : Type 0 where
  process_exited cancelled_first hanging : WaitEnd

pub record Round : Type 0 where
  pub is_cancelled : Bool
  pub spawned : Spawned
  pub wait : WaitEnd
  pub result : Option AttemptResult
  pub cancelled_in_sleep : Bool

-- `stopped_attempt_result`.
abbrev pub stopped_attempt_result : AttemptResult
stopped_attempt_result = record {
  outcome = "";
  exit_code = none;
  error = "";
  stop_requested = true;
}

abbrev pub next_failure : ℕ → ℕ
next_failure failures = if ltb (failures + 1) u32_limit then failures + 1 else u32_limit - 1

-- How a round ends: the loop goes on with the failures and the process, breaks with a result, or the
-- task finishes; or it waits for ever.
pub data RoundEnd : Type 0 where
  again : ℕ → ℕ → RoundEnd
  broken : AttemptResult → Bool → ℕ → RoundEnd
  given_up : ExecutionFinish → RoundEnd
  waits : RoundEnd

abbrev unavailable : String → ℕ → RoundEnd
unavailable error process_id = given_up (record {
  state = "supervisor-unavailable";
  exit_code = none;
  error = error;
  supervisor_process_id = process_id;
})

unfoldable pub after_sleep : Round → ℕ → ℕ → RoundEnd
after_sleep r failures process_id =
    if r.cancelled_in_sleep
    then broken stopped_attempt_result true process_id
    else again failures process_id

unfoldable pub after_exit : Round → ℕ → ℕ → Bool → Option AttemptResult → RoundEnd
unfolding after_sleep
after_exit r failures process_id cancelled (some result) = broken result cancelled process_id
after_exit r failures process_id cancelled none =
    if cancelled
    then broken stopped_attempt_result true process_id
    else if leb 8 (next_failure failures)
    then unavailable "supervisor launch budget exhausted without a terminal result" process_id
    else after_sleep r (next_failure failures) process_id

unfoldable pub after_wait : Round → ℕ → ℕ → WaitEnd → RoundEnd
unfolding after_exit
after_wait r failures process_id process_exited = after_exit r failures process_id false r.result
after_wait r failures process_id cancelled_first = after_exit r failures process_id true r.result
after_wait r failures process_id hanging = waits

unfoldable pub after_spawn : Round → ℕ → ℕ → Spawned → RoundEnd
unfolding after_wait
after_spawn r failures before (process process_id) = after_wait r failures process_id r.wait
after_spawn r failures before (spawn_error error) =
    if leb 8 (next_failure failures)
    then unavailable error 0
    else after_sleep r (next_failure failures) before

-- The loop's body.
unfoldable pub round_end : Round → ℕ → ℕ → RoundEnd
unfolding after_spawn
round_end r failures process_id =
    if r.is_cancelled
    then broken stopped_attempt_result true process_id
    else after_spawn r failures process_id r.spawned

-- What `run_execution` makes of the result.
unfoldable pub finish_of : ExecutionConfiguration → AttemptResult → Bool → ℕ → ExecutionFinish
finish_of c result cancelled process_id = record {
  state =
      if is_terminal result.outcome
      then result.outcome
      else if cancelled || result.stop_requested
      then (if str_eq c.kind "job" then "cancelled" else "stopped")
      else if succeeded c.success_exit_codes result.exit_code
      then "completed"
      else "failed";
  exit_code = result.exit_code;
  error = result.error;
  supervisor_process_id = process_id;
}

-- Where the task is after its rounds.
pub data Progress : Type 0 where
  finished : ExecutionFinish → Progress
  waiting : Progress

abbrev pub counted : Option (ℕ × Progress) → Option (ℕ × Progress)
counted none = none
counted (some (n, p)) = some (suc n, p)

-- The loop on the rounds that come; none if they are used up before it ends. It says how many rounds it
-- has begun, and whether it has finished or waits for ever in the last one.
unfoldable pub run_rounds : ExecutionConfiguration → List Round → ℕ → ℕ → Option (ℕ × Progress)
run_rounds c [] failures process_id = none
run_rounds c (r ∷ rs) failures process_id = elim (round_end r failures process_id) [
  | again next id ↦ counted (run_rounds c rs next id)
  | broken result cancelled id ↦ some (1, finished (finish_of c result cancelled id))
  | given_up f ↦ some (1, finished f)
  | waits ↦ some (1, waiting)
]

unfoldable pub run_execution : ExecutionConfiguration → List Round → Option (ℕ × Progress)
run_execution c rounds = run_rounds c rounds 0 0
