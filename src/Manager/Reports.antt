-- ===== src/Manager/Reports.antt =====
-- crates/controller/src/manager.rs: what is reported of an execution, up to its end.
use Prim.Native.String.{String, slice, ◌++◌ as str_append}
use text.Mathlib.Text.{◌==◌ as str_eq}
use susm.Common.{
  ℕ, ◌+◌, ◌/◌, ◌%◌, Bool, true, false, ◌&&◌, ◌||◌, not, Option, none, some, List, [], ◌∷◌,
  if◌then◌else◌, Result, ok, err,
}
use susm.Common.Maps.{lookup, adjust}
use susm.Protocol.{ExecutionConfiguration}
use susm.Storage.{
  StoredExecution, Tables, StorageError, TerminalObservation, ProgressObservation,
  ObservationUpdate, acknowledge, progress, terminal_update,
}
use susm.Storage.Operations.{get_execution, commit_observation}
use susm.Manager.{Setting, storage, not_found, undecodable, ActiveExecution, State, Manager, bump}
use susm.Manager.Lifecycle.{Outcome, with_state, start_replacement}
use susm.Manager.Supervisors.{
  SupervisorObservation, is_terminal, progress_observation, matching, retired,
}

unfoldable pub terminal_of :
    SupervisorObservation → ℕ → Option ActiveExecution → Option TerminalObservation
terminal_of o now none = none
terminal_of o now (some a) =
    if a.locally_owned
    then none
    else some (record {
      state = o.kind;
      ended_unix_ms = now;
      exit_code = o.exit_code;
      error = o.detail;
      attempt = o.attempt;
    })

-- `terminal_update`; `a` is the active execution if it is this one.
unfoldable pub terminal_for :
    SupervisorObservation → ℕ → Option ActiveExecution → Option TerminalObservation
unfolding terminal_of
terminal_for o now a = if is_terminal o.kind then terminal_of o now a else none

abbrev pub progress_for : SupervisorObservation → Option ProgressObservation
progress_for o = progress_observation o.kind o.attempt o.workload_process_id o.detail

unfoldable pub update_for :
    Option TerminalObservation → Option ProgressObservation → ObservationUpdate
update_for (some t) p = terminal_update t
update_for none (some p) = progress p
update_for none none = acknowledge

abbrev error_after : Option String → String → String
error_after none old = old
error_after (some new) old = new

abbrev pub is_terminal_update : Option TerminalObservation → Bool
is_terminal_update none = false
is_terminal_update (some t) = true

unfoldable pub with_progress : Option ProgressObservation → ActiveExecution → ActiveExecution
with_progress none a = a
with_progress (some p) a = record a {
  state = p.state;
  workload_process_id = p.workload_process_id;
  attempt = p.attempt;
  error = error_after p.error a.error;
}

abbrev pub is_progress : Option ProgressObservation → Bool
is_progress none = false
is_progress (some p) = true

-- The active execution of a workload has ended and is this one: whether a replacement starts, and the
-- state.
unfoldable pub end_active : String → String → State → Option ActiveExecution → Bool × State
end_active id outcome s none = (false, s)
end_active id outcome s (some a) = (not s.session_ending && a.restart_after, retired id outcome s)

-- One digit of `{byte:02x}`.
abbrev hex_digit : ℕ → String
hex_digit d = slice "0123456789abcdef" d (d + 1)

unfoldable pub hex : List ℕ → String
hex [] = ""
hex (byte ∷ bytes) =
    str_append (hex_digit (byte / 16)) (str_append (hex_digit (byte % 16)) (hex bytes))

module _ (x : Setting) where
  unfoldable pub replaced : String → String → ℕ → Bool → Manager → Manager
  replaced id fresh now restart m = if restart then start_replacement x id fresh now m else m

  unfoldable pub is_applied : SupervisorObservation → ActiveExecution → Bool
  is_applied o a =
      str_eq o.kind "policy-applied" && str_eq o.detail (hex a.policy_hash) && a.policy_sync_pending

  -- What an observation makes of the active execution.
  unfoldable pub observed : SupervisorObservation → ActiveExecution → ActiveExecution
  unfolding with_progress is_applied
  observed o a =
      with_progress (progress_for o)
        (record a { policy_sync_pending = if is_applied o a then false else a.policy_sync_pending })

  unfoldable pub observe_active :
      SupervisorObservation → String → State → Option ActiveExecution → State
  unfolding is_applied
  observe_active o id s none = s
  observe_active o id s (some a) =
      if is_applied o a || is_progress (progress_for o)
      then bump (record s { active = adjust id (observed o) s.active })
      else s

  unfoldable pub ended_in : String → String → ℕ → StoredExecution → Manager → Bool × State → Manager
  unfolding replaced
  ended_in execution_id fresh now stored m (restart, s) =
      replaced stored.workload_id fresh now restart (with_state m s)

  -- The version pin is removed, for which the snapshot is decoded.
  unfoldable pub end_recorded :
      SupervisorObservation
      → String
      → String
      → ℕ
      → StoredExecution
      → Manager
      → Option ExecutionConfiguration
      → Outcome Unit
  unfolding ended_in end_active
  end_recorded o execution_id fresh now stored m none = (err undecodable, m)
  end_recorded o execution_id fresh now stored m (some c) = (
    ok tt,
    ended_in execution_id fresh now stored m (
        end_active stored.workload_id o.kind m.state
          (matching execution_id (lookup stored.workload_id m.state.active))),
  )

  unfoldable pub record_committed :
      SupervisorObservation
      → String
      → String
      → ℕ
      → StoredExecution
      → Bool
      → Manager
      → Result (Bool × Tables) StorageError
      → Outcome Unit
  unfolding end_recorded observe_active
  record_committed o execution_id fresh now stored terminal m (err e) = (err (storage e), m)
  record_committed o execution_id fresh now stored terminal m (ok (false, tables)) =
      (ok tt, record m { tables = tables })
  record_committed o execution_id fresh now stored terminal m (ok (true, tables)) =
      if terminal
      then end_recorded o execution_id fresh now stored (record m { tables = tables })
          (x.decode stored.snapshot)
      else (
        ok tt,
        record m {
          tables = tables;
          state =
              observe_active o stored.workload_id m.state
                (matching execution_id (lookup stored.workload_id m.state.active));
        },
      )

  unfoldable pub record_stored :
      SupervisorObservation → String → String → ℕ → Manager → Option StoredExecution → Outcome Unit
  unfolding record_committed
  record_stored o execution_id fresh now m none = (err (not_found execution_id), m)
  record_stored o execution_id fresh now m (some stored) =
      let t =
        terminal_for o now (matching execution_id (lookup stored.workload_id m.state.active)) in
      record_committed o execution_id fresh now stored (is_terminal_update t) m
        (commit_observation execution_id o.sequence (update_for t (progress_for o)) m.tables)

  -- `Manager::record_supervisor_observation` at the time `now`; `fresh` is the id of a replacement.
  unfoldable pub record_supervisor_observation :
      String → SupervisorObservation → String → ℕ → Manager → Outcome Unit
  unfolding record_stored
  record_supervisor_observation execution_id o fresh now m =
      record_stored o execution_id fresh now m (get_execution execution_id m.tables)
