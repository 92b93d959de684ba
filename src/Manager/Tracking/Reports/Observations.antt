-- ===== src/Manager/Tracking/Reports/Observations.antt =====
-- crates/controller/src/manager.rs: `record_supervisor_observation`, by the active executions and the rows of the storage.
use Prim.Native.String.{String}
use susm.Common.{
  ℕ, suc, ◌<◌, ◌≡◌, refl, sym, subst, ◌∙◌, Bool, true, false, ◌&&◌, ◌||◌, not, Option, none, some,
  Bool-cases, inl, inr, Result, ok, err, arith,
}
use susm.Common.Maps.{lookup}
use susm.Protocol.{ExecutionConfiguration}
use susm.Storage.{
  StoredExecution, Tables, StorageError, TerminalObservation, terminal_update, ProgressObservation,
}
use susm.Storage.Operations.{commit_observation, updated, get_execution}
use susm.Manager.{Setting, ActiveExecution, Manager, bump}
use susm.Manager.Lifecycle.{with_state}
use susm.Manager.Supervisors.{matching, retired, SupervisorObservation, is_terminal}
use susm.Manager.Reports.{
  record_supervisor_observation, record_stored, record_committed, end_recorded, ended_in,
  end_active, observe_active, observed, with_progress, is_applied, terminal_for, terminal_of,
  update_for, progress_for, is_terminal_update, is_progress,
}
use susm.Manager.Tracking.{is_decodable, is_sound, IsTracking}
use susm.Manager.Tracking.Rows.{KeepsId, row-Tracks}
use susm.Manager.Tracking.Starting.{Decodes}
use susm.Manager.Tracking.Steps.{adjust-Tracks}
use susm.Manager.Tracking.Reports.Ends.{replaced-IsTracking}
use susm.Manager.Tracking.Reports.{removed-Tracks, updated-KeepsRow, refused-tables, committed-rows}

observed-id : (x : Setting) (o : SupervisorObservation) → KeepsId (observed x o)
unfolding observed
observed-id x o a = progress-id (progress_for o) _
  where
    progress-id : (p : Option ProgressObservation) → KeepsId (with_progress p)
    progress-id none a = refl
    progress-id (some p) a = refl

no-terminal : (o : SupervisorObservation) (now : ℕ) → terminal_for o now none ≡ none
unfolding terminal_for terminal_of
no-terminal o now = elim (Bool-cases (is_terminal o.kind)) [
  | inl h ↦ rw (h) refl
  | inr h ↦ rw (h) refl
]

none-some : {A : Type 0} {a : A} → none ≡ some a → ⊥
none-some {A} {a} h = cc

-- What a terminal update asks for.
terminal-cases :
    (o : SupervisorObservation) (now : ℕ) (a : Option ActiveExecution) {t : TerminalObservation}
    → terminal_for o now a ≡ some t
    → (t.ended_unix_ms ≡ now) × (b : ActiveExecution) × (a ≡ some b)
unfolding terminal_for terminal_of
terminal-cases o now none {t} h = elim (none-some {a = t} (sym (no-terminal o now) ∙ h)) [ ]
terminal-cases o now (some b) {t} h = (ground arith, b, refl)

update-ended :
    (p : Option ProgressObservation) (sequence : ℕ) (e : StoredExecution)
    → (updated (update_for none p) sequence e).ended_unix_ms ≡ e.ended_unix_ms
unfolding updated update_for
update-ended none s e = refl
update-ended (some p) s e = refl

module _ (x : Setting) (decodes : Decodes x) where
  observe-IsTracking :
      (o : SupervisorObservation) (id : String) (m : Manager) (a : Option ActiveExecution)
      → IsTracking x m
      → IsTracking x (with_state m (observe_active x o id m.state a))
  unfolding observe_active IsTracking bump
  observe-IsTracking o id m none t = t
  observe-IsTracking o id m (some a) t =
      elim (Bool-cases (is_applied x o a || is_progress (progress_for o))) [
        | inl h ↦ rw (h) (adjust-Tracks x id (observed x o) m.state.active (observed-id x o) t)
        | inr h ↦ rw (h) t
      ]

  updated-IsTracking :
      (o : SupervisorObservation) (execution_id : String) (m : Manager) {tables : Tables}
      → commit_observation execution_id o.sequence (update_for none (progress_for o)) m.tables
        ≡ ok (true, tables)
      → IsTracking x m
      → IsTracking x (record m { tables = tables })
  unfolding IsTracking
  updated-IsTracking o execution_id m {tables} h t =
      let u = update_for none (progress_for o) in
      rw (committed-rows execution_id o.sequence u m.tables {next = tables} h) (
        row-Tracks x execution_id (updated u o.sequence) (updated-KeepsRow u o.sequence)
          (update-ended (progress_for o) o.sequence) t)

  ended-IsTracking :
      (o : SupervisorObservation) (execution_id : String) (stored : StoredExecution)
      (u : TerminalObservation) (m : Manager) {tables : Tables} {a : ActiveExecution}
      → lookup execution_id m.tables.executions ≡ some stored
      → 0 < u.ended_unix_ms
      → matching execution_id (lookup stored.workload_id m.state.active) ≡ some a
      → commit_observation execution_id o.sequence (terminal_update u) m.tables ≡ ok (true, tables)
      → IsTracking x m
      → IsTracking x
          (record m { tables = tables; state = retired stored.workload_id o.kind m.state })
  unfolding IsTracking retired bump updated
  ended-IsTracking o execution_id stored u m {tables} {a} found late active h t =
      rw (committed-rows execution_id o.sequence (terminal_update u) m.tables {next = tables} h) (
        removed-Tracks x stored.workload_id execution_id stored
          (updated (terminal_update u) o.sequence) m.state.active {a = a}
          (updated-KeepsRow (terminal_update u) o.sequence) late found refl active t)

  recorded-IsTracking :
      (o : SupervisorObservation) (execution_id fresh : String) (now : ℕ) (stored : StoredExecution)
      (m : Manager) (tables : Tables) (a : Option ActiveExecution) {b : ActiveExecution}
      → a ≡ some b
      → IsTracking x
          (record m { tables = tables; state = retired stored.workload_id o.kind m.state })
      → IsTracking x (
          ended_in x execution_id fresh now stored
            (record m { tables = tables })
            (end_active stored.workload_id o.kind m.state a))
  unfolding end_active ended_in
  recorded-IsTracking o execution_id fresh now stored m tables none {b} h t =
      elim (none-some {a = b} h) [ ]
  recorded-IsTracking o execution_id fresh now stored m tables (some a) {b} h t =
      replaced-IsTracking x decodes stored.workload_id fresh now
        (not m.state.session_ending && a.restart_after) _ t

  undecodable : is_decodable {A = ExecutionConfiguration} none ≡ true → ⊥
  undecodable h = cc

  ending-IsTracking :
      (o : SupervisorObservation) (execution_id fresh : String) (now : ℕ) (stored : StoredExecution)
      (m : Manager) (tables : Tables) (c : Option ExecutionConfiguration) {b : ActiveExecution}
      → is_decodable c ≡ true
      → matching execution_id (lookup stored.workload_id m.state.active) ≡ some b
      → IsTracking x
          (record m { tables = tables; state = retired stored.workload_id o.kind m.state })
      → IsTracking x
          (end_recorded x o execution_id fresh now stored (record m { tables = tables }) c).1
  unfolding end_recorded
  ending-IsTracking o execution_id fresh now stored m tables none {b} d h t =
      elim (undecodable d) [ ]
  ending-IsTracking o execution_id fresh now stored m tables (some c) {b} d h t =
      recorded-IsTracking o execution_id fresh now stored m tables
        (matching execution_id (lookup stored.workload_id m.state.active)) {b = b} h t

  committed-IsTracking :
      (o : SupervisorObservation) (execution_id fresh : String) (now : ℕ) (stored : StoredExecution)
      (m : Manager) (u : Option TerminalObservation) (result : Result (Bool × Tables) StorageError)
      → lookup execution_id m.tables.executions ≡ some stored
      → is_decodable (x.decode stored.snapshot) ≡ true
      → terminal_for o (suc now) (matching execution_id (lookup stored.workload_id m.state.active))
        ≡ u
      → commit_observation execution_id o.sequence (update_for u (progress_for o)) m.tables ≡ result
      → IsTracking x m
      → IsTracking x
          (record_committed x o execution_id fresh
            (suc now)
            stored
            (is_terminal_update u)
            m
            result).1
  unfolding record_committed update_for
  committed-IsTracking o e fresh now stored m u (err error) found d k h t = t
  committed-IsTracking o e fresh now stored m u (ok (false, tables)) found d k h t =
      rw (refused-tables e o.sequence (update_for u (progress_for o)) m.tables {next = tables} h) t
  committed-IsTracking o e fresh now stored m none (ok (true, tables)) found d k h t =
      observe-IsTracking o stored.workload_id (record m { tables = tables })
        (matching e (lookup stored.workload_id m.state.active))
        (updated-IsTracking o e m {tables = tables} h t)
  committed-IsTracking o e fresh now stored m (some u) (ok (true, tables)) found d k h t =
      let (late, b, active) =
        terminal-cases o (suc now) (matching e (lookup stored.workload_id m.state.active)) {t = u}
          k in
      ending-IsTracking o e fresh (suc now) stored m tables (x.decode stored.snapshot) {b = b} d
        active
        (ended-IsTracking o e stored u m {tables = tables} {a = b} found (ground arith) active h t)

  sound-decodable :
      (id : String) (row : StoredExecution)
      → is_sound x id (some row) ≡ true
      → is_decodable (x.decode row.snapshot) ≡ true
  sound-decodable id row h = ground arith

  stored-IsTracking :
      (o : SupervisorObservation) (execution_id fresh : String) (now : ℕ) (m : Manager)
      (stored : Option StoredExecution)
      → lookup execution_id m.tables.executions ≡ stored
      → IsTracking x m
      → IsTracking x (record_stored x o execution_id fresh (suc now) m stored).1
  unfolding record_stored IsTracking
  stored-IsTracking o e fresh now m none h t = t
  stored-IsTracking o e fresh now m (some stored) h t =
      committed-IsTracking o e fresh now stored m
        (terminal_for o (suc now) (matching e (lookup stored.workload_id m.state.active)))
        (commit_observation e o.sequence
          (update_for
            (terminal_for o (suc now) (matching e (lookup stored.workload_id m.state.active)))
            (progress_for o))
          m.tables)
        h (sound-decodable e stored (row-sound h t)) refl refl t
    where
      row-sound :
          lookup e m.tables.executions ≡ some stored
          → IsTracking x m
          → is_sound x e (some stored) ≡ true
      row-sound h t = subst (λ o. is_sound x e o ≡ true) h (t.sound e)

  pub record-IsTracking :
      (o : SupervisorObservation) (execution_id fresh : String) (now : ℕ) (m : Manager)
      → IsTracking x m
      → IsTracking x (record_supervisor_observation x execution_id o fresh (suc now) m).1
  unfolding record_supervisor_observation get_execution
  record-IsTracking o execution_id fresh now m t =
      stored-IsTracking o execution_id fresh now m (lookup execution_id m.tables.executions) refl t
