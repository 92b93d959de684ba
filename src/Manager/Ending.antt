-- ===== src/Manager/Ending.antt =====
-- crates/controller/src/manager.rs: the calls that would start an execution, when the session is ending.
pub mod Reports
pub mod Histories
use native.Mathlib.Nat.{}
use Prim.Native.String.{String}
use text.Mathlib.Text.{◌==◌ as str_eq}
use mathlib.Core.Option
use susm.Common.{
  ℕ, zero, suc, ◌≡◌, refl, sym, ap, subst, ◌∙◌, Bool, true, false, ◌&&◌, ◌||◌, not, Option, none,
  some, List, [], ◌∷◌, ◌==◌, Bool-cases, Option-cases, Result-cases, ◌⊎◌, inl, inr, if◌then◌else◌,
  Result, ok, err, ◌>>=◌, arith, map,
}
use susm.Common.Maps.{Map, lookup, adjust, lookup-adjust}
use susm.Protocol.{ExecutionConfiguration}
use susm.Storage.{StoredExecution, Tables, StorageError, NewDefinition, ObservationUpdate}
use susm.Storage.Operations.{
  set_enabled as write_enabled, set_execution_supervisor, replace_definitions, commit_observation,
  updated, finish_execution, finished,
}
use susm.Manager.{Setting, WorkloadRecord, ActiveExecution, Manager, State, Task, bump}
use susm.Manager.Lifecycle.{
  with_state, start, start_service, run_job, replace_kind, start_replacement,
}
use susm.Manager.Stopping.{
  cancel, cancel_known, cancel_active, rerun_job, rerun_active, stop_service, restart_service,
  cancel_job,
}
use susm.Manager.Supervisors.{
  supervisor_launched, launched_in, supervisor_disconnected, disconnect_found, matching,
  find_execution, retired, SupervisorObservation,
}
use susm.Manager.Attaching.{
  attach_supervisor, attach_stored, attach_decoded, attach_active, with_attachment,
}
use susm.Manager.Reports.{
  record_supervisor_observation, record_stored, record_committed, end_recorded, ended_in,
  end_active, observe_active, replaced, terminal_for, update_for, progress_for, is_terminal_update,
  is_applied, is_progress,
}
use susm.Manager.Completion.{
  ExecutionFinish, supervisor_terminal, terminal_stored, terminal_decoded, terminal_found,
  complete_execution, complete_row, complete_state,
}
use susm.Manager.Sessions.{
  end_session, set_enabled, enable_known, start_enabled, start_all, trigger_all, trigger_in,
  enabled_of, recovery_expired, recover_stored, recover_decoded, recover_found,
}
use susm.Manager.Reconcile.{
  reload, reload_checked, reload_stored, reloaded, reconcile_reload, take_over, stored_definition,
  kind_change,
}
use susm.Manager.Tracking.Reports.{committed-rows, refused-tables}
use susm.Manager.Tracking.Attachments.{replaced-executions}

-- The session is ending, and there is no execution `id`.
pub record IsQuiet (id : String) (m : Manager) : Type 0 where
  pub ending : m.state.session_ending ≡ true
  pub absent : lookup id m.tables.executions ≡ none

pub absent-adjust :
    (id key : String) (g : StoredExecution → StoredExecution) (m : Map StoredExecution)
    → lookup id m ≡ none
    → lookup id (adjust key g m) ≡ none
absent-adjust id key g m h =
    rw (lookup-adjust key id g m, h)
      (elim (Bool-cases (str_eq key id)) [ inl e ↦ rw (e) refl | inr e ↦ rw (e) refl ])

if-same : {A : Type 0} (b : Bool) (p : A) → (if b then p else p) ≡ p
if-same true p = refl
if-same false p = refl

pub if-IsQuiet :
    (id : String) (b : Bool) (p q : Manager)
    → IsQuiet id p
    → IsQuiet id q
    → IsQuiet id (if b then p else q)
if-IsQuiet id true p q h k = h
if-IsQuiet id false p q h k = k

module _ (x : Setting) (id : String) where
  start-refused :
      (w fresh : String) (now : ℕ) (expected : String) (exclusive : Bool) (session : Option String)
      (m : Manager)
      → IsQuiet id m
      → (start x w fresh now expected exclusive session m).1 ≡ m
  unfolding start
  start-refused w fresh now expected exclusive session m q = rw (q.ending) refl

  kind-refused :
      (w fresh : String) (now : ℕ) (m : Manager) (r : Option WorkloadRecord)
      → IsQuiet id m
      → replace_kind x w fresh now m r ≡ m
  unfolding replace_kind start_service run_job
  kind-refused w fresh now m none q = refl
  kind-refused w fresh now m (some r) q =
      rw
        (
          start-refused w fresh now "service" false none m q,
          start-refused w fresh now "job" true none m q,
          if-same (str_eq r.kind "job") m,
        )
        (if-same (str_eq r.kind "service") m)

  pub replaced-IsQuiet :
      (w fresh : String) (now : ℕ) (restart : Bool) (m : Manager)
      → IsQuiet id m
      → IsQuiet id (replaced x w fresh now restart m)
  unfolding replaced start_replacement
  replaced-IsQuiet w fresh now true m q =
      subst (IsQuiet id) (sym (kind-refused w fresh now m (lookup w m.state.workloads) q)) q
  replaced-IsQuiet w fresh now false m q = q

  pub started-IsQuiet :
      (w fresh : String) (now : ℕ) (expected : String) (exclusive : Bool) (session : Option String)
      (m : Manager)
      → IsQuiet id m
      → IsQuiet id (start x w fresh now expected exclusive session m).1
  started-IsQuiet w fresh now expected exclusive session m q =
      subst (IsQuiet id) (sym (start-refused w fresh now expected exclusive session m q)) q

  pub start_all-IsQuiet :
      (ids : List String) (fresh : String → String) (now : ℕ) (m : Manager)
      → IsQuiet id m
      → IsQuiet id (start_all x ids fresh now m)
  unfolding start_all start_service
  start_all-IsQuiet [] fresh now m q = q
  start_all-IsQuiet (w ∷ ws) fresh now m q =
      start_all-IsQuiet ws fresh now _ (started-IsQuiet w (fresh w) now "service" false none m q)

  trigger_all-IsQuiet :
      (ids : List String) (fresh : String → String) (now : ℕ) (session : String) (m : Manager)
      → IsQuiet id m
      → IsQuiet id (trigger_all x ids fresh now session m)
  unfolding trigger_all
  trigger_all-IsQuiet [] fresh now session m q = q
  trigger_all-IsQuiet (w ∷ ws) fresh now session m q =
      trigger_all-IsQuiet ws fresh now session _
        (started-IsQuiet w (fresh w) now "job" true (some session) m q)

  pub trigger_in-IsQuiet :
      (ids : List String) (fresh : String → String) (now : ℕ) (session : Option String)
      (m : Manager)
      → IsQuiet id m
      → IsQuiet id (trigger_in x ids fresh now session m)
  unfolding trigger_in
  trigger_in-IsQuiet ids fresh now none m q = q
  trigger_in-IsQuiet ids fresh now (some session) m q =
      if-IsQuiet id (str_eq session "") m _ q (trigger_all-IsQuiet ids fresh now session m q)

  cancelled-IsQuiet :
      (w expected : String) (restart_after : Bool) (m : Manager) (r : Option WorkloadRecord)
      → IsQuiet id m
      → IsQuiet id (cancel_known w expected restart_after m r).1
  unfolding cancel_known cancel_active bump
  cancelled-IsQuiet w expected restart_after m none q = q
  cancelled-IsQuiet w expected restart_after m (some r) q =
      elim (Bool-cases (str_eq r.kind expected)) [
        | inl e ↦ elim (Option-cases (lookup w m.state.active)) [
          | inl k ↦ rw (e, k) q
          | inr (a, k) ↦ rw (e, k) (record { ending = q.ending; absent = q.absent })
        ]
        | inr e ↦ rw (e) q
      ]

  pub cancel-IsQuiet :
      (w expected : String) (restart_after : Bool) (m : Manager)
      → IsQuiet id m
      → IsQuiet id (cancel w expected restart_after m).1
  unfolding cancel
  cancel-IsQuiet w expected restart_after m q =
      cancelled-IsQuiet w expected restart_after m (lookup w m.state.workloads) q

  pub rerun-IsQuiet :
      (w fresh : String) (now : ℕ) (m : Manager) (a : Option ActiveExecution)
      → IsQuiet id m
      → IsQuiet id (rerun_active x w fresh now m a).1
  unfolding rerun_active
  rerun-IsQuiet w fresh now m none q = started-IsQuiet w fresh now "job" true none m q
  rerun-IsQuiet w fresh now m (some a) q = cancel-IsQuiet w "job" true m q

  pub end_session-IsQuiet : (m : Manager) → IsQuiet id m → IsQuiet id (end_session m)
  unfolding end_session bump
  end_session-IsQuiet m q =
      if-IsQuiet id m.state.session_ending m _ q (record { ending = refl; absent = q.absent })

  enabled-IsQuiet :
      (w : String) (enabled changed : Bool) (m : Manager) (r : Option WorkloadRecord)
      → IsQuiet id m
      → IsQuiet id (enable_known w enabled changed m r).1
  unfolding enable_known bump
  enabled-IsQuiet w enabled changed m none q = q
  enabled-IsQuiet w enabled true m (some r) q = record { ending = q.ending; absent = q.absent }
  enabled-IsQuiet w enabled false m (some r) q = q

  pub set_enabled-IsQuiet :
      (w : String) (enabled : Bool) (m : Manager)
      → IsQuiet id m
      → IsQuiet id (set_enabled w enabled m).1
  unfolding set_enabled write_enabled
  set_enabled-IsQuiet w enabled m q =
      enabled-IsQuiet w enabled (write_enabled w enabled m.tables).0
        (record m { tables = (write_enabled w enabled m.tables).1 }) (lookup w m.state.workloads)
        (record { ending = q.ending; absent = q.absent })
