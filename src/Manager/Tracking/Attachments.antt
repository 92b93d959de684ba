-- ===== src/Manager/Tracking/Attachments.antt =====
-- crates/controller/src/manager.rs: supervisors that start, attach and disconnect, and reloads, by the
-- active executions and the rows of the storage.
use Prim.Native.String.{String}
use susm.Common.{
  ℕ, ◌≡◌, refl, Bool, true, false, ◌&&◌, not, Option, none, some, List, Bool-cases, inl, inr,
  if◌then◌else◌, Result, ok, err, arith, ◌==◌, map,
}
use susm.Common.Maps.{Map, lookup}
use susm.Protocol.{ExecutionConfiguration}
use susm.Storage.{StoredExecution, Tables, StorageError, NewDefinition}
use susm.Storage.Operations.{set_execution_supervisor, replace_definitions, get_execution}
use susm.Manager.{Setting, WorkloadRecord, ActiveExecution, Manager, State, Task, bump}
use susm.Manager.Lifecycle.{send}
use susm.Manager.Supervisors.{
  supervisor_launched, launched, launched_in, supervisor_disconnected, disconnect_found,
  disconnected, matching, find_execution,
}
use susm.Manager.Attaching.{
  attach_supervisor, attach_stored, attach_decoded, attach_active, with_attachment, attached,
  sent_policy,
}
use susm.Manager.Reconcile.{
  reload, reload_checked, reload_stored, reloaded, reconcile_reload, reconciled, synchronized,
  definition_in, take_over, kind_change, stored_definition,
}
use susm.Manager.Tracking.{Tracks, IsTracking}
use susm.Manager.Tracking.Rows.{KeepsId, row-Tracks}
use susm.Manager.Tracking.Starts.{if-IsTracking, if-Manager}
use susm.Manager.Tracking.Steps.{adjust-Tracks, map_entries-Tracks}

module _ (x : Setting) where
  supervisor-Tracks :
      (id : String) (process_id : ℕ) (m : Manager)
      → IsTracking x m
      → IsTracking x (record m { tables = set_execution_supervisor id process_id m.tables })
  unfolding set_execution_supervisor IsTracking
  supervisor-Tracks id process_id m t =
      row-Tracks x id (λ e. record e { state = "launching"; supervisor_process_id = process_id })
        (record { id = λ e. refl; workload_id = λ e. refl; snapshot = λ e. refl }) (λ e. refl) t

  launched-IsTracking :
      (id : String) (process_id : ℕ) (m : Manager) (a : Option ActiveExecution)
      → IsTracking x m
      → IsTracking x (launched_in id process_id m a)
  unfolding launched_in launched bump IsTracking
  launched-IsTracking id process_id m none t = t
  launched-IsTracking id process_id m (some a) t =
      adjust-Tracks x id (launched process_id) m.state.active (λ a. refl) t

  pub supervisor_launched-IsTracking :
      (id execution_id : String) (process_id : ℕ) (m : Manager)
      → IsTracking x m
      → IsTracking x (supervisor_launched id execution_id process_id m)
  unfolding supervisor_launched
  supervisor_launched-IsTracking id execution_id process_id m t =
      launched-IsTracking id process_id
        (record m { tables = set_execution_supervisor execution_id process_id m.tables })
        (matching execution_id (lookup id m.state.active))
        (supervisor-Tracks execution_id process_id m t)

  found-IsTracking :
      (attachment_id : String) (m : Manager) (found : Option (String × ActiveExecution))
      → IsTracking x m
      → IsTracking x (disconnect_found attachment_id m found)
  unfolding disconnect_found disconnected bump IsTracking
  found-IsTracking attachment_id m none t = t
  found-IsTracking attachment_id m (some (id, a)) t =
      if-Manager x _ m _ t (adjust-Tracks x id disconnected m.state.active (λ a. refl) t)

  pub disconnected-IsTracking :
      (execution_id attachment_id : String) (m : Manager)
      → IsTracking x m
      → IsTracking x (supervisor_disconnected execution_id attachment_id m)
  unfolding supervisor_disconnected
  disconnected-IsTracking execution_id attachment_id m t =
      found-IsTracking attachment_id m (find_execution execution_id m.state.active) t

  attached-id :
      (process_id : ℕ) (fresh : String) (stored : StoredExecution)
      (current : Option ExecutionConfiguration)
      → KeepsId (attached x process_id fresh stored current)
  unfolding attached sent_policy send
  attached-id process_id fresh stored none a = refl
  attached-id process_id fresh stored (some d) a = elim (Bool-cases a.policy_sync_pending) [
    | inl h ↦ rw (h) refl
    | inr h ↦ rw (h) refl
  ]

  attachment-IsTracking :
      (execution_id : String) (process_id : ℕ) (fresh : String) (stored : StoredExecution)
      (owned : Bool) (m : Manager)
      → IsTracking x m
      → IsTracking x (with_attachment x execution_id process_id fresh stored owned m)
  unfolding with_attachment IsTracking bump
  attachment-IsTracking execution_id process_id fresh stored true m t =
      adjust-Tracks x stored.workload_id _ m.state.active (attached-id process_id fresh stored _)
        (supervisor-Tracks execution_id process_id m t)
  attachment-IsTracking execution_id process_id fresh stored false m t =
      adjust-Tracks x stored.workload_id _ m.state.active (attached-id process_id fresh stored _) t

  attach_active-IsTracking :
      (execution_id : String) (process_id : ℕ) (fresh : String) (stored : StoredExecution)
      (c : ExecutionConfiguration) (m : Manager) (a : Option ActiveExecution)
      → IsTracking x m
      → IsTracking x (attach_active x execution_id process_id fresh stored c m a).1
  unfolding attach_active
  attach_active-IsTracking execution_id process_id fresh stored c m none t = t
  attach_active-IsTracking execution_id process_id fresh stored c m (some a) t =
      elim (Bool-cases
        (not (a.supervisor_process_id == 0) && not (a.supervisor_process_id == process_id))) [
          | inl h ↦ rw (h) t
          | inr h ↦ rw (h) (elim (Bool-cases (a.locally_owned && a.supervisor_process_id == 0)) [
            | inl k ↦ rw (k) t
            | inr k ↦
                rw (k)
                  (attachment-IsTracking execution_id process_id fresh stored a.locally_owned m t)
          ])
        ]

  pub attach-IsTracking :
      (execution_id workload_id session : String) (hash : List ℕ) (process_id : ℕ) (fresh : String)
      (m : Manager)
      → IsTracking x m
      → IsTracking x
          (attach_supervisor x execution_id workload_id session hash process_id fresh m).1
  unfolding attach_supervisor attach_stored attach_decoded
  attach-IsTracking execution_id workload_id session hash process_id fresh m t =
      stored-IsTracking (get_execution execution_id m.tables)
    where
      decoded-IsTracking :
          (stored : StoredExecution) (c : Option ExecutionConfiguration)
          → IsTracking x
              (attach_decoded x execution_id workload_id session hash process_id fresh stored m c).1
      decoded-IsTracking stored none = t
      decoded-IsTracking stored (some c) = if-IsTracking x _ _ _ t (
          attach_active-IsTracking execution_id process_id fresh stored c m
            (matching execution_id (lookup stored.workload_id m.state.active)) t)

      stored-IsTracking :
          (stored : Option StoredExecution)
          → IsTracking x
              (attach_stored x execution_id workload_id session hash process_id fresh m stored).1
      stored-IsTracking none = t
      stored-IsTracking (some stored) = decoded-IsTracking stored (x.decode stored.snapshot)

  synchronized-id : (d : ExecutionConfiguration) → KeepsId (synchronized x d)
  unfolding synchronized send
  synchronized-id d a = elim (Bool-cases a.policy_sync_pending) [
    | inl h ↦ rw (h) refl
    | inr h ↦ rw (h) refl
  ]

  reconciled-id : (d : Option ExecutionConfiguration) → KeepsId (reconciled x d)
  unfolding reconciled
  reconciled-id none a = refl
  reconciled-id (some d) a = synchronized-id d _

  pub replaced-executions :
      (g : List ℕ) (ds : List NewDefinition) (t : Tables) (b : Bool) {next : Tables}
      → replace_definitions g ds t ≡ ok (b, next)
      → next.executions ≡ t.executions
  unfolding replace_definitions
  replaced-executions g ds t b {next} h = ground arith

  reconciled-Tracks :
      (workloads : Map WorkloadRecord) {active : Map ActiveExecution}
      {executions : Map StoredExecution} {tasks : List Task}
      → Tracks x active executions tasks
      → Tracks x
          (reconcile_reload x (record {
            workloads = workloads;
            active = active;
            revision = 0;
            session_ending = false;
          })).1.active
          executions
          tasks
  unfolding reconcile_reload
  reconciled-Tracks workloads {active} t =
      map_entries-Tracks x (λ id a. reconciled x (definition_in id workloads) a) active
        (λ id. reconciled-id (definition_in id workloads)) t

  if-Tracks :
      (b : Bool) (s : State) (t : Tables) (tasks : List Task)
      → Tracks x s.active t.executions tasks
      → Tracks x (if b then bump s else s).active t.executions tasks
  unfolding bump
  if-Tracks true s t tasks h = h
  if-Tracks false s t tasks h = h

  stored-IsTracking :
      (m : Manager) (result : Result (Bool × Tables) StorageError) (g : List ℕ)
      (ds : List NewDefinition)
      → replace_definitions g ds m.tables ≡ result
      → IsTracking x m
      → IsTracking x (reload_stored x m result).1
  unfolding reload_stored reloaded IsTracking bump reconcile_reload
  stored-IsTracking m (err e) g ds h t = t
  stored-IsTracking m (ok (false, tables)) g ds h t =
      rw (replaced-executions g ds m.tables false {next = tables} h) (
        if-Tracks (reconcile_reload x m.state).0 (reconcile_reload x m.state).1 m.tables m.tasks
          (reconciled-Tracks m.state.workloads t))
  stored-IsTracking m (ok (true, tables)) g ds h t =
      rw (replaced-executions g ds m.tables true {next = tables} h)
        (elim (Bool-cases (take_over x tables.workloads m.state.workloads).0) [
          | inl c ↦ rw (c) (reconciled-Tracks (take_over x tables.workloads m.state.workloads).1 t)
          | inr c ↦ rw (c) t
        ])

  checked-IsTracking :
      (generation : List ℕ) (definitions : List ExecutionConfiguration) (m : Manager)
      (conflict : Option String)
      → IsTracking x m
      → IsTracking x (reload_checked x generation definitions m conflict).1
  unfolding reload_checked
  checked-IsTracking generation definitions m (some id) t = t
  checked-IsTracking generation definitions m none t =
      stored-IsTracking m _ generation (map (stored_definition x) definitions) refl t

  pub reload-IsTracking :
      (generation : List ℕ) (definitions : List ExecutionConfiguration) (m : Manager)
      → IsTracking x m
      → IsTracking x (reload x generation definitions m).1
  unfolding reload
  reload-IsTracking generation definitions m t =
      checked-IsTracking generation definitions m (kind_change x definitions m.state) t
