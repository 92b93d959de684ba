-- ===== src/Manager/Reconcile.antt =====
-- crates/controller/src/manager.rs: the reload of the configuration.
pub mod Again
use Prim.Native.String.{String}
use text.Mathlib.Text.{◌==◌ as str_eq}
use susm.Common.{
  ℕ, Bool, true, false, ◌&&◌, ◌||◌, not, Option, none, some, List, [], ◌∷◌, if◌then◌else◌, Result,
  ok, err, map,
}
use susm.Common.Maps.{Map, lookup, insert, map_entries}
use susm.Protocol.{ExecutionConfiguration, PolicyUpdate}
use susm.Storage.{WorkloadRow, Tables, NewDefinition, StorageError}
use susm.Storage.Operations.{same_bytes, replace_definitions}
use susm.Manager.{
  Setting, ManagerError, storage, kind_change_active, undecodable, WorkloadRecord, ActiveExecution,
  State, Manager, bump,
}
use susm.Manager.Snapshot.{policy_update}
use susm.Manager.Lifecycle.{Outcome, send, digest}

abbrev pub definition_in : String → Map WorkloadRecord → Option ExecutionConfiguration
definition_in id workloads = elim (lookup id workloads) [ none ↦ none | some r ↦ r.definition ]

abbrev pub different : Bool → Bool → Bool
different true b = not b
different false b = b

module _ (x : Setting) where
  abbrev pub needs_restart : ExecutionConfiguration → ActiveExecution → Bool
  needs_restart d a = not (same_bytes a.process_definition_hash d.process_definition_hash)

  abbrev pub new_policy : ExecutionConfiguration → ActiveExecution → Bool
  new_policy d a = not (same_bytes a.policy_hash (policy_update (digest x) d).policy_hash)

  unfoldable pub synchronized : ExecutionConfiguration → ActiveExecution → ActiveExecution
  synchronized d a =
      if a.policy_sync_pending
      then send
          (record {
            kind = "update-policy";
            payload = x.encode_update (policy_update (digest x) d);
          })
          a
      else a

  -- The body of the loop, for an execution and the definition of its workload.
  unfoldable pub reconciled : Option ExecutionConfiguration → ActiveExecution → ActiveExecution
  unfolding synchronized
  reconciled none a = record a { restart_required = false }
  reconciled (some d) a = synchronized d (record a {
    restart_required = needs_restart d a;
    policy_hash =
        if new_policy d a then (policy_update (digest x) d).policy_hash else a.policy_hash;
    policy_sync_pending = new_policy d a || a.policy_sync_pending;
  })

  -- Whether it sets `changed`.
  unfoldable pub reconcile_changes : Option ExecutionConfiguration → ActiveExecution → Bool
  reconcile_changes none a = a.restart_required
  reconcile_changes (some d) a = different a.restart_required (needs_restart d a) || new_policy d a

  unfoldable pub any_changes : Map WorkloadRecord → Map ActiveExecution → Bool
  any_changes workloads [] = false
  any_changes workloads ((id, a) ∷ rest) =
      reconcile_changes (definition_in id workloads) a || any_changes workloads rest

  -- `reconcile_reload`.
  unfoldable pub reconcile_reload : State → Bool × State
  reconcile_reload s = (
    any_changes s.workloads s.active,
    record s {
      active = map_entries (λ id a. reconciled (definition_in id s.workloads) a) s.active;
    },
  )

  -- What the reload stores of a definition.
  abbrev pub stored_definition : ExecutionConfiguration → NewDefinition
  stored_definition d = record {
    id = d.workload_id;
    kind = d.kind;
    definition = some (x.encode d);
    enabled = false;
  }

  is_other_kind : ExecutionConfiguration → Option WorkloadRecord → Bool
  is_other_kind d none = false
  is_other_kind d (some r) = not (str_eq r.kind d.kind)

  is_running : Option ActiveExecution → Bool
  is_running none = false
  is_running (some a) = true

  -- The first definition that changes the kind of a workload with an active execution.
  unfoldable pub kind_change : List ExecutionConfiguration → State → Option String
  unfolding is_other_kind is_running
  kind_change [] s = none
  kind_change (d ∷ ds) s =
      let rest = kind_change ds s in
      if is_running (lookup d.workload_id s.active)
        && is_other_kind d (lookup d.workload_id s.workloads)
      then some d.workload_id
      else rest

  unfoldable pub decoded : Option (List ℕ) → Option (Option ExecutionConfiguration)
  decoded none = some none
  decoded (some bytes) = elim (x.decode bytes) [ none ↦ none | some c ↦ some (some c) ]

  abbrev workload_record : WorkloadRow → Option ExecutionConfiguration → WorkloadRecord
  workload_record row definition = record {
    kind = row.kind;
    definition = definition;
    enabled = row.enabled;
    last_outcome = row.last_outcome;
  }

  -- The loop over the persisted workloads: a snapshot that cannot be decoded ends it, and what was
  -- inserted before stays.
  unfoldable pub take_over : Map WorkloadRow → Map WorkloadRecord → Bool × Map WorkloadRecord
  unfolding decoded
  take_over [] workloads = (true, workloads)
  take_over ((id, row) ∷ rows) workloads = elim (decoded row.definition) [
    | none ↦ (false, workloads)
    | some definition ↦ take_over rows (insert id (workload_record row definition) workloads)
  ]

  unfoldable pub reloaded : Manager → Bool × State → Manager
  reloaded m (changed, s) = record m { state = if changed then bump s else s }

  unfoldable pub reload_stored : Manager → Result (Bool × Tables) StorageError → Outcome Bool
  unfolding reloaded
  reload_stored m (err e) = (err (storage e), m)
  reload_stored m (ok (false, tables)) =
      (ok false, reloaded (record m { tables = tables }) (reconcile_reload m.state))
  reload_stored m (ok (true, tables)) =
      let (complete, workloads) = take_over tables.workloads m.state.workloads in
      let s = record m.state { workloads = workloads } in
      if complete
      then (ok true, record m { tables = tables; state = bump (reconcile_reload s).1 })
      else (err undecodable, record m { tables = tables; state = s })

  unfoldable pub reload_checked :
      List ℕ → List ExecutionConfiguration → Manager → Option String → Outcome Bool
  unfolding reload_stored
  reload_checked generation definitions m (some id) = (err (kind_change_active id), m)
  reload_checked generation definitions m none =
      reload_stored m (replace_definitions generation (map stored_definition definitions) m.tables)

  -- `Manager::reload` with the configuration that `load_directory` gives: its generation, and its
  -- definitions' snapshots.
  unfoldable pub reload : List ℕ → List ExecutionConfiguration → Manager → Outcome Bool
  unfolding reload_checked
  reload generation definitions m =
      reload_checked generation definitions m (kind_change definitions m.state)
