-- ===== src/Manager/Tracking/Steps.antt =====
-- crates/controller/src/manager.rs: the methods that start nothing, by the active executions and the rows
-- of the storage.
use Prim.Native.String.{String}
use text.Mathlib.Text.{◌==◌ as str_eq}
use susm.Common.{refl, ◌∙◌, Bool, true, false, Option, none, some, List}
use susm.Common.Maps.{Map, lookup, adjust, map_entries}
use susm.Common.Maps.Keys.{has_unique_keys-adjust, has_unique_keys-map_entries}
use susm.Storage.{StoredExecution}
use susm.Storage.Operations.{set_enabled as write_enabled}
use susm.Manager.{Setting, WorkloadRecord, ActiveExecution, Manager, Task, bump}
use susm.Manager.Lifecycle.{send}
use susm.Manager.Stopping.{cancel, cancel_known, cancel_active, stopping_active}
use susm.Manager.Sessions.{end_session, ending_active, set_enabled, enable_known}
use susm.Manager.Tracking.{Tracks, IsTracking}
use susm.Manager.Tracking.Rows.{KeepsId, adjust-is_active, map_entries-is_active, same-Tracks}
use susm.Manager.Tracking.Starts.{if-IsTracking, if-Manager}

module _ (x : Setting) {executions : Map StoredExecution} {tasks : List Task} where
  pub adjust-Tracks :
      (key : String) (f : ActiveExecution → ActiveExecution) (active : Map ActiveExecution)
      → KeepsId f
      → Tracks x active executions tasks
      → Tracks x (adjust key f active) executions tasks
  adjust-Tracks key f active k t =
      same-Tracks x (adjust key f active) (has_unique_keys-adjust key f active ∙ t.unique)
        (λ wid id. adjust-is_active key f active wid id k) t

  pub map_entries-Tracks :
      (f : String → ActiveExecution → ActiveExecution) (active : Map ActiveExecution)
      → ((key : String) → KeepsId (f key))
      → Tracks x active executions tasks
      → Tracks x (map_entries f active) executions tasks
  map_entries-Tracks f active k t =
      same-Tracks x (map_entries f active) (has_unique_keys-map_entries f active ∙ t.unique)
        (λ wid id. map_entries-is_active f active wid id k) t

module _ (x : Setting) where
  active-IsTracking :
      (id : String) (restart_after : Bool) (r : WorkloadRecord) (m : Manager)
      (a : Option ActiveExecution)
      → IsTracking x m
      → IsTracking x (cancel_active id restart_after r m a).1
  unfolding cancel_active bump IsTracking stopping_active send
  active-IsTracking id restart_after r m none t = t
  active-IsTracking id restart_after r m (some a) t =
      adjust-Tracks x id (stopping_active restart_after) m.state.active (λ a. refl) t

  known-IsTracking :
      (id expected : String) (restart_after : Bool) (m : Manager) (r : Option WorkloadRecord)
      → IsTracking x m
      → IsTracking x (cancel_known id expected restart_after m r).1
  unfolding cancel_known
  known-IsTracking id expected restart_after m none t = t
  known-IsTracking id expected restart_after m (some r) t =
      if-IsTracking x (str_eq r.kind expected) _ _
        (active-IsTracking id restart_after r m (lookup id m.state.active) t) t

  pub cancel-IsTracking :
      (id expected : String) (restart_after : Bool) (m : Manager)
      → IsTracking x m
      → IsTracking x (cancel id expected restart_after m).1
  unfolding cancel
  cancel-IsTracking id expected restart_after m t =
      known-IsTracking id expected restart_after m (lookup id m.state.workloads) t

  pub end_session-IsTracking : (m : Manager) → IsTracking x m → IsTracking x (end_session m)
  unfolding end_session IsTracking bump ending_active send
  end_session-IsTracking m t =
      if-Manager x m.state.session_ending m _ t
        (map_entries-Tracks x (λ _ a. ending_active a) m.state.active (λ _ a. refl) t)

  enable-IsTracking :
      (id : String) (enabled changed : Bool) (m : Manager) (r : Option WorkloadRecord)
      → IsTracking x m
      → IsTracking x (enable_known id enabled changed m r).1
  unfolding enable_known IsTracking bump
  enable-IsTracking id enabled changed m none t = t
  enable-IsTracking id enabled true m (some r) t = t
  enable-IsTracking id enabled false m (some r) t = t

  pub set_enabled-IsTracking :
      (id : String) (enabled : Bool) (m : Manager)
      → IsTracking x m
      → IsTracking x (set_enabled id enabled m).1
  unfolding set_enabled write_enabled IsTracking
  set_enabled-IsTracking id enabled m t =
      enable-IsTracking id enabled (write_enabled id enabled m.tables).0
        (record m { tables = (write_enabled id enabled m.tables).1 }) (lookup id m.state.workloads)
        t
