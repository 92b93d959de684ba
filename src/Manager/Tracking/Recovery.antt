-- ===== src/Manager/Tracking/Recovery.antt =====
-- crates/controller/src/manager.rs: the monitor of a recovered execution, by the active executions and the
-- rows of the storage.
use Prim.Native.String.{String}
use text.Mathlib.Text.{◌==◌ as str_eq}
use text.Mathlib.TextEquality.{eq_iff}
use susm.Common.{
  ◌≡◌, refl, sym, ◌∙◌, true, false, Option, none, some, List, [], ◌∷◌, ◌++◌, Bool-cases,
  Option-cases, inl, inr, arith,
}
use susm.Common.Maps.{Map, lookup, str_eq_refl}
use susm.Common.Maps.Keys.{has_unique_keys, has_key, lookup-has_key}
use susm.Protocol.{ExecutionConfiguration}
use susm.Storage.{StoredExecution}
use susm.Storage.Operations.{get_execution}
use susm.Manager.{Setting, ActiveExecution, Manager, Task}
use susm.Manager.Supervisors.{find_execution}
use susm.Manager.Sessions.{
  recovery_expired, recover_stored, recover_decoded, recover_found, replaced_locally,
}
use susm.Manager.Tracking.{runs, is_active, is_open, belongs, IsTaskOf, Tracks, IsTracking}
use susm.Manager.Tracking.Starting.{append-All}
use susm.Manager.Tracking.Starts.{if-Manager}
use susm.Manager.Tracking.Steps.{adjust-Tracks}

module _ (x : Setting) where
  unfinished-belongs :
      (wid : String) (o : Option StoredExecution) → is_open wid o ≡ true → belongs wid o ≡ true
  unfinished-belongs wid none h = h
  unfinished-belongs wid (some row) h = ground arith

  task-Tracks :
      {active : Map ActiveExecution} {executions : Map StoredExecution} {tasks : List Task}
      (task : Task)
      → IsTaskOf executions task
      → Tracks x active executions tasks
      → Tracks x active executions (tasks ++ task ∷ [])
  task-Tracks {active} {executions} {tasks} task h t = record {
    sound = t.sound;
    agree = t.agree;
    unique = t.unique;
    known = append-All executions tasks task t.known h;
  }

  runs-none : (e : String) {o : Option ActiveExecution} → o ≡ none → runs e o ≡ true → ⊥
  runs-none e h k = cc

  active-has_key :
      (id e : String) (active : Map ActiveExecution)
      → is_active id e active ≡ true
      → has_key id active ≡ true
  active-has_key id e active h = elim (Option-cases (lookup id active)) [
    | inl idle ↦ elim (runs-none e {o = lookup id active} idle h) [ ]
    | inr (a, found) ↦ lookup-has_key id active {v = a} found
  ]

  find_execution-found :
      (execution_id : String) (active : Map ActiveExecution) {id : String} {a : ActiveExecution}
      → has_unique_keys active ≡ true
      → find_execution execution_id active ≡ some (id, a)
      → is_active id execution_id active ≡ true
  unfolding find_execution lookup has_unique_keys
  find_execution-found e [] {id} {a} u h = ground arith
  find_execution-found e ((j, b) ∷ rest) {id} {a} u h =
      elim (Bool-cases (str_eq b.execution_id e)) [
        | inl same ↦ rw (sym (first same), str_eq_refl j) same
        | inr other ↦
            let later : is_active id e rest ≡ true =
              find_execution-found e rest {id = id} {a = a} (ground arith) (tail other) in
            ground (arith, active-has_key id e rest later, eq_iff j id)
      ]
    where
      first : str_eq b.execution_id e ≡ true → j ≡ id
      first same = ground arith

      tail : str_eq b.execution_id e ≡ false → find_execution e rest ≡ some (id, a)
      tail other = ground arith

  recover-IsTracking :
      (stored : StoredExecution) (c : ExecutionConfiguration) (m : Manager)
      (found : Option (String × ActiveExecution))
      → find_execution stored.id m.state.active ≡ found
      → IsTracking x m
      → IsTracking x (recover_found x stored c m found)
  unfolding recover_found IsTracking
  recover-IsTracking stored c m none h t = t
  recover-IsTracking stored c m (some (id, a)) h t =
      let active = find_execution-found stored.id m.state.active {id = id} {a = a} t.unique h in
      if-Manager x (str_eq a.state "recovering") _ m
        (task-Tracks _
          (unfinished-belongs id (lookup stored.id m.tables.executions)
            (sym (t.agree id stored.id) ∙ active))
          (adjust-Tracks x id (replaced_locally x) m.state.active (λ a. refl) t))
        t

  decoded-IsTracking :
      (stored : StoredExecution) (m : Manager) (c : Option ExecutionConfiguration)
      → IsTracking x m
      → IsTracking x (recover_decoded x stored m c)
  unfolding recover_decoded
  decoded-IsTracking stored m none t = t
  decoded-IsTracking stored m (some c) t =
      recover-IsTracking stored c m (find_execution stored.id m.state.active) refl t

  stored-IsTracking :
      (m : Manager) (stored : Option StoredExecution)
      → IsTracking x m
      → IsTracking x (recover_stored x m stored)
  unfolding recover_stored
  stored-IsTracking m none t = t
  stored-IsTracking m (some stored) t = decoded-IsTracking stored m (x.decode stored.snapshot) t

  pub recovery-IsTracking :
      (execution_id : String) (m : Manager)
      → IsTracking x m
      → IsTracking x (recovery_expired x execution_id m)
  unfolding recovery_expired
  recovery-IsTracking execution_id m t = stored-IsTracking m (get_execution execution_id m.tables) t
