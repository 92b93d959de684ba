-- ===== src/Storage/Triggers.antt =====
-- crates/controller/src/storage.rs: an enabled job starts once in a manager session.
use Prim.Native.String.{String}
use text.Mathlib.Text.{◌==◌ as str_eq}
use text.Mathlib.TextEquality.{eq_iff}
use susm.Common.{
  ℕ, ◌≤◌, ◌≡◌, refl, sym, subst, true, false, Option, none, some, List, [], ◌∷◌, Bool-cases,
  Option-cases, ◌⊎◌, inl, inr, arith, All,
}
use susm.Common.Maps.{Map, lookup, adjust, lookup-adjust_self}
use susm.Storage.{
  WorkloadRow, StoredExecution, Tables, ObservationUpdate, acknowledge, progress, terminal_update,
}
use susm.Storage.Operations.{
  insert_execution, insert_enabled_job_execution, claims, set_execution_supervisor,
  finish_execution, commit_observation, commit_row, outcome_noted,
}
use susm.Storage.Claims.{
  Operation, attempted, is_for, apply, starts, in_session, Notes, Claimed, adjust-Notes,
  replace_definitions-Claimed, set_enabled-Claimed, insert_execution-Claimed, replaced, enablement,
  inserted, triggered, supervisor_set, execution_finished, committed,
}

finish_execution-Claimed :
    (wid session : String) (e : StoredExecution) (t : Tables)
    → Claimed wid session t
    → Claimed wid session (finish_execution e t)
unfolding finish_execution
finish_execution-Claimed wid session e t h =
    adjust-Notes wid session e.workload_id (λ row. record row { last_outcome = e.state })
      t.workloads (λ row k. k) h

outcome_noted-Notes :
    (wid session w : String) (u : ObservationUpdate) (m : Map WorkloadRow)
    → Notes session (lookup wid m)
    → Notes session (lookup wid (outcome_noted u w m))
unfolding outcome_noted
outcome_noted-Notes wid session w acknowledge m h = h
outcome_noted-Notes wid session w (progress p) m h = h
outcome_noted-Notes wid session w (terminal_update x) m h =
    adjust-Notes wid session w (λ row. record row { last_outcome = x.state }) m (λ row k. k) h

commit_observation-workloads :
    (id : String) (n : ℕ) (u : ObservationUpdate) (t : Tables) (row : StoredExecution)
    → lookup id t.executions ≡ some row
    → let next = (attempted t (commit_observation id n u t)).1 in
      (next.workloads ≡ t.workloads)
      ⊎ (next.workloads ≡ outcome_noted u row.workload_id t.workloads)
unfolding commit_observation commit_row
commit_observation-workloads id n u t row h = ground arith

commit_observation-missing :
    (id : String) (n : ℕ) (u : ObservationUpdate) (t : Tables)
    → lookup id t.executions ≡ none
    → (attempted t (commit_observation id n u t)).1 ≡ t
unfolding commit_observation
commit_observation-missing id n u t h = ground arith

commit_observation-Claimed :
    (wid session id : String) (n : ℕ) (u : ObservationUpdate) (t : Tables)
    → Claimed wid session t
    → Claimed wid session (attempted t (commit_observation id n u t)).1
commit_observation-Claimed wid session id n u t h = elim (Option-cases (lookup id t.executions)) [
  | inl e ↦ rw (commit_observation-missing id n u t e) h
  | inr (row, e) ↦ elim (commit_observation-workloads id n u t row e) [
    | inl w ↦ subst (λ m. Notes session (lookup wid m)) (sym w) h
    | inr w ↦
        subst (λ m. Notes session (lookup wid m)) (sym w)
          (outcome_noted-Notes wid session row.workload_id u t.workloads h)
  ]
]

-- What an accepted trigger leaves.
trigger-workloads :
    (e : StoredExecution) (s : String) (t : Tables)
    → let r = attempted t (insert_enabled_job_execution e s t) in
      ((r.0 ≡ false) × (r.1 ≡ t))
      ⊎ ((r.0 ≡ true)
          × (claims s (lookup e.workload_id t.workloads) ≡ true)
          × (r.1.workloads
              ≡ adjust e.workload_id
                  (λ row. record row { last_triggered_session = s })
                  t.workloads))
unfolding insert_enabled_job_execution insert_execution
trigger-workloads e s t = ground arith

claims-Notes :
    (session : String) (o : Option WorkloadRow) → Notes session o → claims session o ≡ false
claims-Notes session none h = elim h [ ]
claims-Notes session (some row) h = ground (arith, eq_iff row.last_triggered_session session)

claimed_elsewhere :
    (wid session s : String) (e : StoredExecution) (m : Map WorkloadRow)
    → claims s (lookup e.workload_id m) ≡ true
    → s ≡ session
    → Notes session (lookup wid m)
    → is_for wid e session s ≡ false
claimed_elsewhere wid session s e m c same h = elim (Bool-cases (str_eq e.workload_id wid)) [
  | inl at ↦
      let key : e.workload_id ≡ wid = ground (arith, eq_iff e.workload_id wid) in
      let no : claims session (lookup e.workload_id m) ≡ false =
        claims-Notes session (lookup e.workload_id m)
          (subst (λ k. Notes session (lookup k m)) (sym key) h) in
      absurd (ground (arith, subst (λ x. claims x (lookup e.workload_id m) ≡ true) same c))
  | inr other ↦ rw (other) refl
]

trigger-Claimed :
    (wid session s : String) (e : StoredExecution) (t : Tables)
    → s ≡ session
    → Claimed wid session t
    → ((apply wid session (triggered e s) t).0 ≡ false)
      × Claimed wid session (apply wid session (triggered e s) t).1
unfolding apply
trigger-Claimed wid session s e t same h = elim (trigger-workloads e s t) [
  | inl (r, k) ↦ rw (r, k) (refl, h)
  | inr (r, c, w) ↦ (
    rw (r) (claimed_elsewhere wid session s e t.workloads c same h),
    subst (λ m. Notes session (lookup wid m)) (sym w)
        (adjust-Notes wid session e.workload_id (λ row. record row { last_triggered_session = s })
          t.workloads (λ row k. same) h),
  )
]

apply-Claimed :
    (wid session : String) (o : Operation) (t : Tables)
    → in_session session o ≡ true
    → Claimed wid session t
    → ((apply wid session o t).0 ≡ false) × Claimed wid session (apply wid session o t).1
unfolding apply set_execution_supervisor
apply-Claimed wid session (replaced g ds) t s h =
    (refl, replace_definitions-Claimed wid session g ds t h)
apply-Claimed wid session (enablement id b) t s h = (refl, set_enabled-Claimed wid session id b t h)
apply-Claimed wid session (inserted e) t s h = (refl, insert_execution-Claimed wid session e t h)
apply-Claimed wid session (triggered e x) t s h =
    trigger-Claimed wid session x e t (ground (arith, eq_iff x session)) h
apply-Claimed wid session (supervisor_set id p) t s h = (refl, h)
apply-Claimed wid session (execution_finished e) t s h =
    (refl, finish_execution-Claimed wid session e t h)
apply-Claimed wid session (committed id n u) t s h =
    (refl, commit_observation-Claimed wid session id n u t h)

claims-row :
    (session : String) (o : Option WorkloadRow)
    → claims session o ≡ true
    → (row : WorkloadRow) × (o ≡ some row)
claims-row session none h = absurd (ground arith)
claims-row session (some row) h = (row, refl)

trigger-starts :
    (wid session s : String) (e : StoredExecution) (t : Tables)
    → (apply wid session (triggered e s) t).0 ≡ true
    → Claimed wid session (apply wid session (triggered e s) t).1
unfolding apply
trigger-starts wid session s e t h = elim (trigger-workloads e s t) [
  | inl (r, k) ↦ absurd (ground arith)
  | inr (r, c, w) ↦
      let row = claims-row s (lookup e.workload_id t.workloads) c in
      let key : e.workload_id ≡ wid = ground (arith, eq_iff e.workload_id wid) in
      let same : s ≡ session = ground (arith, eq_iff s session) in
      subst (λ m. Notes session (lookup wid m)) (sym w)
        (subst
          (λ k. Notes session (
            lookup k
              (adjust e.workload_id (λ x. record x { last_triggered_session = s }) t.workloads)))
          key
          (rw
            (lookup-adjust_self e.workload_id (λ x. record x { last_triggered_session = s })
              t.workloads row.1)
            same))
]

-- An operation that starts the job leaves the session in its row.
apply-starts :
    (wid session : String) (o : Operation) (t : Tables)
    → (apply wid session o t).0 ≡ true
    → Claimed wid session (apply wid session o t).1
unfolding apply
apply-starts wid session (triggered e s) t h = trigger-starts wid session s e t h
apply-starts wid session (replaced g ds) t h = absurd (ground arith)
apply-starts wid session (enablement id b) t h = absurd (ground arith)
apply-starts wid session (inserted e) t h = absurd (ground arith)
apply-starts wid session (supervisor_set id p) t h = absurd (ground arith)
apply-starts wid session (execution_finished e) t h = absurd (ground arith)
apply-starts wid session (committed id n u) t h = absurd (ground arith)

starts-Claimed :
    (wid session : String) (os : List Operation) (t : Tables)
    → All (λ o. in_session session o ≡ true) os
    → Claimed wid session t
    → starts wid session os t ≡ 0
unfolding starts
starts-Claimed wid session [] t a h = refl
starts-Claimed wid session (o ∷ os) t a h =
    let n = apply-Claimed wid session o t a.0 h in
    rw (n.0) (starts-Claimed wid session os (apply wid session o t).1 a.1 n.1)

-- Whatever the controller does to its tables, with any restarts of it in between, a manager session
-- starts an enabled job once at most: neither a change of its definition or its enablement nor the end
-- of its execution makes the session start it again.
pub starts_at_most_once :
    (wid session : String) (os : List Operation) (t : Tables)
    → All (λ o. in_session session o ≡ true) os
    → starts wid session os t ≤ 1
unfolding starts
starts_at_most_once wid session [] t a = omega arith
starts_at_most_once wid session (o ∷ os) t a = elim (Bool-cases (apply wid session o t).0) [
  | inl now ↦ rw (now) (
      omega (
        arith,
        starts-Claimed wid session os (apply wid session o t).1 a.1
            (apply-starts wid session o t now),
      ))
  | inr later ↦ rw (later) (starts_at_most_once wid session os (apply wid session o t).1 a.1)
]
