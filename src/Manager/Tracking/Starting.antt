-- ===== src/Manager/Tracking/Starting.antt =====
-- crates/controller/src/manager.rs: a start, by the active executions and the rows of its storage.
use Prim.Native.String.{String}
use text.Mathlib.Text.{◌==◌ as str_eq}
use susm.Common.{
  ℕ, ◌≡◌, refl, sym, subst, ◌∙◌, Bool, true, false, Option, none, some, List, [], ◌∷◌, ◌++◌, All,
  Bool-cases, inl, inr, arith, Result, ok, err,
}
use susm.Common.Maps.{Map, lookup, insert, remove_key, lookup-insert, str_eq_refl, str_eq_sound}
use susm.Common.Maps.Keys.{has_unique_keys-insert, has_unique_keys-remove_key}
use susm.Protocol.{ExecutionConfiguration}
use susm.Storage.{StoredExecution, Tables, StorageError}
use susm.Storage.Operations.{insert_execution, insert_enabled_job_execution}
use susm.Manager.{Setting, WorkloadRecord, ActiveExecution, Task, Manager, bump}
use susm.Manager.Lifecycle.{with_state, new_active, new_row, insert_row, started}
use susm.Manager.Tracking.{
  is_active, is_unfinished, is_decodable, belongs, IsTaskOf, Tracks, IsTracking,
}
use susm.Manager.Tracking.Rows.{remove-is_active, insert-is_active, same-Tracks}

-- Every snapshot can be decoded.
abbrev pub Decodes : Setting → Type 0
Decodes x = (c : ExecutionConfiguration) → is_decodable (x.decode (x.encode c)) ≡ true

-- A row as it is inserted.
record IsNew (x : Setting) (wid fresh : String) (row : StoredExecution) : Type 0 where
  id-eq : row.id ≡ fresh
  workload-eq : row.workload_id ≡ wid
  ended-eq : row.ended_unix_ms ≡ 0
  decodable : is_decodable (x.decode row.snapshot) ≡ true

absent-belongs : (wid : String) {o : Option StoredExecution} → o ≡ none → belongs wid o ≡ true → ⊥
absent-belongs wid h b = cc

idle-is_active :
    (wid wid' id : String) (active : Map ActiveExecution)
    → lookup wid active ≡ none
    → str_eq wid wid' ≡ true
    → is_active wid' id active ≡ false
idle-is_active wid wid' id active idle same =
    rw (subst (λ k. lookup k active ≡ none) (str_eq_sound wid wid' same) idle) refl

absent-is_unfinished :
    (fresh id wid : String) (executions : Map StoredExecution)
    → lookup fresh executions ≡ none
    → str_eq fresh id ≡ true
    → is_unfinished wid id executions ≡ false
absent-is_unfinished fresh id wid executions absent same =
    rw (subst (λ k. lookup k executions ≡ none) (str_eq_sound fresh id same) absent) refl

insert-IsTaskOf :
    (key : String) (row : StoredExecution) (m : Map StoredExecution) (tasks : List Task)
    → lookup key m ≡ none
    → All (IsTaskOf m) tasks
    → All (IsTaskOf (insert key row m)) tasks
insert-IsTaskOf key row m [] absent h = h
insert-IsTaskOf key row m (t ∷ ts) absent (h, hs) = (
  elim (Bool-cases (str_eq key t.execution_id)) [
    | inl same ↦
        elim (absent-belongs t.workload_id
          (subst (λ k. lookup k m ≡ none) (str_eq_sound key t.execution_id same) absent) h) [ ]
    | inr other ↦ rw (lookup-insert key t.execution_id row m, other) h
  ],
  insert-IsTaskOf key row m ts absent hs,
)

pub append-All :
    (executions : Map StoredExecution) (tasks : List Task) (task : Task)
    → All (IsTaskOf executions) tasks
    → IsTaskOf executions task
    → All (IsTaskOf executions) (tasks ++ task ∷ [])
append-All executions [] task h t = (t, tt)
append-All executions (u ∷ us) task (h, hs) t = (h, append-All executions us task hs t)

module _ (x : Setting) {active : Map ActiveExecution} {executions : Map StoredExecution}
    {tasks : List Task} where
  insert-Tracks :
      (wid fresh : String) (a : ActiveExecution) (row : StoredExecution) (task : Task)
      → lookup wid active ≡ none
      → lookup fresh executions ≡ none
      → a.execution_id ≡ fresh
      → IsNew x wid fresh row
      → (task.workload_id ≡ wid) × (task.execution_id ≡ fresh)
      → Tracks x active executions tasks
      → Tracks x (insert wid a active) (insert fresh row executions) (tasks ++ task ∷ [])
  insert-Tracks wid fresh a row task idle absent a_id n (task_wid, task_id) t = record {
    sound = λ id. rw (lookup-insert fresh id row executions) (elim (Bool-cases (str_eq fresh id)) [
      | inl same ↦ rw (same, n.id-eq, same, n.decodable) refl
      | inr other ↦ rw (other) (t.sound id)
    ]);
    agree = λ wid' id.
        rw (insert-is_active wid a active wid' id, lookup-insert fresh id row executions, a_id)
          (elim (Bool-cases (str_eq wid wid')) [
            | inl at ↦ elim (Bool-cases (str_eq fresh id)) [
              | inl same ↦ rw (at, same, n.workload-eq, at, n.ended-eq) refl
              | inr other ↦
                  rw (at, other) (sym (idle-is_active wid wid' id active idle at) ∙ t.agree wid' id)
            ]
            | inr away ↦ elim (Bool-cases (str_eq fresh id)) [
              | inl same ↦
                  rw (away, same, n.workload-eq, away)
                    (t.agree wid' id ∙ absent-is_unfinished fresh id wid' executions absent same)
              | inr other ↦ rw (away, other) (t.agree wid' id)
            ]
          ]);
    unique = has_unique_keys-insert wid a active t.unique;
    known =
        append-All (insert fresh row executions) tasks task
          (insert-IsTaskOf fresh row executions tasks absent t.known)
          (rw
            (
              task_wid,
              task_id,
              lookup-insert fresh fresh row executions,
              str_eq_refl fresh,
              n.workload-eq,
              str_eq_refl wid,
            )
            refl);
  }

  -- A start that is taken back.
  back-Tracks :
      (wid : String) (a : ActiveExecution)
      → lookup wid active ≡ none
      → Tracks x active executions tasks
      → Tracks x (remove_key wid (insert wid a active)) executions tasks
  back-Tracks wid a idle t =
      same-Tracks x (remove_key wid (insert wid a active))
        (has_unique_keys-remove_key wid (insert wid a active)
          (has_unique_keys-insert wid a active t.unique))
        (λ wid' id.
          remove-is_active wid (insert wid a active) wid' id
          ∙ (elim (Bool-cases (str_eq wid wid')) [
            | inl same ↦ rw (same) (sym (idle-is_active wid wid' id active idle same))
            | inr other ↦ rw (other, insert-is_active wid a active wid' id, other) refl
          ]))
        t

insert_execution-rows :
    (e : StoredExecution) (t : Tables) {next : Tables}
    → insert_execution e t ≡ ok next
    → (lookup e.id t.executions ≡ none)
      × (next.executions
          ≡ insert e.id
              (record e { ended_unix_ms = 0; exit_code = none; error = ""; committed_sequence = 0 })
              t.executions)
unfolding insert_execution
insert_execution-rows e t {next} h = (ground arith, ground arith)

triggered-rows :
    (e : StoredExecution) (s : String) (t : Tables) {next : Tables}
    → insert_enabled_job_execution e s t ≡ ok (true, next)
    → (lookup e.id t.executions ≡ none)
      × (next.executions
          ≡ insert e.id
              (record e { ended_unix_ms = 0; exit_code = none; error = ""; committed_sequence = 0 })
              t.executions)
unfolding insert_enabled_job_execution insert_execution
triggered-rows e s t {next} h = (ground arith, ground arith)

not_triggered :
    (e : StoredExecution) (s : String) (t : Tables) {next : Tables}
    → insert_enabled_job_execution e s t ≡ ok (false, next)
    → next ≡ t
unfolding insert_enabled_job_execution insert_execution
not_triggered e s t {next} h = ground arith

module _ (x : Setting) (decodes : Decodes x) where
  row-IsNew :
      (build : ExecutionConfiguration) (wid fresh : String) (now : ℕ)
      → IsNew x wid fresh (record (new_row x build wid fresh now) {
        ended_unix_ms = 0;
        exit_code = none;
        error = "";
        committed_sequence = 0;
      })
  unfolding new_row
  row-IsNew build wid fresh now = record {
    id-eq = refl;
    workload-eq = refl;
    ended-eq = refl;
    decodable = decodes build;
  }

  inserted-rows :
      (session : Option String) (build : ExecutionConfiguration) (wid fresh : String) (now : ℕ)
      (t : Tables) {next : Tables}
      → insert_row x session (new_row x build wid fresh now) t ≡ ok (true, next)
      → (lookup fresh t.executions ≡ none)
        × (next.executions
            ≡ insert fresh
                (record (new_row x build wid fresh now) {
                  ended_unix_ms = 0;
                  exit_code = none;
                  error = "";
                  committed_sequence = 0;
                })
                t.executions)
  unfolding insert_row new_row
  inserted-rows none build wid fresh now t {next} h =
      insert_execution-rows (new_row x build wid fresh now) t {next = next} (ground arith)
  inserted-rows (some session) build wid fresh now t {next} h =
      triggered-rows (new_row x build wid fresh now) session t {next = next} h

  not_inserted :
      (session : Option String) (e : StoredExecution) (t : Tables) {next : Tables}
      → insert_row x session e t ≡ ok (false, next)
      → next ≡ t
  unfolding insert_row
  not_inserted none e t {next} h = ground arith
  not_inserted (some session) e t {next} h = not_triggered e session t {next = next} h

  pub started-IsTracking :
      (id fresh : String) (now : ℕ) (r : WorkloadRecord) (build : ExecutionConfiguration)
      (session : Option String) (m : Manager) (result : Result (Bool × Tables) StorageError)
      → lookup id m.state.active ≡ none
      → insert_row x session (new_row x build id fresh now) m.tables ≡ result
      → IsTracking x m
      → IsTracking x
          (started x id fresh now r build
            (with_state m
              (record m.state { active = insert id (new_active x build fresh) m.state.active }))
            result).1
  unfolding started IsTracking bump new_active
  started-IsTracking id fresh now r build session m (err e) idle h t =
      back-Tracks x id (new_active x build fresh) idle t
  started-IsTracking id fresh now r build session m (ok (false, tables)) idle h t =
      rw (not_inserted session (new_row x build id fresh now) m.tables {next = tables} h)
        (back-Tracks x id (new_active x build fresh) idle t)
  started-IsTracking id fresh now r build session m (ok (true, tables)) idle h t =
      let (absent, rows) = inserted-rows session build id fresh now m.tables {next = tables} h in
      rw (rows) (
        insert-Tracks x id fresh (new_active x build fresh)
          (record (new_row x build id fresh now) {
            ended_unix_ms = 0;
            exit_code = none;
            error = "";
            committed_sequence = 0;
          })
          (record {
            workload_id = id;
            execution_id = fresh;
            definition = build;
            started_unix_ms = now;
          })
          idle absent refl (row-IsNew build id fresh now) (refl, refl) t)
