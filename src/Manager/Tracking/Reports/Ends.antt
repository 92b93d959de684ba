-- ===== src/Manager/Tracking/Reports/Ends.antt =====
-- crates/controller/src/manager.rs: `supervisor_terminal` and `complete_execution`, by the active executions and the rows of the storage.
use Prim.Native.String.{String}
use text.Mathlib.Text.{◌==◌ as str_eq}
use susm.Common.{
  ℕ, suc, ◌≡◌, refl, sym, ap, subst, Bool, true, false, ◌&&◌, not, Option, none, some,
  if◌then◌else◌, arith,
}
use susm.Common.Maps.{lookup, str_eq_sound}
use susm.Protocol.{ExecutionConfiguration}
use susm.Storage.{StoredExecution}
use susm.Storage.Operations.{finish_execution, finished, get_execution}
use susm.Manager.{Setting, ActiveExecution, Manager, bump}
use susm.Manager.Supervisors.{matching, retired}
use susm.Manager.Reports.{replaced}
use susm.Manager.Completion.{
  ExecutionFinish, supervisor_terminal, terminal_stored, terminal_decoded, terminal_found,
  terminal_name, complete_execution, complete_row, complete_state, finished_row,
}
use susm.Manager.Tracking.{is_sound, belongs, IsTracking}
use susm.Manager.Tracking.Rows.{KeepsRow}
use susm.Manager.Tracking.Starting.{Decodes}
use susm.Manager.Tracking.Starts.{replacement-IsTracking, if-Manager}
use susm.Manager.Tracking.Reports.{removed-Tracks, kept-Tracks}

finished-KeepsRow : (e : StoredExecution) → KeepsRow (finished e)
finished-KeepsRow e = record { id = λ e. refl; workload_id = λ e. refl; snapshot = λ e. refl }

module _ (x : Setting) (decodes : Decodes x) where
  pub replaced-IsTracking :
      (id fresh : String) (now : ℕ) (restart : Bool) (m : Manager)
      → IsTracking x m
      → IsTracking x (replaced x id fresh now restart m)
  unfolding replaced
  replaced-IsTracking id fresh now true m t = replacement-IsTracking x decodes id fresh now m t
  replaced-IsTracking id fresh now false m t = t

  -- A row stands under its own id.
  sound-id : (id : String) (row : StoredExecution) → is_sound x id (some row) ≡ true → row.id ≡ id
  sound-id id row h = str_eq_sound row.id id (ground arith)

  row-id :
      (m : Manager) (id : String) {row : StoredExecution}
      → IsTracking x m
      → lookup id m.tables.executions ≡ some row
      → row.id ≡ id
  unfolding IsTracking
  row-id m id {row} t h = sound-id id row (subst (λ o. is_sound x id o ≡ true) h (t.sound id))

  state-IsTracking :
      (id : String) (f : ExecutionFinish) (ended : ℕ) (m : Manager) (row : StoredExecution)
      (a : Option ActiveExecution)
      → lookup row.id m.tables.executions ≡ some row
      → row.workload_id ≡ id
      → matching row.id (lookup id m.state.active) ≡ a
      → IsTracking x m
      → IsTracking x (record m {
        tables = finish_execution (finished_row f (suc ended) row) m.tables;
        state = (complete_state id f.state m.state a).1;
      })
  unfolding IsTracking finish_execution finished_row complete_state retired bump
  state-IsTracking id f ended m row none h owner idle t =
      kept-Tracks x id row.id row (finished (finished_row f (suc ended) row)) m.state.active
        (finished-KeepsRow (finished_row f (suc ended) row)) (ground arith) h owner idle t
  state-IsTracking id f ended m row (some a) h owner found t =
      removed-Tracks x id row.id row (finished (finished_row f (suc ended) row)) m.state.active
        {a = a} (finished-KeepsRow (finished_row f (suc ended) row)) (ground arith) h owner found t

  none-belongs : (id : String) → belongs id none ≡ true → ⊥
  none-belongs id h = cc

  row-IsTracking :
      (id execution_id : String) (f : ExecutionFinish) (ended : ℕ) (m : Manager)
      (row : Option StoredExecution)
      → lookup execution_id m.tables.executions ≡ row
      → belongs id row ≡ true
      → IsTracking x m
      → IsTracking x (record m {
        tables = complete_row f (suc ended) m.tables row;
        state =
            (complete_state id f.state m.state
              (matching execution_id (lookup id m.state.active))).1;
      })
  unfolding complete_row
  row-IsTracking id execution_id f ended m none h own t = elim (none-belongs id own) [ ]
  row-IsTracking id execution_id f ended m (some row) h own t =
      let same = row-id m execution_id {row = row} t h in
      state-IsTracking id f ended m row (matching execution_id (lookup id m.state.active))
        (subst (λ k. lookup k m.tables.executions ≡ some row) (sym same) h)
        (str_eq_sound row.workload_id id own) (ap (λ k. matching k (lookup id m.state.active)) same)
        t

  pub complete-IsTracking :
      (id execution_id : String) (f : ExecutionFinish) (fresh : String) (ended : ℕ) (m : Manager)
      → belongs id (lookup execution_id m.tables.executions) ≡ true
      → IsTracking x m
      → IsTracking x (complete_execution x id execution_id f fresh (suc ended) m)
  unfolding complete_execution get_execution
  complete-IsTracking id execution_id f fresh ended m own t =
      replaced-IsTracking id fresh (suc ended)
        (complete_state id f.state m.state (matching execution_id (lookup id m.state.active))).0
        (record m {
          tables = complete_row f (suc ended) m.tables (lookup execution_id m.tables.executions);
          state =
              (complete_state id f.state m.state
                (matching execution_id (lookup id m.state.active))).1;
        })
        (row-IsTracking id execution_id f ended m (lookup execution_id m.tables.executions) refl own
          t)

  ended-IsTracking :
      (name : String) (code : Option ℕ) (error : String) (now : ℕ) (stored : StoredExecution)
      (m : Manager) {a : ActiveExecution}
      → lookup stored.id m.tables.executions ≡ some stored
      → matching stored.id (lookup stored.workload_id m.state.active) ≡ some a
      → IsTracking x m
      → IsTracking x (record m {
        tables =
            finish_execution
              (record stored {
                state = name;
                workload_process_id = 0;
                ended_unix_ms = suc now;
                exit_code = code;
                error = error;
              })
              m.tables;
        state = retired stored.workload_id name m.state;
      })
  unfolding IsTracking finish_execution retired bump
  ended-IsTracking name code error now stored m {a} h k t =
      let e = record stored {
        state = name;
        workload_process_id = 0;
        ended_unix_ms = suc now;
        exit_code = code;
        error = error;
      } in
      removed-Tracks x stored.workload_id stored.id stored (finished e) m.state.active {a = a}
        (finished-KeepsRow e) (ground arith) h refl k t

  found-IsTracking :
      (execution_id outcome : String) (code : Option ℕ) (error fresh : String) (now : ℕ)
      (stored : StoredExecution) (c : ExecutionConfiguration) (m : Manager)
      (a : Option ActiveExecution)
      → lookup stored.id m.tables.executions ≡ some stored
      → matching stored.id (lookup stored.workload_id m.state.active) ≡ a
      → IsTracking x m
      → IsTracking x (terminal_found x execution_id outcome code error fresh (suc now) stored c m a)
  unfolding terminal_found
  found-IsTracking execution_id outcome code error fresh now stored c m none h k t = t
  found-IsTracking execution_id outcome code error fresh now stored c m (some a) h k t =
      if-Manager x a.locally_owned m _ t (
        replaced-IsTracking stored.workload_id fresh (suc now)
          (not m.state.session_ending && a.restart_after) _
          (ended-IsTracking
            (terminal_name (if str_eq c.kind "job" then "cancelled" else "stopped") outcome code a
              c)
            code error now stored m {a = a} h k t))

  stored-IsTracking :
      (execution_id outcome : String) (code : Option ℕ) (error fresh : String) (now : ℕ)
      (m : Manager) (stored : Option StoredExecution)
      → lookup execution_id m.tables.executions ≡ stored
      → IsTracking x m
      → IsTracking x (terminal_stored x execution_id outcome code error fresh (suc now) m stored).1
  unfolding terminal_stored terminal_decoded
  stored-IsTracking execution_id outcome code error fresh now m none h t = t
  stored-IsTracking execution_id outcome code error fresh now m (some stored) h t =
      decoded (x.decode stored.snapshot)
    where
      same : stored.id ≡ execution_id
      same = row-id m execution_id {row = stored} t h

      decoded :
          (c : Option ExecutionConfiguration)
          → IsTracking x
              (terminal_decoded x execution_id outcome code error fresh (suc now) stored m c).1
      decoded none = t
      decoded (some c) =
          found-IsTracking execution_id outcome code error fresh now stored c m
            (matching execution_id (lookup stored.workload_id m.state.active))
            (subst (λ k. lookup k m.tables.executions ≡ some stored) (sym same) h)
            (ap (λ k. matching k (lookup stored.workload_id m.state.active)) same) t

  pub terminal-IsTracking :
      (execution_id outcome : String) (code : Option ℕ) (error fresh : String) (now : ℕ)
      (m : Manager)
      → IsTracking x m
      → IsTracking x (supervisor_terminal x execution_id outcome code error fresh (suc now) m).1
  unfolding supervisor_terminal get_execution
  terminal-IsTracking execution_id outcome code error fresh now m t =
      stored-IsTracking execution_id outcome code error fresh now m
        (lookup execution_id m.tables.executions) refl t
