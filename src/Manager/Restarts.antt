-- ===== src/Manager/Restarts.antt =====
-- crates/controller/src/manager.rs: restarts and reruns that are asked for while an execution is active.
pub mod Starting
pub mod Replacing
use Prim.Native.String.{String}
use text.Mathlib.Text.{◌==◌ as str_eq}
use susm.Common.{
  ◌++◌, ℕ, ◌≡◌, refl, ◌∙◌, subst, sym, Bool, true, false, Option, none, some, List, [], ◌∷◌, ◌++◌,
  Bool-cases, inl, inr, arith, if◌then◌else◌,
}
use susm.Common.Maps.{
  Map, lookup, insert, adjust, lookup-adjust, lookup-adjust_self, lookup-insert, lookup-remove_key,
  str_eq_refl,
}
use susm.Protocol.{ExecutionConfiguration}
use susm.Storage.{StoredExecution, WorkloadRow, Tables}
use susm.Storage.Operations.{get_execution, insert_execution, finish_execution}
use susm.Manager.{
  ChannelCall, sent, Setting, WorkloadRecord, ActiveExecution, Task, State, Manager, bump,
}
use susm.Manager.Lifecycle.{
  send, start, start_service, run_job, start_replacement, prepared, new_active, new_row, launch,
  with_state,
}
use susm.Manager.Stopping.{cancel, restart_service, rerun_job, stopping_active}
use susm.Manager.Supervisors.{matching, outcome_set, retired}
use susm.Manager.Reports.{replaced}
use susm.Manager.Completion.{ExecutionFinish, complete_execution, complete_row, complete_state}
use susm.Manager.Ending.{absent-adjust}

-- Which of the two requests the workload takes.
pub data WorkloadKind : Type 0 where
  service job : WorkloadKind

abbrev pub kind_name : WorkloadKind → String
kind_name service = "service"
kind_name job = "job"

-- A restart of the service, or a rerun of the job with the id and the time that it would start with.
unfoldable pub ask : Setting → WorkloadKind → String → String × ℕ → Manager → Manager
ask x service id (unused, now) m = (restart_service id m).1
ask x job id (unused, now) m = (rerun_job x id unused now m).1

unfoldable pub asks : Setting → WorkloadKind → String → List (String × ℕ) → Manager → Manager
asks x k id [] m = m
asks x k id (c ∷ cs) m = asks x k id cs (ask x k id c m)

-- The workload is of this kind, is defined and stored, and has this active execution; no execution is
-- stored as `fresh`, and the session is not ending.
pub record IsReplaceable (k : WorkloadKind) (id execution_id fresh : String)
    (d : ExecutionConfiguration) (m : Manager) : Type 0 where
  pub active : ActiveExecution
  pub found : lookup id m.state.active ≡ some active
  pub same : active.execution_id ≡ execution_id
  pub workload : WorkloadRecord
  pub known : lookup id m.state.workloads ≡ some workload
  pub of_kind : workload.kind ≡ kind_name k
  pub defined : workload.definition ≡ some d
  pub row : WorkloadRow
  pub stored : lookup id m.tables.workloads ≡ some row
  pub unused : lookup fresh m.tables.executions ≡ none
  pub goes_on : m.state.session_ending ≡ false

-- The execution is stopping, its supervisor's task is cancelled, and the command to stop is the last one.
pub record IsToldToStop (a : ActiveExecution) : Type 0 where
  pub is_stopping : (a.state ≡ "stopping") × (a.cancelled ≡ true)
  pub before : List ChannelCall
  pub told : a.commands ≡ before ++ sent (record { kind = "stop"; payload = [] }) ∷ []

-- The manager after a request.
abbrev pub asked : String → Manager → Manager
asked id m =
    with_state m
      (bump (record m.state { active = adjust id (stopping_active true) m.state.active }))

module _ (id execution_id fresh : String) (d : ExecutionConfiguration) where
  cancel-asked :
      (k : WorkloadKind) (m : Manager)
      → IsReplaceable k id execution_id fresh d m
      → (cancel id (kind_name k) true m).1 ≡ asked id m
  unfolding cancel
  cancel-asked k m w = rw (w.known, w.of_kind, str_eq_refl (kind_name k), w.found) refl

  asked-IsReplaceable :
      {k : WorkloadKind} (m : Manager)
      → IsReplaceable k id execution_id fresh d m
      → IsReplaceable k id execution_id fresh d (asked id m)
  unfolding bump stopping_active send
  asked-IsReplaceable m w = record {
    active = stopping_active true w.active;
    found = lookup-adjust_self id (stopping_active true) m.state.active {v = w.active} w.found;
    same = w.same;
    workload = w.workload;
    known = w.known;
    of_kind = w.of_kind;
    defined = w.defined;
    row = w.row;
    stored = w.stored;
    unused = w.unused;
    goes_on = w.goes_on;
  }

  rerun-cancel :
      (x : Setting) (fresh_unused : String) (now : ℕ) (m : Manager)
      → IsReplaceable job id execution_id fresh d m
      → (rerun_job x id fresh_unused now m).1 ≡ (cancel id "job" true m).1
  unfolding rerun_job
  rerun-cancel x u now m w = rw (w.found) refl

  ask-asked :
      (x : Setting) (k : WorkloadKind) (c : String × ℕ) (m : Manager)
      → IsReplaceable k id execution_id fresh d m
      → ask x k id c m ≡ asked id m
  unfolding ask restart_service rerun_job
  ask-asked x service (unused, now) m w = cancel-asked service m w
  ask-asked x job (unused, now) m w = rerun-cancel x unused now m w ∙ cancel-asked job m w

  -- The workload is replaceable after further requests, its execution is being stopped, the restart is
  -- noted, and no task has begun.
  abbrev pub IsWaiting : WorkloadKind → List Task → Manager → Type 0
  IsWaiting k tasks m =
      (w : IsReplaceable k id execution_id fresh d m) × (w.active.restart_after ≡ true)
      × IsToldToStop w.active
      × (m.tasks ≡ tasks)

  pub ask-IsWaiting :
      (x : Setting) (k : WorkloadKind) (c : String × ℕ) (m : Manager)
      → IsReplaceable k id execution_id fresh d m
      → IsWaiting k m.tasks (ask x k id c m)
  unfolding stopping_active send asked-IsReplaceable
  ask-IsWaiting x k c m w = rw (ask-asked x k c m w) (
    asked-IsReplaceable m w,
    ground arith,
    record { is_stopping = (refl, refl); before = w.active.commands; told = refl },
    refl,
  )

  pub asks-IsWaiting :
      (x : Setting) (k : WorkloadKind) (cs : List (String × ℕ)) (tasks : List Task) (m : Manager)
      → IsWaiting k tasks m
      → IsWaiting k tasks (asks x k id cs m)
  unfolding asks
  asks-IsWaiting x k [] tasks m w = w
  asks-IsWaiting x k (c ∷ cs) tasks m (w, r, s, e) =
      let (v, q, t, f) = ask-IsWaiting x k c m w in
      asks-IsWaiting x k cs tasks (ask x k id c m) (v, q, t, f ∙ e)
