-- ===== src/Manager/Ending/Reports.antt =====
-- crates/controller/src/manager.rs: supervisors and their reports, when the session is ending.
use Prim.Native.String.{String}
use text.Mathlib.Text.{◌==◌ as str_eq}
use susm.Common.{
  ℕ, ◌≡◌, Bool, true, false, ◌&&◌, ◌||◌, not, Option, none, some, List, ◌==◌, Bool-cases, inl, inr,
}
use susm.Common.Maps.{lookup, adjust}
use susm.Protocol.{ExecutionConfiguration}
use susm.Storage.{StoredExecution, Tables}
use susm.Storage.Operations.{
  set_execution_supervisor, finish_execution, finished, get_execution, same_bytes,
}
use susm.Manager.{Setting, ActiveExecution, Manager, State, bump}
use susm.Manager.Lifecycle.{with_state}
use susm.Manager.Supervisors.{
  supervisor_launched, launched_in, supervisor_disconnected, disconnect_found, disconnected,
  matching, find_execution, retired,
}
use susm.Manager.Attaching.{
  attach_supervisor, attach_stored, attach_decoded, attach_active, with_attachment,
}
use susm.Manager.Completion.{
  ExecutionFinish, supervisor_terminal, terminal_stored, terminal_decoded, terminal_found,
  complete_execution, complete_row, complete_state,
}
use susm.Manager.Ending.{IsQuiet, absent-adjust, if-IsQuiet, replaced-IsQuiet}

module _ (x : Setting) (id : String) where
  supervisor-IsQuiet :
      (e : String) (process_id : ℕ) (m : Manager)
      → IsQuiet id m
      → IsQuiet id (record m { tables = set_execution_supervisor e process_id m.tables })
  unfolding set_execution_supervisor
  supervisor-IsQuiet e process_id m q = record {
    ending = q.ending;
    absent = absent-adjust id e _ m.tables.executions q.absent;
  }

  pub launched-IsQuiet :
      (w e : String) (process_id : ℕ) (m : Manager)
      → IsQuiet id m
      → IsQuiet id (supervisor_launched w e process_id m)
  unfolding supervisor_launched launched_in bump
  launched-IsQuiet w e process_id m q = go (matching e (lookup w m.state.active))
    where
      at : IsQuiet id (record m { tables = set_execution_supervisor e process_id m.tables })
      at = supervisor-IsQuiet e process_id m q

      go :
          (a : Option ActiveExecution)
          → IsQuiet id (
              launched_in w process_id
                (record m { tables = set_execution_supervisor e process_id m.tables })
                a)
      go none = at
      go (some a) = record { ending = q.ending; absent = at.absent }

  left-IsQuiet :
      (a : String) (m : Manager) (found : Option (String × ActiveExecution))
      → IsQuiet id m
      → IsQuiet id (disconnect_found a m found)
  unfolding disconnect_found bump
  left-IsQuiet a m none q = q
  left-IsQuiet a m (some (w, b)) q =
      let left : IsQuiet id
          (with_state m (bump (record m.state { active = adjust w disconnected m.state.active }))) =
        record { ending = q.ending; absent = q.absent } in
      if-IsQuiet id _ m _ q left

  pub disconnected-IsQuiet :
      (e a : String) (m : Manager) → IsQuiet id m → IsQuiet id (supervisor_disconnected e a m)
  unfolding supervisor_disconnected
  disconnected-IsQuiet e a m q = left-IsQuiet a m (find_execution e m.state.active) q

  attachment-IsQuiet :
      (e : String) (process_id : ℕ) (fresh : String) (stored : StoredExecution) (owned : Bool)
      (m : Manager)
      → IsQuiet id m
      → IsQuiet id (with_attachment x e process_id fresh stored owned m)
  unfolding with_attachment bump
  attachment-IsQuiet e process_id fresh stored true m q = record {
    ending = q.ending;
    absent = (supervisor-IsQuiet e process_id m q).absent;
  }
  attachment-IsQuiet e process_id fresh stored false m q = record {
    ending = q.ending;
    absent = q.absent;
  }

  active-IsQuiet :
      (e : String) (process_id : ℕ) (fresh : String) (stored : StoredExecution)
      (c : ExecutionConfiguration) (m : Manager) (a : Option ActiveExecution)
      → IsQuiet id m
      → IsQuiet id (attach_active x e process_id fresh stored c m a).1
  unfolding attach_active
  active-IsQuiet e process_id fresh stored c m none q = q
  active-IsQuiet e process_id fresh stored c m (some a) q =
      elim (Bool-cases
        (not (a.supervisor_process_id == 0) && not (a.supervisor_process_id == process_id))) [
          | inl h ↦ rw (h) q
          | inr h ↦ rw (h) (elim (Bool-cases (a.locally_owned && a.supervisor_process_id == 0)) [
            | inl k ↦ rw (k) q
            | inr k ↦ rw (k) (attachment-IsQuiet e process_id fresh stored a.locally_owned m q)
          ])
        ]

  pub attach-IsQuiet :
      (e w session : String) (hash : List ℕ) (process_id : ℕ) (fresh : String) (m : Manager)
      → IsQuiet id m
      → IsQuiet id (attach_supervisor x e w session hash process_id fresh m).1
  unfolding attach_supervisor attach_stored attach_decoded
  attach-IsQuiet e w session hash process_id fresh m q = stored-IsQuiet (get_execution e m.tables)
    where
      decoded-IsQuiet :
          (stored : StoredExecution) (c : Option ExecutionConfiguration)
          → IsQuiet id (attach_decoded x e w session hash process_id fresh stored m c).1
      decoded-IsQuiet stored none = q
      decoded-IsQuiet stored (some c) =
          elim (Bool-cases (
            not (str_eq c.workload_id w)
            || not (str_eq c.manager_session_id session)
            || not (same_bytes c.execution_config_hash hash))) [
              | inl h ↦ rw (h) q
              | inr h ↦ rw (h) (
                  active-IsQuiet e process_id fresh stored c m
                    (matching e (lookup stored.workload_id m.state.active)) q)
            ]

      stored-IsQuiet :
          (stored : Option StoredExecution)
          → IsQuiet id (attach_stored x e w session hash process_id fresh m stored).1
      stored-IsQuiet none = q
      stored-IsQuiet (some stored) = decoded-IsQuiet stored (x.decode stored.snapshot)

  finish-absent :
      (e : StoredExecution) (t : Tables)
      → lookup id t.executions ≡ none
      → lookup id (finish_execution e t).executions ≡ none
  unfolding finish_execution
  finish-absent e t h = absent-adjust id e.id (finished e) t.executions h

  row-absent :
      (f : ExecutionFinish) (ended : ℕ) (t : Tables) (row : Option StoredExecution)
      → lookup id t.executions ≡ none
      → lookup id (complete_row f ended t row).executions ≡ none
  unfolding complete_row
  row-absent f ended t none h = h
  row-absent f ended t (some e) h = finish-absent _ t h

  state-ending :
      (w outcome : String) (s : State) (a : Option ActiveExecution)
      → s.session_ending ≡ true
      → (complete_state w outcome s a).1.session_ending ≡ true
  unfolding complete_state retired bump
  state-ending w outcome s none h = h
  state-ending w outcome s (some a) h = h

  pub complete-IsQuiet :
      (w e : String) (f : ExecutionFinish) (fresh : String) (ended : ℕ) (m : Manager)
      → IsQuiet id m
      → IsQuiet id (complete_execution x w e f fresh ended m)
  unfolding complete_execution
  complete-IsQuiet w e f fresh ended m q =
      replaced-IsQuiet x id w fresh ended
        (complete_state w f.state m.state (matching e (lookup w m.state.active))).0 _
        (record {
          ending = state-ending w f.state m.state (matching e (lookup w m.state.active)) q.ending;
          absent = row-absent f ended m.tables (get_execution e m.tables) q.absent;
        })

  found-IsQuiet :
      (e outcome : String) (code : Option ℕ) (error fresh : String) (now : ℕ)
      (stored : StoredExecution) (c : ExecutionConfiguration) (m : Manager)
      (a : Option ActiveExecution)
      → IsQuiet id m
      → IsQuiet id (terminal_found x e outcome code error fresh now stored c m a)
  unfolding terminal_found retired bump
  found-IsQuiet e outcome code error fresh now stored c m none q = q
  found-IsQuiet e outcome code error fresh now stored c m (some a) q =
      if-IsQuiet id a.locally_owned m _ q (
        replaced-IsQuiet x id stored.workload_id fresh now
          (not m.state.session_ending && a.restart_after) _
          (record { ending = q.ending; absent = finish-absent _ m.tables q.absent }))

  pub terminal-IsQuiet :
      (e outcome : String) (code : Option ℕ) (error fresh : String) (now : ℕ) (m : Manager)
      → IsQuiet id m
      → IsQuiet id (supervisor_terminal x e outcome code error fresh now m).1
  unfolding supervisor_terminal terminal_stored terminal_decoded
  terminal-IsQuiet e outcome code error fresh now m q = stored-IsQuiet (get_execution e m.tables)
    where
      decoded-IsQuiet :
          (stored : StoredExecution) (c : Option ExecutionConfiguration)
          → IsQuiet id (terminal_decoded x e outcome code error fresh now stored m c).1
      decoded-IsQuiet stored none = q
      decoded-IsQuiet stored (some c) =
          found-IsQuiet e outcome code error fresh now stored c m
            (matching e (lookup stored.workload_id m.state.active)) q

      stored-IsQuiet :
          (stored : Option StoredExecution)
          → IsQuiet id (terminal_stored x e outcome code error fresh now m stored).1
      stored-IsQuiet none = q
      stored-IsQuiet (some stored) = decoded-IsQuiet stored (x.decode stored.snapshot)
