-- ===== src/Manager/Restarts/Replacing.antt =====
-- crates/controller/src/manager.rs: the end of an execution for which a restart was asked.
use Prim.Native.String.{String}
use text.Mathlib.Text.{◌==◌ as str_eq}
use susm.Common.{ℕ}
use susm.Storage.Operations.{get_execution}
use susm.Manager.{Manager}
use susm.Manager.Supervisors.{retired}
use susm.Manager.Completion.{ExecutionFinish, complete_row}

-- The manager when the execution has ended, before the replacement.
unfoldable without_execution : String → String → ExecutionFinish → ℕ → Manager → Manager
without_execution id execution_id f ended m = record m {
  tables = complete_row f ended m.tables (get_execution execution_id m.tables);
  state = retired id f.state m.state;
}
