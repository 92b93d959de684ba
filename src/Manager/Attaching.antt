-- ===== src/Manager/Attaching.antt =====
-- crates/controller/src/manager.rs: a supervisor attaches to its execution.
use Prim.Native.String.{String}
use text.Mathlib.Text.{◌==◌ as str_eq}
use susm.Common.{
  ℕ, Bool, ◌&&◌, ◌||◌, not, Option, none, some, List, [], ◌∷◌, ◌++◌, if◌then◌else◌, ok, err, ◌==◌,
}
use susm.Common.Maps.{lookup, adjust}
use susm.Protocol.{ExecutionConfiguration}
use susm.Storage.{StoredExecution}
use susm.Storage.Operations.{get_execution, set_execution_supervisor, same_bytes}
use susm.Manager.{
  Setting, not_found, supervisor_identity_mismatch, undecodable, WorkloadRecord, subscribed,
  ActiveExecution, Manager, bump,
}
use susm.Manager.Snapshot.{policy_update}
use susm.Manager.Lifecycle.{Outcome, send, digest}
use susm.Manager.Supervisors.{active_state, matching}

-- The receiver of `commands` is the one that `attachment_id` has subscribed.
pub record SupervisorAttachment : Type 0 where
  pub configuration : ExecutionConfiguration
  pub committed_sequence : ℕ
  pub attachment_id : String

abbrev definition_of : Option WorkloadRecord → Option ExecutionConfiguration
definition_of none = none
definition_of (some r) = r.definition

module _ (x : Setting) where
  unfoldable pub sent_policy : Option ExecutionConfiguration → ActiveExecution → ActiveExecution
  sent_policy none a = a
  sent_policy (some definition) a =
      if a.policy_sync_pending
      then send
          (record {
            kind = "update-policy";
            payload = x.encode_update (policy_update (digest x) definition);
          })
          a
      else a

  -- What `attach_supervisor` makes of the active execution. The subscription comes before the policy.
  unfoldable pub attached :
      ℕ
      → String
      → StoredExecution
      → Option ExecutionConfiguration
      → ActiveExecution
      → ActiveExecution
  unfolding sent_policy
  attached process_id fresh stored current a = sent_policy current (record a {
    supervisor_process_id = process_id;
    state = if a.locally_owned then "launching" else active_state stored.state;
    workload_process_id =
        if a.locally_owned then a.workload_process_id else stored.workload_process_id;
    attempt = if a.locally_owned then a.attempt else stored.attempt;
    error = if a.locally_owned then a.error else stored.error;
    attachment_id = some fresh;
    commands = a.commands ++ subscribed fresh ∷ [];
  })

  -- The row of an execution that the manager owns gets its supervisor.
  unfoldable pub with_attachment : String → ℕ → String → StoredExecution → Bool → Manager → Manager
  with_attachment execution_id process_id fresh stored locally_owned m = record m {
    tables =
        if locally_owned
        then set_execution_supervisor execution_id process_id m.tables
        else m.tables;
    state = bump (record m.state {
      active =
          adjust stored.workload_id
            (attached process_id fresh stored
              (definition_of (lookup stored.workload_id m.state.workloads)))
            m.state.active;
    });
  }

  unfoldable pub attach_active :
      String
      → ℕ
      → String
      → StoredExecution
      → ExecutionConfiguration
      → Manager
      → Option ActiveExecution
      → Outcome SupervisorAttachment
  unfolding with_attachment
  attach_active execution_id process_id fresh stored configuration m none =
      (err (not_found execution_id), m)
  attach_active execution_id process_id fresh stored configuration m (some a) =
      if not (a.supervisor_process_id == 0) && not (a.supervisor_process_id == process_id)
      then (err supervisor_identity_mismatch, m)
      else if a.locally_owned && a.supervisor_process_id == 0
      then (err supervisor_identity_mismatch, m)
      else (
        ok (record {
          configuration = configuration;
          committed_sequence = stored.committed_sequence;
          attachment_id = fresh;
        }),
        with_attachment execution_id process_id fresh stored a.locally_owned m,
      )

  unfoldable pub attach_decoded :
      String
      → String
      → String
      → List ℕ
      → ℕ
      → String
      → StoredExecution
      → Manager
      → Option ExecutionConfiguration
      → Outcome SupervisorAttachment
  unfolding attach_active
  attach_decoded execution_id workload_id session hash process_id fresh stored m none =
      (err undecodable, m)
  attach_decoded execution_id workload_id session hash process_id fresh stored m (some c) =
      if not (str_eq c.workload_id workload_id)
        || not (str_eq c.manager_session_id session)
        || not (same_bytes c.execution_config_hash hash)
      then (err supervisor_identity_mismatch, m)
      else attach_active execution_id process_id fresh stored c m
          (matching execution_id (lookup stored.workload_id m.state.active))

  unfoldable pub attach_stored :
      String
      → String
      → String
      → List ℕ
      → ℕ
      → String
      → Manager
      → Option StoredExecution
      → Outcome SupervisorAttachment
  unfolding attach_decoded
  attach_stored execution_id workload_id session hash process_id fresh m none =
      (err (not_found execution_id), m)
  attach_stored execution_id workload_id session hash process_id fresh m (some stored) =
      attach_decoded execution_id workload_id session hash process_id fresh stored m
        (x.decode stored.snapshot)

  -- `Manager::attach_supervisor`; `fresh` is the new attachment id.
  unfoldable pub attach_supervisor :
      String → String → String → List ℕ → ℕ → String → Manager → Outcome SupervisorAttachment
  unfolding attach_stored
  attach_supervisor execution_id workload_id session hash process_id fresh m =
      attach_stored execution_id workload_id session hash process_id fresh m
        (get_execution execution_id m.tables)
