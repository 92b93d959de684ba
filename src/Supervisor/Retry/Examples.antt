-- ===== src/Supervisor/Retry/Examples.antt =====
-- The retry decision and delay at some configurations.
use susm.Common.{ℕ, ◌+◌, ◌≡◌, refl, false, not, ◌&&◌, List, [], ◌∷◌, arith}
use susm.Domain.Restart.{
  ExecutionRestartPolicy, ServiceRestartPolicy, default_backoff, default_service_retry, delay_for,
}
use susm.Domain.Execution.Retry.{wants, budget, covers}
use susm.Domain.SupervisorBinding.{default_launch_policy}
use susm.Protocol.{ExecutionConfiguration, PolicyUpdate}
use susm.Manager.Snapshot.{apply_backoff, apply_restart, supervisor_retry_delay, policy_update}
use susm.Supervisor.Retry.{should_retry, retry_delay, apply_policy}
use susm.Supervisor.Retry.Refinement.{
  should_retry-eq, retry_delay-eq, supervisor_retry_delay-eq, apply_policy-policy_update,
}

abbrev configuration : ExecutionConfiguration
configuration = record {
  workload_id = "";
  execution_id = "";
  attempt = 0;
  kind = "";
  executable = "";
  arguments = [];
  working_directory = "";
  environment_set = [];
  environment_unset = [];
  success_exit_codes = [];
  stop_method = "";
  stop_timeout_ms = 0;
  stop_executable = "";
  stop_arguments = [];
  capture_logs = false;
  segment_size = 0;
  segment_age_ms = 0;
  retention_size = 0;
  retention_size_unlimited = false;
  retention_age_ms = 0;
  retention_age_unlimited = false;
  log_directory = "";
  runtime_journal = "";
  result_file = "";
  restart_policy = "";
  max_restarts = 0;
  max_restarts_unlimited = false;
  restart_reset_after_ms = 0;
  restart_backoff_initial_ms = 0;
  restart_backoff_multiplier = 0;
  restart_backoff_maximum_ms = 0;
  execution_config_hash = [];
  manager_session_id = "";
  process_definition_hash = [];
  supervisor_executable = "";
  version_pin = "";
}

abbrev on_failure : ExecutionRestartPolicy
on_failure = ExecutionRestartPolicy.service (ServiceRestartPolicy.on_failure default_service_retry)

should_retry_example :
    should_retry (apply_restart configuration on_failure) false 9
    ≡ (wants on_failure (not false) && covers (budget on_failure) (9 + 1))
should_retry_example = should_retry-eq configuration on_failure false 9 refl

retry_delay_example :
    retry_delay (apply_backoff configuration default_backoff) 5 ≡ delay_for default_backoff 5
retry_delay_example =
    retry_delay-eq configuration default_backoff 250 30_000 5
      (record {
        initial_pos = omega arith;
        multiplier_pos = omega arith;
        ordered = omega arith;
        in_range = omega arith;
      })
      refl refl (omega arith)

supervisor_delay_example : supervisor_retry_delay 3 ≡ delay_for default_launch_policy.backoff 3
supervisor_delay_example = supervisor_retry_delay-eq 3

abbrev digest : PolicyUpdate → List ℕ
digest update = update.max_restarts ∷ update.stop_timeout_ms ∷ []

abbrev updated : ExecutionConfiguration
updated = record configuration { max_restarts = 4; stop_method = "kill" }

policy_update_example :
    (policy_update digest (apply_policy configuration (policy_update digest updated))
      ≡ policy_update digest updated)
    × (apply_policy configuration (policy_update digest configuration) ≡ configuration)
policy_update_example = apply_policy-policy_update digest configuration updated
