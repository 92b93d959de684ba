-- ===== src/Manager/Snapshot.antt =====
-- crates/controller/src/manager.rs: a definition's policies as fields of the configuration that a
-- supervisor gets, and the update that brings new ones. The digest of an update's encoding (`prost`
-- and `sha2`) is a parameter.
use Prim.Native.String.{String}
use Prim.Native.Nat.{min}
use susm.Common.{ℕ, ◌-◌, ◌*◌, ◌/◌, ◌^◌, Bool, true, false, List, [], u64_limit}
use susm.Domain.Time.{Duration, from_millis}
use susm.Domain.Restart.{
  BackoffPolicy, ServiceRetryLimit, finite, unlimited, ServiceRetryPolicy, ServiceRestartPolicy,
  JobRestartPolicy, ExecutionRestartPolicy,
}
use susm.Protocol.{ExecutionConfiguration, PolicyUpdate}
use susm.Config.{
  StopDefinition, ctrl_break, command, kill, RetentionLimit, RetentionDuration, LoggingPolicy,
  disabled, capture,
}

-- Whole milliseconds, `u64::MAX` at most.
unfoldable pub duration_ms : Duration → ℕ
duration_ms duration = min (duration / 1_000_000) (u64_limit - 1)

unfoldable pub apply_backoff : ExecutionConfiguration → BackoffPolicy → ExecutionConfiguration
unfolding duration_ms
apply_backoff c policy = record c {
  restart_backoff_initial_ms = duration_ms policy.initial;
  restart_backoff_multiplier = policy.multiplier;
  restart_backoff_maximum_ms = duration_ms policy.maximum;
}

-- `match policy.limit()`: one of two fields is written, the other keeps its value.
limit_field : ServiceRetryLimit → ℕ → ℕ
limit_field (finite limit) kept = limit
limit_field unlimited kept = kept

unlimited_field : ServiceRetryLimit → Bool → Bool
unlimited_field (finite limit) kept = kept
unlimited_field unlimited kept = true

apply_service_retry : ExecutionConfiguration → String → ServiceRetryPolicy → ExecutionConfiguration
unfolding apply_backoff limit_field unlimited_field
apply_service_retry c name policy =
    apply_backoff
      (record c {
        restart_policy = name;
        max_restarts = limit_field policy.limit c.max_restarts;
        max_restarts_unlimited = unlimited_field policy.limit c.max_restarts_unlimited;
        restart_reset_after_ms = duration_ms policy.reset_after;
      })
      policy.backoff

unfoldable pub apply_restart :
    ExecutionConfiguration → ExecutionRestartPolicy → ExecutionConfiguration
unfolding apply_service_retry
apply_restart c (ExecutionRestartPolicy.service ServiceRestartPolicy.never) = record c {
  restart_policy = "never";
}
apply_restart c (ExecutionRestartPolicy.job JobRestartPolicy.never) = record c {
  restart_policy = "never";
}
apply_restart c (ExecutionRestartPolicy.service (ServiceRestartPolicy.on_failure policy)) =
    apply_service_retry c "on-failure" policy
apply_restart c (ExecutionRestartPolicy.service (ServiceRestartPolicy.always policy)) =
    apply_service_retry c "always" policy
apply_restart c (ExecutionRestartPolicy.job (JobRestartPolicy.on_failure policy)) =
    apply_backoff (record c { restart_policy = "on-failure"; max_restarts = policy.max_restarts })
      policy.backoff

unfoldable pub apply_stop : ExecutionConfiguration → StopDefinition → ExecutionConfiguration
unfolding duration_ms
apply_stop c (ctrl_break timeout) = record c {
  stop_method = "ctrl-break";
  stop_timeout_ms = duration_ms timeout;
}
apply_stop c (command timeout stop) = record c {
  stop_method = "command";
  stop_timeout_ms = duration_ms timeout;
  stop_executable = stop.executable;
  stop_arguments = stop.arguments;
}
apply_stop c kill = record c { stop_method = "kill" }

apply_retention_size : ExecutionConfiguration → RetentionLimit → ExecutionConfiguration
apply_retention_size c (RetentionLimit.limited value) = record c { retention_size = value }
apply_retention_size c RetentionLimit.unlimited = record c { retention_size_unlimited = true }

apply_retention_age : ExecutionConfiguration → RetentionDuration → ExecutionConfiguration
apply_retention_age c (RetentionDuration.limited value) = record c {
  retention_age_ms = duration_ms value;
}
apply_retention_age c RetentionDuration.unlimited = record c { retention_age_unlimited = true }

unfoldable pub apply_logging : ExecutionConfiguration → LoggingPolicy → ExecutionConfiguration
unfolding duration_ms apply_retention_size apply_retention_age
apply_logging c disabled = record c { capture_logs = false }
apply_logging c (capture segment_size segment_age size age) =
    apply_retention_age
      (apply_retention_size
        (record c {
          capture_logs = true;
          segment_size = segment_size;
          segment_age_ms = duration_ms segment_age;
        })
        size)
      age

-- `supervisor_retry_delay`: 100 ms, doubled for each failure after the first, 5 s at most.
unfoldable pub supervisor_retry_delay : ℕ → Duration
supervisor_retry_delay failures =
    let exponent = min (failures - 1) 31 in
    from_millis (min (min (100 * 2 ^ exponent) (u64_limit - 1)) 5_000)

module _ (digest : PolicyUpdate → List ℕ) where
  unhashed : ExecutionConfiguration → PolicyUpdate
  unhashed c = record {
    success_exit_codes = c.success_exit_codes;
    restart_policy = c.restart_policy;
    max_restarts = c.max_restarts;
    max_restarts_unlimited = c.max_restarts_unlimited;
    restart_reset_after_ms = c.restart_reset_after_ms;
    restart_backoff_initial_ms = c.restart_backoff_initial_ms;
    restart_backoff_multiplier = c.restart_backoff_multiplier;
    restart_backoff_maximum_ms = c.restart_backoff_maximum_ms;
    stop_method = c.stop_method;
    stop_timeout_ms = c.stop_timeout_ms;
    stop_executable = c.stop_executable;
    stop_arguments = c.stop_arguments;
    capture_logs = c.capture_logs;
    segment_size = c.segment_size;
    segment_age_ms = c.segment_age_ms;
    retention_size = c.retention_size;
    retention_size_unlimited = c.retention_size_unlimited;
    retention_age_ms = c.retention_age_ms;
    retention_age_unlimited = c.retention_age_unlimited;
    policy_hash = [];
  }

  unfoldable pub policy_update : ExecutionConfiguration → PolicyUpdate
  unfolding unhashed
  policy_update c = record (unhashed c) { policy_hash = digest (unhashed c) }
