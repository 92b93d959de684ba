-- ===== src/Supervisor/Retry.antt =====
-- crates/supervisor/src/runner.rs: the retry decision and delay that the supervisor computes from
-- its configuration, and the policy update that changes it.
pub mod Refinement
mod Examples
use Prim.Native.Nat.{min, max}
use text.Mathlib.Text.{◌==◌ as str_eq}
use susm.Common.{ℕ, zero, suc, ◌-◌, ◌*◌, Bool, ◌&&◌, ◌||◌, not, u64_limit, ltb}
use susm.Domain.Time.{Duration, from_millis}
use susm.Protocol.{ExecutionConfiguration, PolicyUpdate}

unfoldable pub should_retry : ExecutionConfiguration → Bool → ℕ → Bool
should_retry c successful retries =
    let policy_allows =
      str_eq c.restart_policy "always"
      || (str_eq c.restart_policy "on-failure" && not successful) in
    policy_allows && (c.max_restarts_unlimited || ltb retries c.max_restarts)

-- `u64::saturating_mul`.
abbrev pub saturating_mul : ℕ → ℕ → ℕ
saturating_mul a b = min (a * b) (u64_limit - 1)

-- The rounds of `for _ in 1..retry`.
pub delay_loop : ℕ → ℕ → ℕ → ℕ → ℕ
delay_loop zero multiplier maximum delay = delay
delay_loop (suc rounds) multiplier maximum delay =
    delay_loop rounds multiplier maximum (min (saturating_mul delay multiplier) maximum)

unfoldable pub retry_delay : ExecutionConfiguration → ℕ → Duration
unfolding delay_loop
retry_delay c retry =
    let multiplier = max c.restart_backoff_multiplier 1 in
    let maximum = max c.restart_backoff_maximum_ms 1 in
    let delay = delay_loop (retry - 1) multiplier maximum (max c.restart_backoff_initial_ms 1) in
    from_millis (min delay maximum)

unfoldable pub apply_policy : ExecutionConfiguration → PolicyUpdate → ExecutionConfiguration
apply_policy c update = record c {
  success_exit_codes = update.success_exit_codes;
  restart_policy = update.restart_policy;
  max_restarts = update.max_restarts;
  max_restarts_unlimited = update.max_restarts_unlimited;
  restart_reset_after_ms = update.restart_reset_after_ms;
  restart_backoff_initial_ms = update.restart_backoff_initial_ms;
  restart_backoff_multiplier = update.restart_backoff_multiplier;
  restart_backoff_maximum_ms = update.restart_backoff_maximum_ms;
  stop_method = update.stop_method;
  stop_timeout_ms = update.stop_timeout_ms;
  stop_executable = update.stop_executable;
  stop_arguments = update.stop_arguments;
  capture_logs = update.capture_logs;
  segment_size = update.segment_size;
  segment_age_ms = update.segment_age_ms;
  retention_size = update.retention_size;
  retention_size_unlimited = update.retention_size_unlimited;
  retention_age_ms = update.retention_age_ms;
  retention_age_unlimited = update.retention_age_unlimited;
}
