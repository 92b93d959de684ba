-- ===== src/Config/Examples.antt =====
-- Restart tables of a configuration file.
use susm.Common.{◌≡◌, refl, none, some, ok, arith}
use susm.Domain.Time.{non_zero_duration}
use susm.Domain.Restart.{
  backoff_policy, default_backoff, default_service_retry, JobRestartPolicy, ServiceRestartPolicy,
  ExecutionRestartPolicy,
}
use susm.Config.Raw.{
  job_kind, service_kind, RawRestart, finite, on_failure, into_policy, restart_policy,
  service_restart_policy, job_restart_policy,
}
use susm.Config.Raw.Accepted.{Fits, restart_policy-Fits}

abbrev three_retries : RawRestart
three_retries = record {
  policy = some on_failure;
  max_restarts = some (finite 3);
  reset_after = none;
  backoff = none;
}

abbrev job_policy : ExecutionRestartPolicy
job_policy =
    ExecutionRestartPolicy.job
      (JobRestartPolicy.on_failure (record { max_restarts = 3; backoff = default_backoff }))

accept_step : restart_policy job_kind (some three_retries) ≡ ok job_policy
unfolding restart_policy job_restart_policy into_policy backoff_policy non_zero_duration
accept_step = refl

-- A service without a restart table has the domain's default policy.
default_step :
    restart_policy service_kind none
    ≡ ok (ExecutionRestartPolicy.service (ServiceRestartPolicy.on_failure default_service_retry))
unfolding restart_policy service_restart_policy into_policy backoff_policy non_zero_duration
default_step = refl

Fits_example : Fits job_kind job_policy
Fits_example =
    restart_policy-Fits job_kind (some three_retries) job_policy (omega arith) accept_step
