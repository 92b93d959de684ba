-- ===== src/Config/Raw.antt =====
-- crates/config/src/raw.rs: from the restart table of a configuration file to the domain's policy. The
-- texts of the errors' reasons are left out.
pub mod Accepted
use Prim.Native.String.{String}
use text.Mathlib.Text.{◌==◌ as str_eq}
use susm.Common.{
  ℕ, Bool, true, false, Option, none, some, List, [], ◌∷◌, if◌then◌else◌, ◌==◌, non_zero, Result,
  ok, err, ok_or, ◌>>=◌, ◌>>◌,
}
use susm.Domain.Time.{Duration, non_zero_duration}
use susm.Domain.Restart.{
  BackoffPolicy, InvalidBackoffPolicy, backoff_policy, ServiceRetryLimit, unlimited,
  ServiceRetryPolicy, ServiceRestartPolicy, JobRetryPolicy, JobRestartPolicy,
  ExecutionRestartPolicy, default_backoff_initial, default_backoff_multiplier,
  default_backoff_maximum, default_service_max_restarts, default_service_reset_after,
}

pub data DefinitionError : Type 0 where
  invalid_field field_not_allowed field_required : String → DefinitionError

pub data WorkloadKind : Type 0 where
  service_kind job_kind : WorkloadKind

pub data RawRestartPolicy : Type 0 where
  never on_failure always : RawRestartPolicy

pub data RawRestartLimit : Type 0 where
  finite : ℕ → RawRestartLimit
  keyword : String → RawRestartLimit

pub record RawBackoff : Type 0 where
  pub initial : Option Duration
  pub multiplier : Option ℕ
  pub maximum : Option Duration

pub record RawRestart : Type 0 where
  pub policy : Option RawRestartPolicy
  pub max_restarts : Option RawRestartLimit
  pub reset_after : Option Duration
  pub backoff : Option RawBackoff

-- `Option::unwrap_or`, `Option::is_some`.
abbrev pub unwrap_or {ℓ} : {A : Type ℓ} → Option A → A → A
unwrap_or none d = d
unwrap_or (some a) d = a

abbrev is_some {ℓ} : {A : Type ℓ} → Option A → Bool
is_some none = false
is_some (some _) = true

abbrev pub default_raw_backoff : RawBackoff
default_raw_backoff = record { initial = none; multiplier = none; maximum = none }

abbrev pub default_raw_restart : RawRestart
default_raw_restart = record {
  policy = none;
  max_restarts = none;
  reset_after = none;
  backoff = none;
}

positive_duration : String → Duration → Result Duration DefinitionError
positive_duration field value = ok_or (non_zero_duration value) (invalid_field field)

checked_backoff : Result BackoffPolicy InvalidBackoffPolicy → Result BackoffPolicy DefinitionError
checked_backoff (ok policy) = ok policy
checked_backoff (err e) = err (invalid_field "restart.backoff")

-- `RawBackoff::into_policy`.
unfoldable pub into_policy : RawBackoff → Result BackoffPolicy DefinitionError
unfolding positive_duration checked_backoff
into_policy raw = do
  initial ←
      positive_duration "restart.backoff.initial" (unwrap_or raw.initial default_backoff_initial)
  maximum ←
      positive_duration "restart.backoff.maximum" (unwrap_or raw.maximum default_backoff_maximum)
  multiplier ←
      ok_or (non_zero (unwrap_or raw.multiplier default_backoff_multiplier))
        (invalid_field "restart.backoff.multiplier")
  checked_backoff (backoff_policy initial multiplier maximum)

unfoldable pub reject_retry_fields : RawRestart → Result (Unit {0}) DefinitionError
reject_retry_fields raw =
    if is_some raw.max_restarts
    then err (field_not_allowed "restart.max_restarts")
    else if is_some raw.reset_after
    then err (field_not_allowed "restart.reset_after")
    else if is_some raw.backoff
    then err (field_not_allowed "restart.backoff")
    else ok tt

-- `none` is the early return of the policy `never`.
service_limit : Option RawRestartLimit → Result (Option ServiceRetryLimit) DefinitionError
service_limit none = ok (some (ServiceRetryLimit.finite default_service_max_restarts))
service_limit (some (finite value)) =
    if value == 0 then ok none else ok (some (ServiceRetryLimit.finite value))
service_limit (some (keyword word)) =
    if str_eq word "unlimited"
    then ok (some unlimited)
    else err (invalid_field "restart.max_restarts")

service_retrying :
    (ServiceRetryPolicy → ServiceRestartPolicy)
    → RawRestart
    → Option ServiceRetryLimit
    → Result ExecutionRestartPolicy DefinitionError
unfolding positive_duration
service_retrying wrap raw none = ok (ExecutionRestartPolicy.service ServiceRestartPolicy.never)
service_retrying wrap raw (some limit) = do
  reset_after ←
      positive_duration "restart.reset_after"
        (unwrap_or raw.reset_after default_service_reset_after)
  backoff ← into_policy (unwrap_or raw.backoff default_raw_backoff)
  ok (
      ExecutionRestartPolicy.service
        (wrap (record { limit = limit; reset_after = reset_after; backoff = backoff })))

service_policy_of : RawRestartPolicy → RawRestart → Result ExecutionRestartPolicy DefinitionError
unfolding service_limit service_retrying
service_policy_of never raw =
    reject_retry_fields raw >> ok (ExecutionRestartPolicy.service ServiceRestartPolicy.never)
service_policy_of on_failure raw = service_limit raw.max_restarts >>= λ limit.
    service_retrying ServiceRestartPolicy.on_failure raw limit
service_policy_of always raw = service_limit raw.max_restarts >>= λ limit.
    service_retrying ServiceRestartPolicy.always raw limit

unfoldable pub service_restart_policy : RawRestart → Result ExecutionRestartPolicy DefinitionError
unfolding service_policy_of
service_restart_policy raw = service_policy_of (unwrap_or raw.policy on_failure) raw

job_retrying : RawRestart → ℕ → Result ExecutionRestartPolicy DefinitionError
job_retrying raw max_restarts = do
  backoff ← into_policy (unwrap_or raw.backoff default_raw_backoff)
  ok (
      ExecutionRestartPolicy.job
        (JobRestartPolicy.on_failure (record { max_restarts = max_restarts; backoff = backoff })))

job_limited : RawRestart → Option RawRestartLimit → Result ExecutionRestartPolicy DefinitionError
unfolding job_retrying
job_limited raw (some (finite value)) =
    if value == 0
    then ok (ExecutionRestartPolicy.job JobRestartPolicy.never)
    else job_retrying raw value
job_limited raw (some (keyword word)) = err (invalid_field "restart.max_restarts")
job_limited raw none = err (field_required "restart.max_restarts")

job_policy_of : RawRestartPolicy → RawRestart → Result ExecutionRestartPolicy DefinitionError
unfolding job_limited
job_policy_of never raw =
    reject_retry_fields raw >> ok (ExecutionRestartPolicy.job JobRestartPolicy.never)
job_policy_of always raw = err (invalid_field "restart.policy")
job_policy_of on_failure raw =
    if is_some raw.reset_after
    then err (field_not_allowed "restart.reset_after")
    else job_limited raw raw.max_restarts

unfoldable pub job_restart_policy : RawRestart → Result ExecutionRestartPolicy DefinitionError
unfolding job_policy_of
job_restart_policy raw = job_policy_of (unwrap_or raw.policy never) raw

unfoldable pub restart_policy :
    WorkloadKind → Option RawRestart → Result ExecutionRestartPolicy DefinitionError
unfolding service_restart_policy job_restart_policy
restart_policy service_kind raw = service_restart_policy (unwrap_or raw default_raw_restart)
restart_policy job_kind raw = job_restart_policy (unwrap_or raw default_raw_restart)
