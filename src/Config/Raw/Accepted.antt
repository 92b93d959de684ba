-- ===== src/Config/Raw/Accepted.antt =====
-- crates/config/src/raw.rs: what the policies of an accepted configuration file satisfy.
use text.Mathlib.Text.{◌==◌ as str_eq}
use susm.Common.{
  ◌<◌, ◌≡◌, Option, none, some, ok, ◌>>=◌, subst, arith, Result-cases, Bool-cases, ◌==◌, inl, inr,
}
use susm.Domain.Time.{Duration, duration_limit, non_zero_duration}
use susm.Domain.Restart.{
  BackoffPolicy, backoff_policy, ServiceRetryLimit, finite, unlimited, ServiceRetryPolicy,
  ServiceRestartPolicy, JobRetryPolicy, JobRestartPolicy, ExecutionRestartPolicy,
}
use susm.Domain.Restart.Backoff
use susm.Config.Raw.{
  WorkloadKind, service_kind, job_kind, RawBackoff, RawRestart, unwrap_or, default_raw_backoff,
  default_raw_restart, into_policy, reject_retry_fields, restart_policy, service_restart_policy,
  job_restart_policy, service_limit, service_retrying, job_retrying, job_limited, service_policy_of,
  job_policy_of, RawRestartPolicy, RawRestartLimit, keyword, never, on_failure, always,
  positive_duration,
}

abbrev pub LimitFits : ServiceRetryLimit → Type 0
LimitFits (finite n) = 0 < n
LimitFits unlimited = Unit {0}

pub record ServiceRetryFits (p : ServiceRetryPolicy) : Type 0 where
  pub limit : LimitFits p.limit
  pub reset_after : 0 < p.reset_after
  pub backoff : Backoff.IsValid p.backoff

pub record JobRetryFits (p : JobRetryPolicy) : Type 0 where
  pub max_restarts : 0 < p.max_restarts
  pub backoff : Backoff.IsValid p.backoff

-- A policy of the workload's kind, with what the `NonZero` types and `BackoffPolicy::new` promise.
abbrev pub Fits : WorkloadKind → ExecutionRestartPolicy → Type 0
Fits service_kind (ExecutionRestartPolicy.service ServiceRestartPolicy.never) = Unit {0}
Fits service_kind (ExecutionRestartPolicy.service (ServiceRestartPolicy.on_failure p)) =
    ServiceRetryFits p
Fits service_kind (ExecutionRestartPolicy.service (ServiceRestartPolicy.always p)) =
    ServiceRetryFits p
Fits job_kind (ExecutionRestartPolicy.job JobRestartPolicy.never) = Unit {0}
Fits job_kind (ExecutionRestartPolicy.job (JobRestartPolicy.on_failure p)) = JobRetryFits p
Fits _ _ = ⊥

-- The maximum delay that a file asks for, or the default.
abbrev pub asked_maximum : Option RawRestart → Duration
asked_maximum raw =
    let backoff = unwrap_or (unwrap_or raw default_raw_restart).backoff default_raw_backoff in
    unwrap_or backoff.maximum 30_000_000_000

into_policy-IsValid :
    (raw : RawBackoff) (p : BackoffPolicy)
    → unwrap_or raw.maximum 30_000_000_000 < duration_limit
    → into_policy raw ≡ ok p
    → Backoff.IsValid p
unfolding into_policy backoff_policy non_zero_duration
into_policy-IsValid raw p m h = record {
  initial_pos = ground arith;
  multiplier_pos = ground arith;
  ordered = ground arith;
  in_range = ground arith;
}

service_retrying-eq :
    (wrap : ServiceRetryPolicy → ServiceRestartPolicy) (raw : RawRestart)
    (limit : ServiceRetryLimit) (b : BackoffPolicy) (p : ExecutionRestartPolicy)
    → into_policy (unwrap_or raw.backoff default_raw_backoff) ≡ ok b
    → service_retrying wrap raw (some limit) ≡ ok p
    → (0 < unwrap_or raw.reset_after 300_000_000_000)
      × (ExecutionRestartPolicy.service (
            wrap (record {
              limit = limit;
              reset_after = unwrap_or raw.reset_after 300_000_000_000;
              backoff = b;
            }))
          ≡ p)
unfolding service_retrying positive_duration non_zero_duration
service_retrying-eq wrap raw limit b p e h = (ground arith, ground arith)

service_retrying-backoff :
    (wrap : ServiceRetryPolicy → ServiceRestartPolicy) (raw : RawRestart)
    (limit : ServiceRetryLimit) (p : ExecutionRestartPolicy)
    → service_retrying wrap raw (some limit) ≡ ok p
    → (b : BackoffPolicy) × (into_policy (unwrap_or raw.backoff default_raw_backoff) ≡ ok b)
unfolding service_retrying positive_duration non_zero_duration
service_retrying-backoff wrap raw limit p h =
    elim (Result-cases (into_policy (unwrap_or raw.backoff default_raw_backoff))) [
      | inl (b, e) ↦ (b, e)
      | inr (x, e) ↦ absurd (ground arith)
    ]

service_retrying-Fits :
    (wrap : ServiceRetryPolicy → ServiceRestartPolicy) (raw : RawRestart)
    (limit : ServiceRetryLimit) (p : ExecutionRestartPolicy)
    → ((r : ServiceRetryPolicy)
        → ServiceRetryFits r
        → Fits service_kind (ExecutionRestartPolicy.service (wrap r)))
    → LimitFits limit
    → unwrap_or (unwrap_or raw.backoff default_raw_backoff).maximum 30_000_000_000 < duration_limit
    → service_retrying wrap raw (some limit) ≡ ok p
    → Fits service_kind p
service_retrying-Fits wrap raw limit p k l m h =
    let b = service_retrying-backoff wrap raw limit p h in
    let q = service_retrying-eq wrap raw limit b.0 p b.1 h in
    subst (Fits service_kind) q.1
      (k _ (record { limit = l; reset_after = q.0; backoff = into_policy-IsValid _ b.0 m b.1 }))

service_retrying-none :
    (wrap : ServiceRetryPolicy → ServiceRestartPolicy) (raw : RawRestart)
    (p : ExecutionRestartPolicy)
    → service_retrying wrap raw none ≡ ok p
    → ExecutionRestartPolicy.service ServiceRestartPolicy.never ≡ p
unfolding service_retrying
service_retrying-none wrap raw p h = ground arith

service_limited-Fits :
    (wrap : ServiceRetryPolicy → ServiceRestartPolicy) (raw : RawRestart)
    (o : Option RawRestartLimit) (p : ExecutionRestartPolicy)
    → ((r : ServiceRetryPolicy)
        → ServiceRetryFits r
        → Fits service_kind (ExecutionRestartPolicy.service (wrap r)))
    → unwrap_or (unwrap_or raw.backoff default_raw_backoff).maximum 30_000_000_000 < duration_limit
    → (service_limit o >>= λ limit. service_retrying wrap raw limit) ≡ ok p
    → Fits service_kind p
unfolding service_limit
service_limited-Fits wrap raw none p k m h =
    service_retrying-Fits wrap raw (finite 10) p k (omega arith) m h
service_limited-Fits wrap raw (some (RawRestartLimit.finite n)) p k m h =
    elim (Bool-cases (n == 0)) [
      | inl z ↦ subst (Fits service_kind) (service_retrying-none wrap raw p (ground arith)) tt
      | inr z ↦ service_retrying-Fits wrap raw (finite n) p k (ground arith) m (ground arith)
    ]
service_limited-Fits wrap raw (some (keyword w)) p k m h =
    elim (Bool-cases (str_eq w "unlimited")) [
      | inl z ↦ service_retrying-Fits wrap raw unlimited p k tt m (ground arith)
      | inr z ↦ absurd (ground arith)
    ]

service_policy-Fits :
    (a : RawRestartPolicy) (raw : RawRestart) (p : ExecutionRestartPolicy)
    → unwrap_or (unwrap_or raw.backoff default_raw_backoff).maximum 30_000_000_000 < duration_limit
    → service_policy_of a raw ≡ ok p
    → Fits service_kind p
unfolding service_policy_of reject_retry_fields
service_policy-Fits never raw p m h = ground arith
service_policy-Fits on_failure raw p m h =
    service_limited-Fits ServiceRestartPolicy.on_failure raw raw.max_restarts p (λ r f. f) m h
service_policy-Fits always raw p m h =
    service_limited-Fits ServiceRestartPolicy.always raw raw.max_restarts p (λ r f. f) m h

job_policy-Fits :
    (a : RawRestartPolicy) (raw : RawRestart) (p : ExecutionRestartPolicy)
    → unwrap_or (unwrap_or raw.backoff default_raw_backoff).maximum 30_000_000_000 < duration_limit
    → job_policy_of a raw ≡ ok p
    → Fits job_kind p
unfolding job_policy_of job_limited job_retrying reject_retry_fields
job_policy-Fits a raw p m h =
    let backoff = unwrap_or raw.backoff default_raw_backoff in
    elim (Result-cases (into_policy backoff)) [
      | inl (b, e) ↦ ground (arith, into_policy-IsValid backoff b m e)
      | inr (x, e) ↦ ground arith
    ]

-- Whatever restart table a file has for a workload, a policy that is accepted for it is one of the
-- workload's own kind, and its limit, its reset time and its backoff are valid, the latter with an
-- initial delay that is not above the maximum (a duration's range being that of its type).
pub restart_policy-Fits :
    (kind : WorkloadKind) (raw : Option RawRestart) (p : ExecutionRestartPolicy)
    → asked_maximum raw < duration_limit
    → restart_policy kind raw ≡ ok p
    → Fits kind p
unfolding restart_policy service_restart_policy job_restart_policy
restart_policy-Fits service_kind raw p m h =
    let table = unwrap_or raw default_raw_restart in
    service_policy-Fits (unwrap_or table.policy on_failure) table p m h
restart_policy-Fits job_kind raw p m h =
    let table = unwrap_or raw default_raw_restart in
    job_policy-Fits (unwrap_or table.policy never) table p m h
