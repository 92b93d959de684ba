-- ===== src/Domain/Restart.antt =====
-- crates/domain/src/restart.rs: restart policies and their backoff.
pub mod Backoff
use susm.Common.{
  ℕ, zero, suc, ◌+◌, ◌*◌, ◌-◌, Bool, ◌||◌, Option, none, some, u32_limit, checked_add, checked_mul,
  non_zero, if◌then◌else◌, ltb, ◌==◌, Result, ok, err,
}
use susm.Common.Options.{◌>>=◌}
use susm.Domain.Time.{Duration, duration_limit, from_secs, from_millis}

abbrev pub default_service_max_restarts : ℕ
default_service_max_restarts = 10

abbrev pub default_service_reset_after : Duration
default_service_reset_after = from_secs 300

abbrev pub default_backoff_initial : Duration
default_backoff_initial = from_millis 250

abbrev pub default_backoff_multiplier : ℕ
default_backoff_multiplier = 2

abbrev pub default_backoff_maximum : Duration
default_backoff_maximum = from_secs 30

abbrev pub RetryOrdinal : Type 0
RetryOrdinal = ℕ

abbrev pub first_retry : RetryOrdinal
first_retry = 1

-- `RetryOrdinal::new`.
unfoldable pub retry_ordinal : ℕ → Option RetryOrdinal
retry_ordinal value = non_zero value

-- `RetryOrdinal::next`.
unfoldable pub next_retry : RetryOrdinal → Option RetryOrdinal
unfolding retry_ordinal
next_retry n = checked_add u32_limit n 1 >>= retry_ordinal

pub record BackoffPolicy : Type 0 where
  pub initial : Duration
  pub multiplier : ℕ
  pub maximum : Duration

pub data InvalidBackoffPolicy : Type 0 where
  maximum_less_than_initial : InvalidBackoffPolicy

-- `BackoffPolicy::new`. Its arguments are not zero by their types.
unfoldable pub backoff_policy : Duration → ℕ → Duration → Result BackoffPolicy InvalidBackoffPolicy
backoff_policy initial multiplier maximum =
    if ltb maximum initial
    then err maximum_less_than_initial
    else ok (record { initial = initial; multiplier = multiplier; maximum = maximum })

-- The rounds left of `for _ in 1..retry.get()`. The recursive call waits under the binding.
pub delay_rounds : ℕ → ℕ → Duration → Duration → Duration
delay_rounds zero multiplier maximum delay = delay
delay_rounds (suc rounds) multiplier maximum delay =
    elim (checked_mul duration_limit delay multiplier) [
      | none ↦ maximum
      | some next ↦ elim (ltb next maximum) [
        | Bool.true ↦ delay_rounds rounds multiplier maximum next
        | Bool.false ↦ maximum
      ]
    ]

-- `BackoffPolicy::delay_for`.
unfoldable pub delay_for : BackoffPolicy → RetryOrdinal → Duration
unfolding delay_rounds
delay_for p retry =
    if p.multiplier == 1 || p.initial == p.maximum
    then p.initial
    else delay_rounds (retry - 1) p.multiplier p.maximum p.initial

abbrev pub default_backoff : BackoffPolicy
default_backoff = record {
  initial = default_backoff_initial;
  multiplier = default_backoff_multiplier;
  maximum = default_backoff_maximum;
}

pub data ServiceRetryLimit : Type 0 where
  finite : ℕ → ServiceRetryLimit
  unlimited : ServiceRetryLimit

pub record ServiceRetryPolicy : Type 0 where
  pub limit : ServiceRetryLimit
  pub reset_after : Duration
  pub backoff : BackoffPolicy

abbrev pub default_service_retry : ServiceRetryPolicy
default_service_retry = record {
  limit = finite default_service_max_restarts;
  reset_after = default_service_reset_after;
  backoff = default_backoff;
}

pub data ServiceRestartPolicy : Type 0 where
  never : ServiceRestartPolicy
  on_failure always : ServiceRetryPolicy → ServiceRestartPolicy

pub record JobRetryPolicy : Type 0 where
  pub max_restarts : ℕ
  pub backoff : BackoffPolicy

pub data JobRestartPolicy : Type 0 where
  never : JobRestartPolicy
  on_failure : JobRetryPolicy → JobRestartPolicy

pub data ExecutionRestartPolicy : Type 0 where
  service : ServiceRestartPolicy → ExecutionRestartPolicy
  job : JobRestartPolicy → ExecutionRestartPolicy
