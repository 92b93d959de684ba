-- ===== src/Domain/Execution/Attempts.antt =====
-- crates/domain/src/execution.rs: how an attempt's end is judged. `finish_attempt` either schedules
-- the next attempt or ends the execution.
use susm.Common.{
  Bool, true, false, ◌&&◌, not, Option, none, some, ◌∷◌, [], List, contains, if◌then◌else◌, leb,
  Result, ok, err, ok_or, ◌>>=◌,
}
use susm.Domain.Time.{Duration, BootInstant, checked_add_duration}
use susm.Domain.Ids.{AttemptNumber, next_attempt}
use susm.Domain.Restart.{
  BackoffPolicy, ServiceRetryLimit, finite, unlimited, ServiceRestartPolicy, JobRestartPolicy,
  ExecutionRestartPolicy, RetryOrdinal, first_retry, next_retry, delay_for,
}
use susm.Domain.Transition.{Transition, with_effects}
use susm.Domain.Execution.{
  ExitCode, StopDeadline, ExecutionOrigin, service_intent, StopCause, AttemptEnd, exited,
  ExecutionFailure, ExecutionOutcome, completed, failed, stopped, cancelled, restart_backoff,
  terminal, ExecutionState, ExecutionEffect, schedule_restart, publish_terminal,
  ExecutionTransitionError, unexpected_event, attempt_overflow, retry_overflow, deadline_overflow,
  policy_kind_mismatch,
}

abbrev pub Step : Type 0
Step = Transition ExecutionState ExecutionEffect

-- `ExecutionState::terminal`.
unfoldable pub finish : ExecutionState → ExecutionOutcome → Step
finish s outcome =
    with_effects (record s { phase = terminal outcome }) (publish_terminal outcome ∷ [])

-- The outcome that a stop's cause leads to.
unfoldable pub stop_outcome : StopCause → Bool → ExecutionOutcome
stop_outcome (StopCause.service cause) forced = stopped cause forced
stop_outcome (StopCause.job cause) forced = cancelled cause forced

unfoldable pub finish_stop : ExecutionState → StopCause → Bool → Step
unfolding finish stop_outcome
finish_stop s cause forced = finish s (stop_outcome cause forced)

-- The outcome of an attempt that is not retried.
unfoldable pub end_outcome : List ExitCode → AttemptNumber → AttemptEnd → ExecutionOutcome
end_outcome codes attempt (exited exit_code ran_for) =
    if contains codes exit_code
    then completed exit_code
    else failed (ExecutionFailure.attempt attempt (exited exit_code ran_for))
end_outcome codes attempt end = failed (ExecutionFailure.attempt attempt end)

unfoldable pub finish_terminal : ExecutionState → AttemptNumber → AttemptEnd → Step
unfolding finish end_outcome
finish_terminal s attempt end = finish s (end_outcome s.success_exit_codes attempt end)

unfoldable pub stop_deadline : BootInstant → Duration → Result StopDeadline ExecutionTransitionError
stop_deadline at timeout = ok_or (checked_add_duration at timeout) deadline_overflow

abbrev pub same_kind_cause : ExecutionOrigin → StopCause → Bool
same_kind_cause (service_intent _) (StopCause.service _) = true
same_kind_cause (ExecutionOrigin.job _) (StopCause.job _) = true
same_kind_cause _ _ = false

unfoldable pub validate_stop_cause :
    ExecutionState → StopCause → Result (Unit {0}) ExecutionTransitionError
validate_stop_cause s cause = if same_kind_cause s.origin cause then ok tt else err unexpected_event

abbrev pub same_kind_policy : ExecutionOrigin → ExecutionRestartPolicy → Bool
same_kind_policy (service_intent _) (ExecutionRestartPolicy.service _) = true
same_kind_policy (ExecutionOrigin.job _) (ExecutionRestartPolicy.job _) = true
same_kind_policy _ _ = false

unfoldable pub validate_policy_kind :
    ExecutionState → ExecutionRestartPolicy → Result (Unit {0}) ExecutionTransitionError
validate_policy_kind s policy =
    if same_kind_policy s.origin policy then ok tt else err policy_kind_mismatch

backoff_of :
    ExecutionOrigin → ExecutionRestartPolicy → Result BackoffPolicy ExecutionTransitionError
backoff_of (service_intent _)
      (ExecutionRestartPolicy.service (ServiceRestartPolicy.on_failure policy)) =
    ok policy.backoff
backoff_of (service_intent _)
      (ExecutionRestartPolicy.service (ServiceRestartPolicy.always policy)) =
    ok policy.backoff
backoff_of (ExecutionOrigin.job _)
      (ExecutionRestartPolicy.job (JobRestartPolicy.on_failure policy)) =
    ok policy.backoff
backoff_of _ _ = err policy_kind_mismatch

-- `ExecutionState::backoff`.
unfoldable pub backoff : ExecutionState → Result BackoffPolicy ExecutionTransitionError
unfolding backoff_of
backoff s = backoff_of s.origin s.restart_policy

-- `failed` of `policy_permits`: no successful exit.
unfoldable pub end_failed : ExecutionState → AttemptEnd → Bool
end_failed s (exited exit_code ran_for) = not (contains s.success_exit_codes exit_code)
end_failed s end = true

within_limit : ServiceRetryLimit → RetryOrdinal → Bool
within_limit (finite maximum) retry = leb retry maximum
within_limit unlimited retry = true

permits :
    ExecutionOrigin
    → ExecutionRestartPolicy
    → Bool
    → RetryOrdinal
    → Result Bool ExecutionTransitionError
unfolding within_limit
permits (service_intent _) (ExecutionRestartPolicy.service ServiceRestartPolicy.never) f retry =
    ok false
permits (service_intent _) (ExecutionRestartPolicy.service (ServiceRestartPolicy.on_failure p)) f
      retry =
    if f then ok (within_limit p.limit retry) else ok false
permits (service_intent _) (ExecutionRestartPolicy.service (ServiceRestartPolicy.always p)) f
      retry =
    ok (within_limit p.limit retry)
permits (ExecutionOrigin.job _) (ExecutionRestartPolicy.job JobRestartPolicy.never) f retry =
    ok false
permits (ExecutionOrigin.job _) (ExecutionRestartPolicy.job (JobRestartPolicy.on_failure p)) f
      retry =
    ok (f && leb retry p.max_restarts)
permits _ _ f retry = err policy_kind_mismatch

unfoldable pub policy_permits :
    ExecutionState → AttemptEnd → RetryOrdinal → Result Bool ExecutionTransitionError
unfolding permits end_failed
policy_permits s end retry = permits s.origin s.restart_policy (end_failed s end) retry

-- The `if let` that begins `finish_attempt`: a service ran long enough to forget its retries.
resets : ExecutionOrigin → AttemptEnd → ExecutionRestartPolicy → Bool
resets (service_intent _) (exited _ ran_for)
      (ExecutionRestartPolicy.service (ServiceRestartPolicy.on_failure p)) =
    leb p.reset_after ran_for
resets (service_intent _) (exited _ ran_for)
      (ExecutionRestartPolicy.service (ServiceRestartPolicy.always p)) =
    leb p.reset_after ran_for
resets _ _ _ = false

unfoldable pub reset_retries : ExecutionState → AttemptEnd → ExecutionState
unfolding resets
reset_retries s end =
    if resets s.origin end s.restart_policy then record s { last_retry = none } else s

-- The retry that comes after the last one.
retry_after : Option RetryOrdinal → Result RetryOrdinal ExecutionTransitionError
retry_after (some previous) = ok_or (next_retry previous) retry_overflow
retry_after none = ok first_retry

schedule :
    ExecutionState
    → AttemptNumber
    → AttemptEnd
    → RetryOrdinal
    → BootInstant
    → Result Step ExecutionTransitionError
schedule s attempt end retry at = do
  next ← ok_or (next_attempt attempt) attempt_overflow
  policy ← backoff s
  retry_at ← ok_or (checked_add_duration at (delay_for policy retry)) deadline_overflow
  ok (
      with_effects
        (record s {
          last_retry = some retry;
          phase = restart_backoff attempt end next retry retry_at;
        })
        (schedule_restart retry_at ∷ []))

retry_or_finish :
    ExecutionState → AttemptNumber → AttemptEnd → BootInstant → Result Step ExecutionTransitionError
unfolding retry_after schedule
retry_or_finish s attempt end at = do
  retry ← retry_after s.last_retry
  permitted ← policy_permits s end retry
  if permitted then schedule s attempt end retry at else ok (finish_terminal s attempt end)

unfoldable pub finish_attempt :
    ExecutionState → AttemptNumber → AttemptEnd → BootInstant → Result Step ExecutionTransitionError
unfolding retry_or_finish reset_retries
finish_attempt s attempt end at = retry_or_finish (reset_retries s end) attempt end at
