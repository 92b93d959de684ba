-- ===== src/Domain/Execution/Retry.antt =====
-- The retry that follows a failed attempt, and when it is due.
use susm.Common.{
  ℕ, ◌+◌, ◌*◌, ◌/◌, ◌-◌, ◌^◌, Bool, true, false, Option, none, some, ◌∷◌, [], List, ◌≡◌, arith, ok,
  leb, if◌then◌else◌, not, ◌&&◌, ◌==◌, ◌⊎◌, inl, inr, refl, Bool-cases,
}
use susm.Common.Lists.{contains}
use susm.Domain.Time.{BootInstant, checked_add_duration, checked_add_duration-eq}
use susm.Domain.Ids.{AttemptNumber, next_attempt}
use susm.Domain.Restart.{
  BackoffPolicy, RetryOrdinal, next_retry, ExecutionRestartPolicy, JobRestartPolicy,
  ServiceRestartPolicy, delay_for, ServiceRetryLimit, finite, unlimited,
}
use susm.Domain.Execution.{
  ExitCode, RetryDeadline, ExecutionOutcome, completed, ExecutionFailure, launch_failed, killed,
  supervisor_lost, ExecutionOrigin, service_intent, AttemptEnd, restart_backoff, terminal,
  ExecutionState, schedule_restart, publish_terminal, exited,
}
use susm.Domain.Execution.Attempts.{
  Step, backoff, finish_attempt, finish_terminal, policy_permits, same_kind_policy, end_outcome,
}
use Prim.Native.Nat.{min}
use susm.Domain.Restart.Backoff.{delay_for-eq}
use susm.Domain.Restart.Backoff
use susm.Domain.Execution.JobBudget.{used}

-- The retries that count when an attempt has ended: none, if a service ran for `reset_after`.
abbrev pub counted : ExecutionOrigin → ExecutionRestartPolicy → AttemptEnd → ℕ → ℕ
counted (service_intent _) (ExecutionRestartPolicy.service (ServiceRestartPolicy.on_failure p))
      (exited _ ran_for) n =
    if leb p.reset_after ran_for then 0 else n
counted (service_intent _) (ExecutionRestartPolicy.service (ServiceRestartPolicy.always p))
      (exited _ ran_for) n =
    if leb p.reset_after ran_for then 0 else n
counted _ _ _ n = n

finish_attempt-backoff :
    (s : ExecutionState) (a : AttemptNumber) (e : AttemptEnd) (at : BootInstant) {t : Step}
    {b : BackoffPolicy} {pa : AttemptNumber} {pe : AttemptEnd} {n : AttemptNumber}
    {r : RetryOrdinal} {d : RetryDeadline}
    → backoff s ≡ ok b
    → finish_attempt s a e at ≡ ok t
    → t.state.phase ≡ restart_backoff pa pe n r d
    → (pa ≡ a)
      × (pe ≡ e)
      × (n ≡ a + 1)
      × (r ≡ counted s.origin s.restart_policy e (used s.last_retry) + 1)
      × (checked_add_duration at (delay_for b r) ≡ some d)
      × (t.effects ≡ schedule_restart d ∷ [])
unfolding finish_attempt finish_terminal next_retry next_attempt backoff
finish_attempt-backoff s a e at g h p =
    (ground arith, ground arith, ground arith, ground arith, ground arith, ground arith)

-- When an attempt's end leads to a retry under a valid backoff policy, the retry's number is one
-- more than the retries that count (none after a service's long run), the next attempt is the
-- following one, and the deadline lies min(initial * multiplier ^ (retry - 1), maximum) after
-- `at`, rounded up to 100 ns; its timer is the only effect.
pub finish_attempt-retry_at :
    (s : ExecutionState) (a : AttemptNumber) (e : AttemptEnd) (at : BootInstant) {t : Step}
    {b : BackoffPolicy} {pa : AttemptNumber} {pe : AttemptEnd} {n : AttemptNumber}
    {r : RetryOrdinal} {d : RetryDeadline}
    → Backoff.IsValid b
    → backoff s ≡ ok b
    → finish_attempt s a e at ≡ ok t
    → t.state.phase ≡ restart_backoff pa pe n r d
    → (n ≡ a + 1)
      × (r ≡ counted s.origin s.restart_policy e (used s.last_retry) + 1)
      × (d ≡ at + (min (b.initial * b.multiplier ^ (r - 1)) b.maximum + 99) / 100)
      × (t.effects ≡ schedule_restart d ∷ [])
finish_attempt-retry_at s a e at {t} {b} {pa} {pe} {n} {r} {d} v g h p =
    let f =
      finish_attempt-backoff s a e at {t = t} {b = b} {pa = pa} {pe = pe} {n = n} {r = r} {d = d} g
        h p in
    (f.2, f.3, due (delay_for b r) _ (f.4) (delay_for-eq b r v), f.5)
  where
    due :
        (delay x : ℕ) → checked_add_duration at delay ≡ some d → delay ≡ x → d ≡ at + (x + 99) / 100
    due delay x h e = ground (arith, checked_add_duration-eq at delay)

-- Whether the policy wants another try after this end: always, or only after a failure.
abbrev pub wants : ExecutionRestartPolicy → Bool → Bool
wants (ExecutionRestartPolicy.service ServiceRestartPolicy.never) failed = false
wants (ExecutionRestartPolicy.service (ServiceRestartPolicy.on_failure _)) failed = failed
wants (ExecutionRestartPolicy.service (ServiceRestartPolicy.always _)) failed = true
wants (ExecutionRestartPolicy.job JobRestartPolicy.never) failed = false
wants (ExecutionRestartPolicy.job (JobRestartPolicy.on_failure _)) failed = failed

abbrev pub limit_of : ServiceRetryLimit → Option ℕ
limit_of (finite m) = some m
limit_of unlimited = none

-- The largest retry number, none for no limit.
abbrev pub budget : ExecutionRestartPolicy → Option ℕ
budget (ExecutionRestartPolicy.service ServiceRestartPolicy.never) = some 0
budget (ExecutionRestartPolicy.service (ServiceRestartPolicy.on_failure p)) = limit_of p.limit
budget (ExecutionRestartPolicy.service (ServiceRestartPolicy.always p)) = limit_of p.limit
budget (ExecutionRestartPolicy.job JobRestartPolicy.never) = some 0
budget (ExecutionRestartPolicy.job (JobRestartPolicy.on_failure p)) = some p.max_restarts

abbrev pub covers : Option ℕ → ℕ → Bool
covers none n = true
covers (some m) n = leb n m

abbrev pub succeeded : List ExitCode → AttemptEnd → Bool
succeeded codes (exited code _) = contains codes code
succeeded codes _ = false

-- For a policy of the execution's own kind, `policy_permits` answers without an error, and
-- permits a retry exactly if the policy wants one after this end and its budget covers the
-- retry's number.
pub policy_permits-eq :
    (s : ExecutionState) (e : AttemptEnd) (r : RetryOrdinal)
    → same_kind_policy s.origin s.restart_policy ≡ true
    → policy_permits s e r
      ≡ ok (
          wants s.restart_policy (not (succeeded s.success_exit_codes e))
          && covers (budget s.restart_policy) r)
unfolding policy_permits
policy_permits-eq s e r k = ground arith

-- The decision at an attempt's end: the policy wants a retry, and its budget covers the next one.
abbrev pub allowed : ExecutionState → AttemptEnd → Bool
allowed s e =
    wants s.restart_policy (not (succeeded s.success_exit_codes e))
    && covers (budget s.restart_policy)
        (counted s.origin s.restart_policy e (used s.last_retry) + 1)

-- `code` is one of the codes.
abbrev pub OneOf : ExitCode → List ExitCode → Type 0
OneOf code [] = ⊥
OneOf code (c ∷ cs) = (c ≡ code) ⊎ OneOf code cs

contains_sound :
    (codes : List ExitCode) (code : ExitCode) → contains codes code ≡ true → OneOf code codes
unfolding contains
contains_sound [] code h = ground arith
contains_sound (c ∷ cs) code h = elim (Bool-cases (c == code)) [
  | inl e ↦ inl (ground arith)
  | inr e ↦ inr (contains_sound cs code (ground arith))
]

contains_complete :
    (codes : List ExitCode) (code : ExitCode) → OneOf code codes → contains codes code ≡ true
unfolding contains
contains_complete [] code h = elim h [ ]
contains_complete (c ∷ cs) code (inl h) = ground arith
contains_complete (c ∷ cs) code (inr h) = rw (contains_complete cs code h) (ground arith)

-- How the execution ends with its last attempt: completed with its exit code if that is one of the
-- success codes, failed with the attempt and its end otherwise.
abbrev pub EndsWith : List ExitCode → AttemptNumber → AttemptEnd → ExecutionOutcome → Type 0
EndsWith codes a (exited code ran_for) o =
    (OneOf code codes × (o ≡ completed code))
    ⊎ ((¬ OneOf code codes)
        × (o ≡ ExecutionOutcome.failed (ExecutionFailure.attempt a (exited code ran_for))))
EndsWith codes a e o = o ≡ ExecutionOutcome.failed (ExecutionFailure.attempt a e)

end_outcome-EndsWith :
    (codes : List ExitCode) (a : AttemptNumber) (e : AttemptEnd)
    → EndsWith codes a e (end_outcome codes a e)
unfolding end_outcome
end_outcome-EndsWith codes a (exited code ran_for) = elim (Bool-cases (contains codes code)) [
  | inl h ↦ inl (contains_sound codes code h, rw (h) refl)
  | inr h ↦ inr (λ m. cc (contains_complete codes code m, h), rw (h) refl)
]
end_outcome-EndsWith codes a (launch_failed failure) = refl
end_outcome-EndsWith codes a killed = refl
end_outcome-EndsWith codes a supervisor_lost = refl

-- When the policy does not want a retry after an attempt's end, or its budget does not cover the next
-- one, an accepted end of the attempt ends the execution: it is terminal with an outcome that is
-- published as the only effect, which is completed with the exit code after an exit with a success
-- code, and failed with this attempt and its end otherwise.
pub finish_attempt-denied :
    (s : ExecutionState) (a : AttemptNumber) (e : AttemptEnd) (at : BootInstant) {t : Step}
    → allowed s e ≡ false
    → finish_attempt s a e at ≡ ok t
    → (o : ExecutionOutcome) × EndsWith s.success_exit_codes a e o
      × (t.state.phase ≡ terminal o)
      × (t.effects ≡ publish_terminal o ∷ [])
unfolding finish_attempt finish_terminal policy_permits next_retry
finish_attempt-denied s a e at w h = (
  end_outcome s.success_exit_codes a e,
  end_outcome-EndsWith s.success_exit_codes a e,
  ground arith,
  ground arith,
)
