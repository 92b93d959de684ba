-- ===== src/Domain/Execution/Validity.antt =====
-- What holds of an execution's state between two events.
use susm.Common.{
  ℕ, ◌+◌, ◌<◌, Bool, true, false, Option, none, some, ◌∷◌, [], List, ◌≡◌, refl, arith, ok,
  Result-cases, inl, inr, u32_limit, u64_limit,
}
use susm.Domain.Time.{BootInstant, checked_add_duration}
use susm.Domain.Ids.{AttemptNumber, next_attempt}
use susm.Domain.Restart.{RetryOrdinal, next_retry}
use susm.Domain.Execution.{
  ExecutionOrigin, service_intent, AttemptEnd, StopPlan, StopPhase, kill, awaiting_launch, graceful,
  killing, ExecutionOutcome, outcome_unknown, stopped, cancelled, ExecutionPhase, launching,
  running, restart_backoff, stopping, terminal, ExecutionState, ExecutionEvent, launch_succeeded,
  process_exited, stop_requested, restart_deadline_reached, stop_deadline_reached,
  restart_policy_changed, success_exit_codes_changed,
}
use susm.Domain.Execution.Attempts.{
  Step, finish_attempt, finish_terminal, finish_stop, validate_stop_cause, validate_policy_kind,
  same_kind_cause, same_kind_policy, stop_deadline,
}
use susm.Domain.Execution.Events.{transition}
use susm.Domain.Execution.Run.{run, apply}

-- An attempt or a retry: a `NonZeroU32`.
abbrev pub IsNumber : ℕ → Type 0
IsNumber n = (0 < n) × (n < u32_limit)

abbrev pub StopPhaseFits : StopPlan → StopPhase → Type 0
StopPhaseFits plan killing = Unit {0}
StopPhaseFits kill _ = ⊥
StopPhaseFits plan (awaiting_launch deadline) = deadline < u64_limit
StopPhaseFits plan (graceful deadline) = deadline < u64_limit

-- Services are stopped, jobs are cancelled, and only a job's outcome is left unknown.
abbrev pub outcome_fits : ExecutionOrigin → ExecutionOutcome → Bool
outcome_fits (service_intent _) (cancelled _ _) = false
outcome_fits (service_intent _) (outcome_unknown _) = false
outcome_fits (ExecutionOrigin.job _) (stopped _ _) = false
outcome_fits _ _ = true

abbrev pub PhaseFits : ExecutionState → ExecutionPhase → Type 0
PhaseFits s (launching attempt) = IsNumber attempt
PhaseFits s (running attempt) = IsNumber attempt
PhaseFits s (restart_backoff previous end next retry retry_at) =
    IsNumber previous
    × (next ≡ previous + 1)
    × IsNumber next
    × (s.last_retry ≡ some retry)
    × (retry_at < u64_limit)
PhaseFits s (stopping attempt phase cause plan) =
    IsNumber attempt × (same_kind_cause s.origin cause ≡ true) × StopPhaseFits plan phase
PhaseFits s (terminal outcome) = outcome_fits s.origin outcome ≡ true

abbrev pub RetryFits : Option RetryOrdinal → Type 0
RetryFits none = Unit {0}
RetryFits (some retry) = IsNumber retry

pub record IsValid (s : ExecutionState) : Type 0 where
  pub kind_fits : same_kind_policy s.origin s.restart_policy ≡ true
  pub retry_fits : RetryFits s.last_retry
  pub phase_fits : PhaseFits s s.phase

finish_attempt-IsValid :
    (s : ExecutionState) (a : AttemptNumber) (e : AttemptEnd) (at : BootInstant) {t : Step}
    → same_kind_policy s.origin s.restart_policy ≡ true
    → RetryFits s.last_retry
    → IsNumber a
    → finish_attempt s a e at ≡ ok t
    → IsValid t.state
unfolding finish_attempt finish_terminal next_retry next_attempt checked_add_duration
finish_attempt-IsValid s a e at {t} k r n h = record {
  kind_fits = ground arith;
  retry_fits = ground arith;
  phase_fits = ground arith;
}

lost-IsValid :
    (p : ExecutionPhase) (s : ExecutionState) (at : BootInstant) {t : Step}
    → s.phase ≡ p
    → IsValid s
    → transition s (ExecutionEvent.supervisor_lost at) ≡ ok t
    → IsValid t.state
unfolding transition finish_stop
lost-IsValid (launching a) s at {t} e v h =
    ground (arith, finish_attempt-IsValid s a AttemptEnd.supervisor_lost at {t = t})
lost-IsValid (running a) s at {t} e v h =
    ground (arith, finish_attempt-IsValid s a AttemptEnd.supervisor_lost at {t = t})
lost-IsValid p s at e v h = ground arith

pub transition-IsValid :
    (s : ExecutionState) (e : ExecutionEvent) {t : Step}
    → IsValid s
    → transition s e ≡ ok t
    → IsValid t.state
unfolding transition finish_stop finish_terminal stop_deadline validate_stop_cause
    validate_policy_kind checked_add_duration
transition-IsValid s (launch_succeeded a at) v h = ground arith
transition-IsValid s (ExecutionEvent.launch_failed a f at) {t} v h =
    ground (arith, finish_attempt-IsValid s a (AttemptEnd.launch_failed f) at {t = t})
transition-IsValid s (process_exited a c d at) {t} v h =
    ground (arith, finish_attempt-IsValid s a (AttemptEnd.exited c d) at {t = t})
transition-IsValid s (stop_requested c p at) v h = ground arith
transition-IsValid s (restart_deadline_reached d) v h = ground arith
transition-IsValid s (stop_deadline_reached d) v h = ground arith
transition-IsValid s (restart_policy_changed p) v h = ground arith
transition-IsValid s (success_exit_codes_changed cs) v h = ground arith
transition-IsValid s (ExecutionEvent.supervisor_lost at) {t} v h =
    lost-IsValid s.phase s at {t = t} refl v h

apply-IsValid : (s : ExecutionState) (e : ExecutionEvent) → IsValid s → IsValid (apply s e).state
unfolding apply
apply-IsValid s e v = elim (Result-cases (transition s e)) [
  | inl (t, h) ↦ rw h (transition-IsValid s e {t = t} v h)
  | inr (x, h) ↦ rw h v
]

pub run-IsValid : (s : ExecutionState) (es : List ExecutionEvent) → IsValid s → IsValid (run s es).0
unfolding run
run-IsValid s [] v = v
run-IsValid s (e ∷ es) v = run-IsValid (apply s e).state es (apply-IsValid s e v)
