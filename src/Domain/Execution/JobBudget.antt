-- ===== src/Domain/Execution/JobBudget.antt =====
-- The retry budget of a job.
use susm.Common.{
  ℕ, suc, ◌≤◌, Bool, true, false, Option, none, some, ◌∷◌, ◌++◌, [], List, All, ◌≡◌, arith, ok,
  Result-cases, inl, inr,
}
use susm.Domain.Time.{BootInstant}
use susm.Domain.Ids.{AttemptNumber, next_attempt}
use susm.Domain.Restart.{
  RetryOrdinal, next_retry, ExecutionRestartPolicy, JobRestartPolicy, JobRetryPolicy,
}
use susm.Domain.Execution.{
  ExecutionOrigin, service_intent, AttemptEnd, ExecutionPhase, launching, running, restart_backoff,
  ExecutionState, ExecutionEvent, launch_succeeded, process_exited, stop_requested,
  restart_deadline_reached, stop_deadline_reached, restart_policy_changed,
  success_exit_codes_changed, ExecutionEffect, launch_attempt,
}
use susm.Domain.Execution.Attempts.{
  Step, finish_attempt, finish_terminal, finish_stop, policy_permits,
}
use susm.Domain.Execution.Events.{transition}
use susm.Domain.Execution.Run.{run, apply}
use susm.Domain.Execution.Sequence.{launched}

abbrev pub used : Option RetryOrdinal → ℕ
used none = 0
used (some retry) = retry

abbrev pub is_job : ExecutionOrigin → Bool
is_job (ExecutionOrigin.job _) = true
is_job (service_intent _) = false

-- The next or current attempt comes after the retries used, which the budget covers.
abbrev pub PhaseBudget : ℕ → Option RetryOrdinal → ExecutionPhase → Type 0
PhaseBudget m last (launching a) = (a ≡ suc (used last)) × (used last ≤ m)
PhaseBudget m last (running a) = (a ≡ suc (used last)) × (used last ≤ m)
PhaseBudget m last (restart_backoff _ _ next _ _) = (next ≡ suc (used last)) × (used last ≤ m)
PhaseBudget m last _ = Unit {0}

pub record InBudget (p : JobRetryPolicy) (s : ExecutionState) : Type 0 where
  pub job : is_job s.origin ≡ true
  pub policy : s.restart_policy ≡ ExecutionRestartPolicy.job (JobRestartPolicy.on_failure p)
  pub phase : PhaseBudget p.max_restarts s.last_retry s.phase

abbrev pub AtMost : ℕ → List ExecutionEffect → Type 0
AtMost m es = All (λ n. n ≤ m) (launched es)

abbrev pub keeps_policy : ExecutionEvent → Bool
keeps_policy (restart_policy_changed _) = false
keeps_policy _ = true

finish_attempt-InBudget :
    (p : JobRetryPolicy) (s : ExecutionState) (a : AttemptNumber) (e : AttemptEnd)
    (at : BootInstant) {t : Step}
    → is_job s.origin ≡ true
    → s.restart_policy ≡ ExecutionRestartPolicy.job (JobRestartPolicy.on_failure p)
    → a ≡ suc (used s.last_retry)
    → finish_attempt s a e at ≡ ok t
    → InBudget p t.state × (launched t.effects ≡ [])
unfolding finish_attempt finish_terminal policy_permits next_retry next_attempt
finish_attempt-InBudget p s a e at {t} j k n h =
    (record { job = ground arith; policy = ground arith; phase = ground arith }, ground arith)

step-InBudget :
    (p : JobRetryPolicy) (s : ExecutionState) (e : ExecutionEvent) {t : Step}
    → InBudget p s
    → keeps_policy e ≡ true
    → transition s e ≡ ok t
    → InBudget p t.state × AtMost (suc p.max_restarts) t.effects
unfolding transition finish_stop finish_terminal
step-InBudget p s (launch_succeeded a at) v k h = ground arith
step-InBudget p s (ExecutionEvent.launch_failed a f at) {t} v k h =
    ground (arith, finish_attempt-InBudget p s a (AttemptEnd.launch_failed f) at {t = t})
step-InBudget p s (process_exited a c d at) {t} v k h =
    ground (arith, finish_attempt-InBudget p s a (AttemptEnd.exited c d) at {t = t})
step-InBudget p s (stop_requested c q at) v k h = ground arith
step-InBudget p s (restart_deadline_reached d) v k h = ground arith
step-InBudget p s (stop_deadline_reached d) v k h = ground arith
step-InBudget p s (restart_policy_changed q) v k h = cc
step-InBudget p s (success_exit_codes_changed cs) v k h = ground arith
step-InBudget p s (ExecutionEvent.supervisor_lost at) v k h = ground arith

launched_all-append :
    (m : ℕ) (xs ys : List ExecutionEffect) → AtMost m xs → AtMost m ys → AtMost m (xs ++ ys)
launched_all-append m [] ys h k = k
launched_all-append m (launch_attempt n ∷ xs) ys h k = (h.0, launched_all-append m xs ys h.1 k)
launched_all-append m (_ ∷ xs) ys h k = launched_all-append m xs ys h k

apply-InBudget :
    (p : JobRetryPolicy) (s : ExecutionState) (e : ExecutionEvent)
    → InBudget p s
    → keeps_policy e ≡ true
    → InBudget p (apply s e).state × AtMost (suc p.max_restarts) (apply s e).effects
unfolding apply
apply-InBudget p s e v k = elim (Result-cases (transition s e)) [
  | inl (t, h) ↦ rw h (step-InBudget p s e {t = t} v k h)
  | inr (x, h) ↦ rw h (v, tt)
]

-- A job that starts within the budget of its `on_failure` policy, and gets no other policy, stays
-- within it and never launches an attempt beyond `max_restarts` + 1, whatever else happens to it:
-- no event gives it its retries back.
pub run-InBudget :
    (p : JobRetryPolicy) (s : ExecutionState) (es : List ExecutionEvent)
    → InBudget p s
    → All (λ e. keeps_policy e ≡ true) es
    → InBudget p (run s es).0 × AtMost (suc p.max_restarts) (run s es).1
unfolding run
run-InBudget p s [] v k = (v, tt)
run-InBudget p s (e ∷ es) v k =
    let (w, launched_now) = apply-InBudget p s e v k.0 in
    let rest = run-InBudget p (apply s e).state es w k.1 in
    (rest.0, launched_all-append (suc p.max_restarts) (apply s e).effects _ launched_now rest.1)
