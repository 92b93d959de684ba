-- ===== src/Domain/Execution/Examples.antt =====
-- A job that fails once and is stopped, event by event.
use Prim.Native.Nat.{min}
use susm.Common.{
  ℕ, ◌+◌, ◌*◌, ◌/◌, ◌^◌, ◌-◌, not, ◌≡◌, refl, false, none, some, [], ◌∷◌, ok, err, ◌&&◌, arith,
}
use susm.Common.Lists.{contains}
use susm.Domain.Time.{checked_add_duration, from_secs}
use susm.Domain.Ids.{next_attempt}
use susm.Domain.Transition.{with_effects, without_effects}
use susm.Domain.Restart.{
  JobRetryPolicy, JobRestartPolicy, ServiceRestartPolicy, ExecutionRestartPolicy, default_backoff,
  delay_for, next_retry,
}
use susm.Domain.Restart.Backoff
use susm.Domain.Execution.{
  manual, ExecutionOrigin, StopCause, JobCancelCause, StopPlan, ctrl_break, ExecutionState,
  ExecutionEvent, launching, running, restart_backoff, stopping, terminal, graceful, killing,
  completed, process_exited, restart_deadline_reached, stop_deadline_reached,
  restart_policy_changed, launch_attempt, schedule_restart, send_ctrl_break, schedule_stop_deadline,
  terminate_job_object, publish_terminal, policy_kind_mismatch, exited, ExecutionOutcome,
  ExecutionFailure, failed,
}
use susm.Domain.Execution.Attempts.{
  Step, finish_terminal, validate_policy_kind, backoff, policy_permits, finish_attempt,
  same_kind_policy,
}
use susm.Domain.Execution.Events.{transition}
use susm.Domain.Execution.Run.{run}
use susm.Domain.Execution.Publishing.{
  published, entered, run-published, transition-published, transition-terminal,
}
use susm.Domain.Execution.Stopping.{StopsFor, NoStart, run-StopsFor}
use susm.Domain.Execution.Validity.{IsValid}
use susm.Domain.Execution.Errors.{transition-policy_kind_mismatch, policy_in}
use susm.Domain.Execution.Sequence.{launched, count_up, run-launched}
use susm.Domain.Execution.JobBudget.{InBudget, AtMost, run-InBudget}
use susm.Domain.Execution.Retry.{
  finish_attempt-retry_at, policy_permits-eq, finish_attempt-denied, EndsWith, counted, wants,
  covers, budget, succeeded, allowed,
}

abbrev two_retries : JobRetryPolicy
two_retries = record { max_restarts = 2; backoff = default_backoff }

abbrev running_job : ExecutionState
running_job = record {
  id = 1;
  workload_id = 97 ∷ [];
  origin = ExecutionOrigin.job manual;
  source_definition = 5;
  execution_config = 6;
  success_exit_codes = 0 ∷ [];
  restart_policy = ExecutionRestartPolicy.job (JobRestartPolicy.on_failure two_retries);
  last_retry = none;
  phase = running 1;
}

abbrev first_exit : ExecutionEvent
first_exit = process_exited 1 3 (from_secs 2) 1_000

abbrev waiting_job : ExecutionState
waiting_job = record running_job {
  last_retry = some 1;
  phase = restart_backoff 1 (exited 3 (from_secs 2)) 2 1 2_501_000;
}

abbrev after_exit : Step
after_exit = with_effects waiting_job (schedule_restart 2_501_000 ∷ [])

exit_step : transition running_job first_exit ≡ ok after_exit
unfolding transition finish_attempt policy_permits contains next_attempt backoff
    checked_add_duration delay_for
exit_step = refl

abbrev cancel : StopCause
cancel = StopCause.job JobCancelCause.cancel

abbrev gentle : StopPlan
gentle = ctrl_break (from_secs 1)

abbrev stopping_job : ExecutionState
stopping_job = record running_job { phase = stopping 1 (graceful 10_002_000) cancel gentle }

abbrev after_stop : Step
after_stop = with_effects stopping_job (send_ctrl_break ∷ schedule_stop_deadline 10_002_000 ∷ [])

abbrev ended_job : ExecutionState
ended_job = record running_job { phase = terminal (completed 0) }

run_example :
    published (run running_job (first_exit ∷ restart_deadline_reached 2_501_000 ∷ [])).1
    ≡ entered
        (running 1)
        (run running_job (first_exit ∷ restart_deadline_reached 2_501_000 ∷ [])).0.phase
run_example = run-published running_job (first_exit ∷ restart_deadline_reached 2_501_000 ∷ [])

published_example : published after_exit.effects ≡ []
published_example = transition-published running_job first_exit {t = after_exit} exit_step

abbrev unchanged : Step
unchanged = without_effects ended_job

ended_step : transition ended_job (restart_policy_changed ended_job.restart_policy) ≡ ok unchanged
unfolding transition validate_policy_kind
ended_step = refl

terminal_example : (ended_job.phase ≡ terminal (completed 0)) × (unchanged.effects ≡ [])
terminal_example =
    transition-terminal ended_job (restart_policy_changed ended_job.restart_policy) {t = unchanged}
      refl ended_step

StopsFor_example :
    StopsFor cancel
      (run stopping_job
        (stop_deadline_reached 10_002_000 ∷ process_exited 1 0 0 20_000_000 ∷ [])).0.phase
    × NoStart
        (run stopping_job
          (stop_deadline_reached 10_002_000 ∷ process_exited 1 0 0 20_000_000 ∷ [])).1
StopsFor_example =
    run-StopsFor stopping_job
      (stop_deadline_reached 10_002_000 ∷ process_exited 1 0 0 20_000_000 ∷ []) cancel refl

running_job-IsValid : IsValid running_job
running_job-IsValid = record {
  kind_fits = refl;
  retry_fits = tt;
  phase_fits = (omega arith, omega arith);
}

launched_example :
    (k : ℕ) × (launched (run running_job (first_exit ∷ restart_deadline_reached 2_501_000 ∷ [])).1
      ≡ count_up 2 k)
launched_example =
    run-launched running_job (first_exit ∷ restart_deadline_reached 2_501_000 ∷ []) 1 refl

InBudget_example :
    InBudget two_retries (run running_job (first_exit ∷ restart_deadline_reached 2_501_000 ∷ [])).0
    × AtMost 3 (run running_job (first_exit ∷ restart_deadline_reached 2_501_000 ∷ [])).1
InBudget_example =
    run-InBudget two_retries running_job (first_exit ∷ restart_deadline_reached 2_501_000 ∷ [])
      (record { job = refl; policy = refl; phase = (refl, omega arith) }) (refl, (refl, tt))

abbrev after_restart : Step
after_restart = with_effects (record waiting_job { phase = launching 2 }) (launch_attempt 2 ∷ [])

restart_step : transition waiting_job (restart_deadline_reached 2_501_000) ≡ ok after_restart
unfolding transition
restart_step = refl

abbrev after_deadline : Step
after_deadline =
    with_effects (record stopping_job { phase = stopping 1 killing cancel gentle })
      (terminate_job_object ∷ [])

deadline_step : transition stopping_job (stop_deadline_reached 10_002_000) ≡ ok after_deadline
unfolding transition
deadline_step = refl

abbrev service_never : ExecutionRestartPolicy
service_never = ExecutionRestartPolicy.service ServiceRestartPolicy.never

mismatch_step :
    transition running_job (restart_policy_changed service_never) ≡ err policy_kind_mismatch
unfolding transition validate_policy_kind
mismatch_step = refl

kind_mismatch_example :
    (p : ExecutionRestartPolicy) × (policy_in (restart_policy_changed service_never) ≡ some p)
    × (same_kind_policy running_job.origin p ≡ false)
kind_mismatch_example =
    transition-policy_kind_mismatch running_job (restart_policy_changed service_never)
      running_job-IsValid mismatch_step

default_backoff-IsValid : Backoff.IsValid default_backoff
default_backoff-IsValid = record {
  initial_pos = omega arith;
  multiplier_pos = omega arith;
  ordered = omega arith;
  in_range = omega arith;
}

backoff_step : backoff running_job ≡ ok default_backoff
unfolding backoff
backoff_step = refl

finish_step : finish_attempt running_job 1 (exited 3 (from_secs 2)) 1_000 ≡ ok after_exit
unfolding finish_attempt policy_permits contains next_attempt backoff checked_add_duration delay_for
finish_step = refl

retry_at_example :
    (2 ≡ 1 + 1)
    × (1 ≡ counted running_job.origin running_job.restart_policy (exited 3 (from_secs 2)) 0 + 1)
    × (2_501_000
        ≡ 1_000
          + (min
                (default_backoff.initial * default_backoff.multiplier ^ (1 - 1))
                default_backoff.maximum
              + 99)
            / 100)
    × (after_exit.effects ≡ schedule_restart 2_501_000 ∷ [])
retry_at_example =
    finish_attempt-retry_at running_job 1 (exited 3 (from_secs 2)) 1_000 {t = after_exit}
      {b = default_backoff} {pa = 1} {pe = exited 3 (from_secs 2)} {n = 2} {r = 1} {d = 2_501_000}
      default_backoff-IsValid backoff_step finish_step refl

permits_example :
    policy_permits running_job (exited 3 0) 3
    ≡ ok (
        wants running_job.restart_policy (not (succeeded (0 ∷ []) (exited 3 0)))
        && covers (budget running_job.restart_policy) 3)
permits_example = policy_permits-eq running_job (exited 3 0) 3 refl

-- The job with its retries used up.
abbrev spent_job : ExecutionState
spent_job = record running_job { last_retry = some 2; phase = running 3 }

abbrev failure : ExecutionOutcome
failure = failed (ExecutionFailure.attempt 3 (exited 3 0))

abbrev after_failure : Step
after_failure =
    with_effects (record spent_job { phase = terminal failure }) (publish_terminal failure ∷ [])

failure_step : finish_attempt spent_job 3 (exited 3 0) 1_000 ≡ ok after_failure
unfolding finish_attempt finish_terminal policy_permits contains next_retry
failure_step = refl

denied_step : allowed spent_job (exited 3 0) ≡ false
unfolding contains
denied_step = refl

denied_example :
    (o : ExecutionOutcome) × EndsWith (0 ∷ []) 3 (exited 3 0) o
    × (after_failure.state.phase ≡ terminal o)
    × (after_failure.effects ≡ publish_terminal o ∷ [])
denied_example =
    finish_attempt-denied spent_job 3 (exited 3 0) 1_000 {t = after_failure} denied_step
      failure_step
