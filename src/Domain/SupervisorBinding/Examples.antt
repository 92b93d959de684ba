-- ===== src/Domain/SupervisorBinding/Examples.antt =====
-- A supervisor that fails, and is launched again.
use susm.Common.{◌+◌, ◌≤◌, ◌<◌, ◌≡◌, refl, ◌⊎◌, none, some, List, [], ◌∷◌, ok, arith}
use susm.Domain.Time.{BootInstant, checked_add_duration}
use susm.Domain.Ids.{next_incarnation}
use susm.Domain.Restart.{delay_for, retry_ordinal}
use susm.Domain.Transition.{with_effects}
use susm.Domain.SupervisorBinding.{
  SupervisorProcessIdentity, default_launch_policy, SupervisorBinding, attached, restart_backoff,
  SupervisorBindingEvent, supervisor_exited, retry_deadline_reached, launch_failed,
  arm_retry_deadline, report_supervisor_unavailable, next_process, after_failure, failure_ordinal,
  permits_retry_after,
}
use susm.Domain.SupervisorBinding.Events.{Step, transition, process_failed}
use susm.Domain.SupervisorBinding.Run.{run}
use susm.Domain.SupervisorBinding.Failures.{process_of, failures_of, StepInBudget, run-StepInBudget}
use susm.Domain.SupervisorBinding.Launches.{
  launches, launches_left, run-launches, accepted_process, process_failed-gave_up,
}

abbrev first : SupervisorProcessIdentity
first = record { supervisor_id = 7; incarnation = 1 }

abbrev binding : SupervisorBinding
binding = attached first 0 5

abbrev failing : List SupervisorBindingEvent
failing =
    supervisor_exited first 1_000
    ∷ retry_deadline_reached (record first { incarnation = 2 }) 1_001_000
    ∷ launch_failed (record first { incarnation = 2 }) 2_000_000
    ∷ []

binding-InBudget : StepInBudget 7 1 default_launch_policy (some binding)
binding-InBudget = (refl, omega arith, omega arith)

StepInBudget_example :
    StepInBudget 7 1 default_launch_policy (run (some binding) failing 9 default_launch_policy).0
StepInBudget_example =
    run-StepInBudget (some binding) failing 9 7 1 default_launch_policy binding-InBudget

launches_example :
    launches (run (some binding) failing 9 default_launch_policy).1
      + launches_left default_launch_policy (run (some binding) failing 9 default_launch_policy).0
    ≤ launches_left default_launch_policy (some binding)
launches_example = run-launches (some binding) failing 9 7 1 default_launch_policy binding-InBudget

abbrev planned : Step
planned =
    with_effects (some (restart_backoff (record first { incarnation = 2 }) 1 1_001_000))
      (arm_retry_deadline 1_001_000 ∷ [])

failed_step : process_failed binding first 1_000 default_launch_policy ≡ ok planned
unfolding process_failed after_failure permits_retry_after next_process next_incarnation
    failure_ordinal retry_ordinal checked_add_duration delay_for
failed_step = refl

exit_step : transition binding (supervisor_exited first 1_000) 9 default_launch_policy ≡ ok planned
unfolding transition after_failure permits_retry_after next_process next_incarnation failure_ordinal
    retry_ordinal checked_add_duration delay_for
exit_step = refl

process_example : first ≡ process_of binding
process_example =
    accepted_process binding (supervisor_exited first 1_000) 9 default_launch_policy {p = first}
      {t = planned} refl exit_step

gave_up_example :
    ((8 ≤ failures_of binding + 1)
      × (planned.state ≡ none)
      × (planned.effects ≡ report_supervisor_unavailable ∷ []))
    ⊎ ((d : BootInstant) × (failures_of binding + 1 < 8)
        × (checked_add_duration 1_000
              (delay_for default_launch_policy.backoff (failures_of binding + 1))
            ≡ some d)
        × (planned.state
            ≡ some (
                restart_backoff (record first { incarnation = 1 + 1 }) (failures_of binding + 1) d))
        × (planned.effects ≡ arm_retry_deadline d ∷ []))
gave_up_example =
    process_failed-gave_up binding first 1_000 default_launch_policy {t = planned} failed_step
