-- ===== src/Domain/Execution/Stopping.antt =====
-- A stop that has begun cannot be undone.
use susm.Common.{
  ◌+◌, ◌/◌, Bool, true, false, ◌∷◌, [], List, ◌≡◌, inl, inr, arith, ok, All, All-append,
  Result-cases,
}
use susm.Domain.Time.{Duration, BootInstant}
use susm.Domain.Execution.{
  StopCause, StopPlan, ctrl_break, command, kill, StopDeadline, awaiting_launch, graceful, killing,
  ExecutionOutcome, stopped, cancelled, send_ctrl_break, run_stop_command, schedule_stop_deadline,
  terminate_job_object, publish_terminal, ExecutionPhase, launching, running, restart_backoff,
  stopping, terminal, ExecutionState, ExecutionEvent, ExecutionEffect, launch_attempt,
  schedule_restart,
}
use susm.Domain.Execution.Attempts.{Step, finish_stop}
use susm.Domain.Execution.Events.{transition}
use susm.Domain.Execution.Run.{apply, run}

-- The outcome of a stop for `cause`: a service is stopped, a job is cancelled.
abbrev pub EndedFor : StopCause → ExecutionOutcome → Type 0
EndedFor (StopCause.service cause) (stopped c _) = c ≡ cause
EndedFor (StopCause.job cause) (cancelled c _) = c ≡ cause
EndedFor _ _ = ⊥

-- The execution is being stopped for `cause`, or has ended as stopped or cancelled for it.
abbrev pub StopsFor : StopCause → ExecutionPhase → Type 0
StopsFor cause (stopping _ _ c _) = c ≡ cause
StopsFor cause (terminal o) = EndedFor cause o
StopsFor cause _ = ⊥

-- An effect that starts the workload, or plans to.
abbrev pub starts : ExecutionEffect → Bool
starts (launch_attempt _) = true
starts (schedule_restart _) = true
starts _ = false

abbrev pub NoStart : List ExecutionEffect → Type 0
NoStart = All (λ x. starts x ≡ false)

step-StopsFor :
    (s : ExecutionState) (e : ExecutionEvent) (cause : StopCause) {t : Step}
    → StopsFor cause s.phase
    → transition s e ≡ ok t
    → StopsFor cause t.state.phase × NoStart t.effects
unfolding transition finish_stop
step-StopsFor s e cause {t} p h = (ground arith, ground arith)

apply-StopsFor :
    (s : ExecutionState) (e : ExecutionEvent) (cause : StopCause)
    → StopsFor cause s.phase
    → StopsFor cause (apply s e).state.phase × NoStart (apply s e).effects
unfolding apply
apply-StopsFor s e cause p = elim (Result-cases (transition s e)) [
  | inl (t, h) ↦ rw h (step-StopsFor s e cause {t = t} p h)
  | inr (x, h) ↦ rw h (p, tt)
]

-- Once an execution is being stopped, no history brings it back: it stays in `Stopping` with the
-- same cause or ends as stopped or cancelled for it, and no attempt is launched or scheduled.
pub run-StopsFor :
    (s : ExecutionState) (es : List ExecutionEvent) (cause : StopCause)
    → StopsFor cause s.phase
    → StopsFor cause (run s es).0.phase × NoStart (run s es).1
unfolding run
run-StopsFor s [] cause p = (p, tt)
run-StopsFor s (e ∷ es) cause p =
    let (q, none_started) = apply-StopsFor s e cause p in
    let rest = run-StopsFor (apply s e).state es cause q in
    (rest.0, All-append _ (apply s e).effects _ none_started rest.1)

abbrev timeout_of : StopPlan → Duration
timeout_of (ctrl_break timeout) = timeout
timeout_of (command timeout) = timeout
timeout_of kill = 0

abbrev pub is_live : ExecutionPhase → Bool
is_live (launching _) = true
is_live (running _) = true
is_live (restart_backoff _ _ _ _ _) = true
is_live _ = false

-- The outcome of a stop for `cause` that needs no termination of the process.
abbrev pub gentle_outcome : StopCause → ExecutionOutcome
gentle_outcome (StopCause.service cause) = stopped cause false
gentle_outcome (StopCause.job cause) = cancelled cause false

-- A deadline lies this many nanoseconds after `at`, rounded up to 100 ns.
abbrev pub due : BootInstant → Duration → StopDeadline
due at timeout = at + (timeout + 99) / 100

-- The phase and the effects of a stop with this plan that is accepted at `at`.
abbrev pub StopBegins :
    ExecutionPhase
    → StopCause
    → StopPlan
    → BootInstant
    → ExecutionPhase
    → List ExecutionEffect
    → Type 0
StopBegins (launching a) cause kill at p xs =
    (p ≡ stopping a killing cause kill) × (xs ≡ terminate_job_object ∷ [])
StopBegins (launching a) cause (ctrl_break timeout) at p xs =
    (p ≡ stopping a (awaiting_launch (due at timeout)) cause (ctrl_break timeout))
    × (xs ≡ schedule_stop_deadline (due at timeout) ∷ [])
StopBegins (launching a) cause (command timeout) at p xs =
    (p ≡ stopping a (awaiting_launch (due at timeout)) cause (command timeout))
    × (xs ≡ schedule_stop_deadline (due at timeout) ∷ [])
StopBegins (running a) cause kill at p xs =
    (p ≡ stopping a killing cause kill) × (xs ≡ terminate_job_object ∷ [])
StopBegins (running a) cause (ctrl_break timeout) at p xs =
    (p ≡ stopping a (graceful (due at timeout)) cause (ctrl_break timeout))
    × (xs ≡ send_ctrl_break ∷ schedule_stop_deadline (due at timeout) ∷ [])
StopBegins (running a) cause (command timeout) at p xs =
    (p ≡ stopping a (graceful (due at timeout)) cause (command timeout))
    × (xs ≡ run_stop_command ∷ schedule_stop_deadline (due at timeout) ∷ [])
StopBegins (restart_backoff _ _ _ _ _) cause plan at p xs =
    (p ≡ terminal (gentle_outcome cause)) × (xs ≡ publish_terminal (gentle_outcome cause) ∷ [])
StopBegins _ cause plan at p xs = ⊥
