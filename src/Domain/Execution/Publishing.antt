-- ===== src/Domain/Execution/Publishing.antt =====
-- When an execution ends, and how often it says so.
use susm.Common.{◌∷◌, [], List, ◌++◌, ◌≡◌, refl, arith, ok, Result-cases, inl, inr, ap, ◌∙◌}
use susm.Domain.Time.{BootInstant}
use susm.Domain.Ids.{AttemptNumber}
use susm.Domain.Execution.{
  AttemptEnd, ExecutionOutcome, ExecutionPhase, launching, running, terminal, ExecutionState,
  ExecutionEvent, launch_succeeded, process_exited, stop_requested, restart_deadline_reached,
  stop_deadline_reached, restart_policy_changed, success_exit_codes_changed, ExecutionEffect,
  publish_terminal,
}
use susm.Domain.Execution.Attempts.{Step, finish_attempt, finish_terminal, finish_stop}
use susm.Domain.Execution.Events.{transition}
use susm.Domain.Execution.Run.{apply, run}

-- The outcomes among a transition's effects, in order.
abbrev pub published : List ExecutionEffect → List ExecutionOutcome
published [] = []
published (publish_terminal o ∷ es) = o ∷ published es
published (_ ∷ es) = published es

abbrev pub outcome_of : ExecutionPhase → List ExecutionOutcome
outcome_of (terminal o) = o ∷ []
outcome_of _ = []

finish_attempt_announces :
    (s : ExecutionState) (a : AttemptNumber) (e : AttemptEnd) (at : BootInstant) {t : Step}
    → finish_attempt s a e at ≡ ok t
    → published t.effects ≡ outcome_of t.state.phase
unfolding finish_attempt finish_terminal
finish_attempt_announces s a e at h = ground arith

-- What a step from phase `p` to phase `q` has to publish.
abbrev pub entered : ExecutionPhase → ExecutionPhase → List ExecutionOutcome
entered (terminal _) q = []
entered p q = outcome_of q

lost_announces :
    (p : ExecutionPhase) (s : ExecutionState) (at : BootInstant) {t : Step}
    → s.phase ≡ p
    → transition s (ExecutionEvent.supervisor_lost at) ≡ ok t
    → published t.effects ≡ entered p t.state.phase
unfolding transition finish_stop
lost_announces (launching a) s at {t} e h =
    ground (arith, finish_attempt_announces s a AttemptEnd.supervisor_lost at {t = t})
lost_announces (running a) s at {t} e h =
    ground (arith, finish_attempt_announces s a AttemptEnd.supervisor_lost at {t = t})
lost_announces p s at e h = ground arith

-- A transition publishes an outcome exactly if it ends the execution, and then the outcome that it
-- ends with, once.
pub transition-published :
    (s : ExecutionState) (e : ExecutionEvent) {t : Step}
    → transition s e ≡ ok t
    → published t.effects ≡ entered s.phase t.state.phase
unfolding transition finish_stop finish_terminal
transition-published s (launch_succeeded a at) h = ground arith
transition-published s (ExecutionEvent.launch_failed a f at) {t} h =
    ground (arith, finish_attempt_announces s a (AttemptEnd.launch_failed f) at {t = t})
transition-published s (process_exited a c d at) {t} h =
    ground (arith, finish_attempt_announces s a (AttemptEnd.exited c d) at {t = t})
transition-published s (stop_requested c p at) h = ground arith
transition-published s (restart_deadline_reached d) h = ground arith
transition-published s (stop_deadline_reached d) h = ground arith
transition-published s (restart_policy_changed p) h = ground arith
transition-published s (success_exit_codes_changed cs) h = ground arith
transition-published s (ExecutionEvent.supervisor_lost at) {t} h =
    lost_announces s.phase s at {t = t} refl h

-- No event leads out of a terminal phase, changes its outcome or has an effect there.
pub transition-terminal :
    (s : ExecutionState) (e : ExecutionEvent) {o : ExecutionOutcome} {t : Step}
    → s.phase ≡ terminal o
    → transition s e ≡ ok t
    → (t.state.phase ≡ terminal o) × (t.effects ≡ [])
unfolding transition
transition-terminal s e p h = ground arith

published-append :
    (xs ys : List ExecutionEffect) → published (xs ++ ys) ≡ published xs ++ published ys
published-append [] ys = refl
published-append (publish_terminal o ∷ xs) ys = ap (λ l. o ∷ l) (published-append xs ys)
published-append (_ ∷ xs) ys = published-append xs ys

apply-published :
    (s : ExecutionState) (e : ExecutionEvent)
    → published (apply s e).effects ≡ entered s.phase (apply s e).state.phase
unfolding apply
apply-published s e = elim (Result-cases (transition s e)) [
  | inl (t, h) ↦ rw h (transition-published s e {t = t} h)
  | inr (x, h) ↦ rw h (stays s.phase)
]
  where
    stays : (p : ExecutionPhase) → published [] ≡ entered p p
    stays (terminal o) = refl
    stays _ = refl

pub apply-terminal :
    (s : ExecutionState) (e : ExecutionEvent) {o : ExecutionOutcome}
    → s.phase ≡ terminal o
    → (apply s e).state.phase ≡ terminal o
unfolding apply
apply-terminal s e p = elim (Result-cases (transition s e)) [
  | inl (t, h) ↦ rw h (transition-terminal s e {t = t} p h).0
  | inr (x, h) ↦ rw h p
]

pub run-terminal :
    (s : ExecutionState) (es : List ExecutionEvent) {o : ExecutionOutcome}
    → s.phase ≡ terminal o
    → (run s es).0.phase ≡ terminal o
unfolding run
run-terminal s [] p = p
run-terminal s (e ∷ es) p = run-terminal (apply s e).state es (apply-terminal s e p)

entered-append :
    (p q r : ExecutionPhase)
    → ((o : ExecutionOutcome) → p ≡ terminal o → q ≡ terminal o)
    → ((o : ExecutionOutcome) → q ≡ terminal o → r ≡ terminal o)
    → entered p q ++ entered q r ≡ entered p r
entered-append (terminal o) q r h k = ground (arith, h o, k o)
entered-append p (terminal o) r h k = ground (arith, k o)
entered-append p q r h k = refl

-- Over any history of an execution, the published outcomes are none as long as it goes on, and
-- exactly the one that it has ended with after that; an execution that had ended before publishes
-- nothing: the end is announced once.
pub run-published :
    (s : ExecutionState) (es : List ExecutionEvent)
    → published (run s es).1 ≡ entered s.phase (run s es).0.phase
unfolding run
run-published s [] = stays s.phase
  where
    stays : (p : ExecutionPhase) → published [] ≡ entered p p
    stays (terminal o) = refl
    stays _ = refl
run-published s (e ∷ es) =
    published-append (apply s e).effects (run (apply s e).state es).1
    ∙ (rw (apply-published s e, run-published (apply s e).state es)
        (entered-append s.phase (apply s e).state.phase (run (apply s e).state es).0.phase
          (λ o p. apply-terminal s e p) (λ o p. run-terminal (apply s e).state es p)))
