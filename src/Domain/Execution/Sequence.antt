-- ===== src/Domain/Execution/Sequence.antt =====
-- Attempts follow one another without a gap.
use susm.Common.{
  ℕ, zero, suc, ◌∷◌, ◌++◌, [], List, ◌≡◌, ◌⊎◌, refl, arith, ok, ap, ◌∙◌, Result-cases, inl, inr,
}
use susm.Domain.Time.{BootInstant}
use susm.Domain.Ids.{AttemptNumber, next_attempt}
use susm.Domain.Execution.{
  AttemptEnd, ExecutionPhase, launching, running, restart_backoff, stopping, terminal,
  ExecutionState, ExecutionEvent, launch_succeeded, process_exited, stop_requested,
  restart_deadline_reached, stop_deadline_reached, restart_policy_changed,
  success_exit_codes_changed, ExecutionEffect, launch_attempt,
}
use susm.Domain.Execution.Attempts.{Step, finish_attempt, finish_terminal, finish_stop}
use susm.Domain.Execution.Events.{transition}
use susm.Domain.Execution.Run.{run, apply}

-- The attempts that a list of effects launches.
abbrev pub launched : List ExecutionEffect → List AttemptNumber
launched [] = []
launched (launch_attempt n ∷ es) = n ∷ launched es
launched (_ ∷ es) = launched es

abbrev pub count_up : AttemptNumber → ℕ → List AttemptNumber
count_up n zero = []
count_up n (suc k) = n ∷ count_up (suc n) k

-- Attempt `a` is under way or was the last one. After the end there is no further attempt.
abbrev pub At : AttemptNumber → ExecutionPhase → Type 0
At a (launching b) = b ≡ a
At a (running b) = b ≡ a
At a (restart_backoff previous _ next _ _) = (previous ≡ a) × (next ≡ suc a)
At a (stopping b _ _ _) = b ≡ a
At a (terminal _) = Unit {0}

abbrev Advances : AttemptNumber → Step → Type 0
Advances a t =
    ((launched t.effects ≡ []) × At a t.state.phase)
    ⊎ ((launched t.effects ≡ suc a ∷ []) × At (suc a) t.state.phase)

finish_attempt-Advances :
    (s : ExecutionState) (a : AttemptNumber) (e : AttemptEnd) (at : BootInstant) {t : Step}
    → finish_attempt s a e at ≡ ok t
    → (launched t.effects ≡ []) × At a t.state.phase
unfolding finish_attempt finish_terminal next_attempt
finish_attempt-Advances s a e at h = (ground arith, ground arith)

lost-Advances :
    (p : ExecutionPhase) (s : ExecutionState) (a : AttemptNumber) (at : BootInstant) {t : Step}
    → s.phase ≡ p
    → At a p
    → transition s (ExecutionEvent.supervisor_lost at) ≡ ok t
    → (launched t.effects ≡ []) × At a t.state.phase
unfolding transition finish_stop
lost-Advances (launching b) s a at {t} e p h =
    ground (arith, finish_attempt-Advances s b AttemptEnd.supervisor_lost at {t = t})
lost-Advances (running b) s a at {t} e p h =
    ground (arith, finish_attempt-Advances s b AttemptEnd.supervisor_lost at {t = t})
lost-Advances p s a at e q h = (ground arith, ground arith)

transition-Advances :
    (s : ExecutionState) (e : ExecutionEvent) (a : AttemptNumber) {t : Step}
    → At a s.phase
    → transition s e ≡ ok t
    → Advances a t
unfolding transition finish_stop finish_terminal
transition-Advances s (launch_succeeded b at) a p h = ground arith
transition-Advances s (ExecutionEvent.launch_failed b f at) a {t} p h =
    ground (arith, finish_attempt-Advances s b (AttemptEnd.launch_failed f) at {t = t})
transition-Advances s (process_exited b c d at) a {t} p h =
    ground (arith, finish_attempt-Advances s b (AttemptEnd.exited c d) at {t = t})
transition-Advances s (stop_requested c q at) a p h = ground arith
transition-Advances s (restart_deadline_reached d) a p h = ground arith
transition-Advances s (stop_deadline_reached d) a p h = ground arith
transition-Advances s (restart_policy_changed q) a p h = ground arith
transition-Advances s (success_exit_codes_changed cs) a p h = ground arith
transition-Advances s (ExecutionEvent.supervisor_lost at) a {t} p h =
    inl (lost-Advances s.phase s a at {t = t} refl p h)

launched-append : (xs ys : List ExecutionEffect) → launched (xs ++ ys) ≡ launched xs ++ launched ys
launched-append [] ys = refl
launched-append (launch_attempt n ∷ xs) ys = ap (λ l. n ∷ l) (launched-append xs ys)
launched-append (_ ∷ xs) ys = launched-append xs ys

apply-Advances :
    (s : ExecutionState) (e : ExecutionEvent) (a : AttemptNumber)
    → At a s.phase
    → Advances a (apply s e)
unfolding apply
apply-Advances s e a p = elim (Result-cases (transition s e)) [
  | inl (t, h) ↦ rw h (transition-Advances s e a {t = t} p h)
  | inr (x, h) ↦ rw h (inl (refl, p))
]

-- Whatever happens to an execution at attempt `a`, the attempts that it launches from then on are
-- a + 1, a + 2, ... in this order, each once.
pub run-launched :
    (s : ExecutionState) (es : List ExecutionEvent) (a : AttemptNumber)
    → At a s.phase
    → (k : ℕ) × (launched (run s es).1 ≡ count_up (suc a) k)
unfolding run
run-launched s [] a p = (0, refl)
run-launched s (e ∷ es) a p = elim (apply-Advances s e a p) [
  | inl (none_launched, q) ↦
      let (k, h) = run-launched (apply s e).state es a q in
      (k, launched-append (apply s e).effects _ ∙ rw (none_launched, h))
  | inr (next_launched, q) ↦
      let (k, h) = run-launched (apply s e).state es (suc a) q in
      (suc k, launched-append (apply s e).effects _ ∙ rw (next_launched, h))
]
