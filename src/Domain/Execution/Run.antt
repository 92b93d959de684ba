-- ===== src/Domain/Execution/Run.antt =====
-- A history of one execution: the events are applied in order. A rejected event returns an error
-- to its sender, who keeps the state that it had.
use susm.Common.{[], ◌∷◌, ◌++◌, List, ok, err}
use susm.Domain.Transition.{without_effects}
use susm.Domain.Execution.{ExecutionState, ExecutionEvent, ExecutionEffect}
use susm.Domain.Execution.Attempts.{Step}
use susm.Domain.Execution.Events.{Outcome, transition}

abbrev pub kept : ExecutionState → Outcome → Step
kept s (ok t) = t
kept s (err _) = without_effects s

unfoldable pub apply : ExecutionState → ExecutionEvent → Step
apply s e = kept s (transition s e)

-- The state after the history, with all effects in order.
unfoldable pub run : ExecutionState → List ExecutionEvent → ExecutionState × List ExecutionEffect
run s [] = (s, [])
run s (e ∷ es) = let t = apply s e in let rest = run t.state es in (rest.0, t.effects ++ rest.1)
