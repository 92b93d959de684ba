-- ===== src/Domain/SupervisorBinding/Run.antt =====
-- A history of one binding. A rejected event changes nothing.
use susm.Common.{◌∷◌, [], List, ◌++◌, Option, none, some, ok, err}
use susm.Domain.Ids.{ExecutionId}
use susm.Domain.Transition.{without_effects}
use susm.Domain.SupervisorBinding.{
  SupervisorLaunchPolicy, SupervisorBinding, SupervisorBindingEvent, SupervisorBindingEffect,
}
use susm.Domain.SupervisorBinding.Events.{Step, Outcome, transition}

abbrev pub kept : SupervisorBinding → Outcome → Step
kept b (ok t) = t
kept b (err _) = without_effects (some b)

-- What becomes of a binding under an event. Without a binding there is nothing to do.
unfoldable pub apply :
    Option SupervisorBinding → SupervisorBindingEvent → ExecutionId → SupervisorLaunchPolicy → Step
apply none e x policy = without_effects none
apply (some b) e x policy = kept b (transition b e x policy)

unfoldable pub run :
    Option SupervisorBinding
    → List SupervisorBindingEvent
    → ExecutionId
    → SupervisorLaunchPolicy
    → Option SupervisorBinding × List SupervisorBindingEffect
run b [] x policy = (b, [])
run b (e ∷ es) x policy =
    let t = apply b e x policy in
    let rest = run t.state es x policy in (rest.0, t.effects ++ rest.1)
