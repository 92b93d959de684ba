-- ===== src/Domain/Transition.antt =====
-- crates/domain/src/transition.rs: the next state with the effects to carry out.
use susm.Common.{List, []}

pub record Transition {ℓ κ} (State : Type ℓ) (Effect : Type κ) : Type (ℓ ⊔ κ) where
  pub state : State
  pub effects : List Effect

-- `Transition::new`.
abbrev pub with_effects {ℓ κ} :
    {State : Type ℓ} {Effect : Type κ} → State → List Effect → Transition State Effect
with_effects s es = record { state = s; effects = es }

-- `Transition::without_effects`.
abbrev pub without_effects {ℓ κ} :
    {State : Type ℓ} {Effect : Type κ} → State → Transition State Effect
without_effects s = record { state = s; effects = [] }
