-- ===== src/Domain.antt =====
-- crates/domain: the lifecycle model that the controller and the supervisor share.
pub mod Time
pub mod Ids
pub mod Transition
pub mod Restart
pub mod Execution
pub mod Controller
pub mod SupervisorBinding
mod Examples
