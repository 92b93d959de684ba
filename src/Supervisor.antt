-- ===== src/Supervisor.antt =====
-- crates/supervisor: the process that runs one execution.
pub mod Retry
pub mod Journal
pub mod Recorder
mod Examples
