-- ===== src/Orchestrator.antt =====
-- internal/orchestrator: the runner pool.
pub mod Names
pub mod Time
pub mod Launch
pub mod Program
pub mod Terminate
pub mod Spawn
pub mod Reaper
pub mod Setup
pub mod Handlers
pub mod System
mod Samples
mod Tests
