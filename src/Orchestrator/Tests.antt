-- ===== src/Orchestrator/Tests.antt =====
-- The theorems of internal/orchestrator at concrete inputs, and tests of its definitions.
mod Routines
mod System
mod Lifecycle
mod Payload
