-- ===== src/Observability.antt =====
-- internal/observability: what is measured, and the health endpoints.
pub mod Recorder
pub mod Server
