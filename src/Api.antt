-- ===== src/Api.antt =====
-- The HTTP API: apps/api/src.
pub mod Error
pub mod Webhooks
pub mod Access
