-- ===== src/Worker.antt =====
-- The worker process: apps/worker/src.
pub mod Dispatch
pub mod Matching
