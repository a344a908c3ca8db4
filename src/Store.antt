-- ===== src/Store.antt =====
-- crates/infrastructure/src/postgres: the tables that the workers share.
pub mod Deliveries
pub mod Outbox
pub mod RateLimits
