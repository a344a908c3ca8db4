-- ===== src/Infrastructure.antt =====
-- Pure parts of crates/infrastructure/src.
pub mod Hex
pub mod SessionToken
