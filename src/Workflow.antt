-- ===== src/Workflow.antt =====
-- crates/application/src: the use cases.
pub mod Case
pub mod Authorization
pub mod Alert
pub mod Delivery
pub mod Message
pub mod Intake
pub mod Citizen
pub mod RateLimit
