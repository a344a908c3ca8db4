-- ===== src/Domain.antt =====
-- crates/domain: the pure business types and rules.
pub mod Ids
pub mod Case
pub mod Alert
pub mod Delivery
pub mod Subscription
pub mod Organization
pub mod Consumer
pub mod Report
pub mod Attachment
pub mod Extraction
pub mod Vocabularies
