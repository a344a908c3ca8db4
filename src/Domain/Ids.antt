-- ===== src/Domain/Ids.antt =====
-- crates/domain/src/ids.rs: the identifiers are newtypes of a 128-bit UUID, here its number.
-- `X::new()` draws a random UUID: an operation that mints an identifier takes it as an argument.
use safe_cameroon.Common.{ℕ}

abbrev pub Uuid : Type 0
Uuid = ℕ

abbrev pub CaseId : Type 0
CaseId = Uuid

abbrev pub CaseEventId : Type 0
CaseEventId = Uuid

abbrev pub ReportId : Type 0
ReportId = Uuid

abbrev pub AlertId : Type 0
AlertId = Uuid

abbrev pub AlertEventId : Type 0
AlertEventId = Uuid

abbrev pub OrganizationId : Type 0
OrganizationId = Uuid

abbrev pub ConsumerId : Type 0
ConsumerId = Uuid

abbrev pub SubscriptionId : Type 0
SubscriptionId = Uuid

abbrev pub DeliveryId : Type 0
DeliveryId = Uuid

abbrev pub DeliveryEventId : Type 0
DeliveryEventId = Uuid

abbrev pub DeliveryAttemptId : Type 0
DeliveryAttemptId = Uuid

abbrev pub AttachmentId : Type 0
AttachmentId = Uuid

abbrev pub AuditEventId : Type 0
AuditEventId = Uuid

abbrev pub OutboxEventId : Type 0
OutboxEventId = Uuid
