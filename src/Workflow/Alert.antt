-- ===== src/Workflow/Alert.antt =====
-- crates/application/src/alert_workflow.rs: issuing and cancelling alerts. `sha256` stands for the
-- digest of the `sha2` crate; the identifiers that a function makes are its first arguments.
pub mod Issuance
use safe_cameroon.Common.{
  String, ◌==◌, String_eq, List, Option, none, some, Result, ok, err, map_err, ◌>>=◌, ℕ,
  if◌then◌else◌,
}
use safe_cameroon.Domain.Ids.{
  Uuid, AlertId, AlertEventId, AuditEventId, OutboxEventId, OrganizationId,
}
use safe_cameroon.Domain.Case.{Case}
use safe_cameroon.Domain.Alert.{
  Alert, AlertCreationError, AlertEvent, AlertFieldValue, AlertPolicy, AlertPolicyError,
  AlertTransitionError, AlertVisibility, Severity, TargetGeography, admits_internal_only_fields,
  missing_child_community_v1, create_from_case, cancel,
}
use safe_cameroon.Workflow.Case.{Actor, reviewer, automated}

pub record AlertAuthorizationError : Type 0 where
  pub visibility : AlertVisibility

abbrev reviewer_only : Actor → AlertVisibility → Result (Unit {0}) AlertAuthorizationError
reviewer_only (reviewer _) visibility = ok tt
reviewer_only automated visibility = err (record { visibility = visibility })

unfoldable pub authorize_alert_action :
    Actor → AlertVisibility → Result (Unit {0}) AlertAuthorizationError
unfolding admits_internal_only_fields
authorize_alert_action actor visibility =
    if admits_internal_only_fields visibility then ok tt else reviewer_only actor visibility

unfoldable pub authorize_alert_cancellation :
    Actor → AlertVisibility → Result (Unit {0}) AlertAuthorizationError
authorize_alert_cancellation (reviewer _) visibility = ok tt
authorize_alert_cancellation automated visibility = err (record { visibility = visibility })

-- A template that its constructor refuses would be a panic, kept as an error here.
unfoldable pub resolve_policy : String → Option (Result AlertPolicy AlertPolicyError)
unfolding missing_child_community_v1
resolve_policy policy_id =
    if policy_id == "MISSING_CHILD_COMMUNITY" then some missing_child_community_v1 else none

pub data AlertCreationUseCaseError : Type 0 where
  creation_not_authorized : AlertAuthorizationError → AlertCreationUseCaseError
  invalid_alert : AlertCreationError → AlertCreationUseCaseError

pub record AlertCreation : Type 0 where
  pub alert : Alert
  pub event : AlertEvent
  pub actor : Actor
  pub audit_event_id : AuditEventId
  pub outbox_event_id : OutboxEventId
  pub request_id : Uuid
  pub idempotency_key_hash : Option (List ℕ)

abbrev hashed : (String → List ℕ) → Option String → Option (List ℕ)
hashed sha256 none = none
hashed sha256 (some key) = some (sha256 key)

unfoldable pub create_alert_from_case :
    (String → List ℕ)
    → AlertId
    → AlertEventId
    → AuditEventId
    → OutboxEventId
    → Case
    → AlertPolicy
    → Severity
    → TargetGeography
    → List AlertFieldValue
    → Actor
    → Uuid
    → Option String
    → Option OrganizationId
    → Result AlertCreation AlertCreationUseCaseError
unfolding authorize_alert_action create_from_case
create_alert_from_case sha256 id event_id audit outbox c policy severity target fields actor
      request_id idempotency_key issued_by =
    map_err creation_not_authorized (authorize_alert_action actor policy.visibility) >>= λ _.
    map_err invalid_alert (create_from_case id event_id c policy severity target fields issued_by)
    >>= λ (alert, event). ok (record {
      alert = alert;
      event = event;
      actor = actor;
      audit_event_id = audit;
      outbox_event_id = outbox;
      request_id = request_id;
      idempotency_key_hash = hashed sha256 idempotency_key;
    })

pub data AlertCancellationError : Type 0 where
  cancellation_not_authorized : AlertAuthorizationError → AlertCancellationError
  invalid_transition : AlertTransitionError → AlertCancellationError

pub record AlertCancellation : Type 0 where
  pub event : AlertEvent
  pub actor : Actor
  pub audit_event_id : AuditEventId
  pub outbox_event_id : OutboxEventId
  pub request_id : Uuid

unfoldable pub cancel_alert :
    AlertEventId
    → AuditEventId
    → OutboxEventId
    → Alert
    → Actor
    → Uuid
    → Alert × Result AlertCancellation AlertCancellationError
unfolding authorize_alert_cancellation cancel
cancel_alert event_id audit outbox alert actor request_id =
    elim (authorize_alert_cancellation actor alert.visibility) [
      | err e ↦ (alert, err (cancellation_not_authorized e))
      | ok _ ↦
          let (alert', result) = cancel event_id alert in
          (
            alert',
            map_err invalid_transition result >>= λ event. ok (record {
              event = event;
              actor = actor;
              audit_event_id = audit;
              outbox_event_id = outbox;
              request_id = request_id;
            }),
          )
    ]
