-- ===== src/Domain/Alert.antt =====
-- crates/domain/src/alert.rs: the alert aggregate, a projection of a verified case that carries only
-- what its policy allows. Unicode's lower-casing (`str::to_lowercase`) is the parameter `lower`.
mod Vocabulary
mod Policy
pub mod SafePolicy
pub mod Safety
pub mod Disclosure
unfoldable pub use Vocabulary.*
unfoldable pub use Policy.*
use text.Mathlib.Text.{starts_with}
use safe_cameroon.Common.{
  ℕ, ◌+◌, String, Bool, true, false, not, List, [], ◌∷◌, ◌++◌, Option, none, some, Result, ok, err,
  ◌>>=◌, u64, if◌then◌else◌, contains, find, ◌==◌, trim,
}
use safe_cameroon.Domain.Ids.{CaseId, AlertId, AlertEventId, OrganizationId}
use safe_cameroon.Domain.Case.{Case, CaseStatus, CaseEventType, IncidentType, IncidentType_eq}

pub record AlertFieldValue : Type 0 where
  pub field : AlertField
  pub value : String

pub record AlertEvent : Type 0 where
  pub id : AlertEventId
  pub alert_id : AlertId
  pub event_type : AlertEventType
  pub aggregate_version : ℕ  -- u64

pub data AlertCreationError : Type 0 where
  case_not_verified : CaseStatus → AlertCreationError
  incident_type_mismatch : IncidentType → IncidentType → AlertCreationError
  field_not_allowed_by_policy : AlertField → AlertCreationError
  duplicate_field : AlertField → AlertCreationError

pub record AlertTransitionError : Type 0 where
  pub from : AlertStatus
  pub to : AlertStatus

unfoldable pub is_verified_or_later : CaseStatus → Bool
is_verified_or_later CaseStatus.verified = true
is_verified_or_later CaseStatus.active = true
is_verified_or_later CaseStatus.resolved = true
is_verified_or_later _ = false

pub record Alert : Type 0 where
  pub id : AlertId
  pub case_id : CaseId
  pub policy_id : String
  pub policy_version : ℕ  -- u32
  pub incident_type : IncidentType
  pub severity : Severity
  pub visibility : AlertVisibility
  pub trigger : CaseEventType
  pub target_geography : TargetGeography
  pub status : AlertStatus
  pub fields : List AlertFieldValue
  pub version : ℕ  -- u64
  pub issued_by_organization_id : Option OrganizationId

abbrev event : AlertEventId → Alert → AlertEventType → AlertEvent
event event_id alert event_type = record {
  id = event_id;
  alert_id = alert.id;
  event_type = event_type;
  aggregate_version = alert.version;
}

-- The loop over the supplied fields, with those seen so far.
unfoldable pub check_fields :
    AlertPolicy → List AlertField → List AlertFieldValue → Result (Unit {0}) AlertCreationError
unfolding allows_field
check_fields policy seen [] = ok tt
check_fields policy seen (v ∷ vs) =
    let rest = check_fields policy (seen ++ (v.field ∷ [])) vs in
    if not (allows_field policy v.field)
    then err (field_not_allowed_by_policy v.field)
    else if contains seen v.field
    then err (duplicate_field v.field)
    else rest

unfoldable pub create_from_case :
    AlertId
    → AlertEventId
    → Case
    → AlertPolicy
    → Severity
    → TargetGeography
    → List AlertFieldValue
    → Option OrganizationId
    → Result (Alert × AlertEvent) AlertCreationError
unfolding is_verified_or_later check_fields
create_from_case id event_id c policy severity target_geography fields issued_by =
    if not (is_verified_or_later c.status)
    then err (case_not_verified c.status)
    else if not (c.incident_type == policy.incident_type)
    then err (incident_type_mismatch c.incident_type policy.incident_type)
    else (check_fields policy [] fields >>= λ _.
        let alert : Alert = record {
          id = id;
          case_id = c.id;
          policy_id = policy.id;
          policy_version = policy.version;
          incident_type = policy.incident_type;
          severity = severity;
          visibility = policy.visibility;
          trigger = policy.trigger;
          target_geography = target_geography;
          status = AlertStatus.active;
          fields = fields;
          version = 1;
          issued_by_organization_id = issued_by;
        } in
        ok (alert, event event_id alert AlertEventType.alert_created))

unfoldable pub alert_reconstitute :
    AlertId
    → CaseId
    → String
    → ℕ
    → IncidentType
    → Severity
    → AlertVisibility
    → CaseEventType
    → TargetGeography
    → AlertStatus
    → List AlertFieldValue
    → ℕ
    → Option OrganizationId
    → Alert
alert_reconstitute id case_id policy_id policy_version incident_type severity visibility trigger
      target_geography status fields version issued_by =
    record {
      id = id;
      case_id = case_id;
      policy_id = policy_id;
      policy_version = policy_version;
      incident_type = incident_type;
      severity = severity;
      visibility = visibility;
      trigger = trigger;
      target_geography = target_geography;
      status = status;
      fields = fields;
      version = version;
      issued_by_organization_id = issued_by;
    }

unfoldable pub cancel : AlertEventId → Alert → Alert × Result AlertEvent AlertTransitionError
cancel event_id alert =
    if not (alert.status == AlertStatus.active)
    then (alert, err (record { from = alert.status; to = AlertStatus.cancelled }))
    else let alert' : Alert = record alert {
      status = AlertStatus.cancelled;
      version = u64 (alert.version + 1);
    } in
      (alert', ok (event event_id alert' AlertEventType.alert_cancelled))

abbrev pub value_of : Option AlertFieldValue → Option String
value_of none = none
value_of (some v) = some v.value

unfoldable pub field_value : Alert → AlertField → Option String
field_value alert field = value_of (find (λ v. v.field == field) alert.fields)

abbrev pub or_else : Option String → Option String → Option String
or_else none other = other
or_else (some s) other = some s

unfoldable pub prefers_french : (String → String) → Option String → Bool
prefers_french lower none = false
prefers_french lower (some locale) = starts_with (lower (trim locale)) "fr"

unfoldable pub description_for_locale : (String → String) → Alert → Option String → Option String
unfolding field_value prefers_french
description_for_locale lower alert locale =
    let english = field_value alert AlertField.safe_description_en in
    let french = field_value alert AlertField.safe_description_fr in
    let legacy = field_value alert AlertField.safe_description in
    if prefers_french lower locale
    then or_else (or_else french english) legacy
    else or_else (or_else english french) legacy
