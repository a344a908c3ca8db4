-- ===== src/Tests/Alert.antt =====
-- Alerts: crates/domain/src/alert.rs, crates/application/src/alert_workflow.rs.
use safe_cameroon.Common.{◌≡◌, refl, ◌↔◌, true, [], none, some, ok, is_ok}
use safe_cameroon.Domain.Case.{IncidentType-discrete}
use safe_cameroon.Domain.Ids.{Uuid}
use safe_cameroon.Domain.Alert.{
  AlertStatus-discrete, AlertEvent, AlertEventType, AlertField, AlertField-discrete, AlertField_eq,
  AlertStatus, Severity, admits_internal_only_fields, allows_field, cancel, check_fields,
  create_from_case, description_for_locale, field_value, is_verified_or_later, policy_new,
  first_restricted, is_forbidden, is_trigger, is_restricted_to_internal_audiences,
}
use safe_cameroon.Domain.Alert.SafePolicy.{IsSafe}
use safe_cameroon.Domain.Alert.Safety.{
  IsProjection, policy_new-ok_iff, create_from_case-IsProjection, create_from_case_complete,
}
use safe_cameroon.Domain.Alert.Disclosure.{cancelled, description_for_locale-none_iff}
use safe_cameroon.Workflow.Case.{reviewer}
use safe_cameroon.Workflow.Alert.{
  AlertCreation, AlertCancellation, create_alert_from_case, cancel_alert,
}
use safe_cameroon.Workflow.Alert.Issuance.{
  IsIssued, create_alert_from_case-IsIssued, cancel_alert-ok,
}
use safe_cameroon.Tests.Samples.{
  verified_case, community_policy, community_alert, shown_fields, market, same_text, no_digest,
}

policy_new-ok_iff_example :
    (policy_new "MISSING_CHILD_COMMUNITY" 1 community_policy.incident_type
        community_policy.visibility community_policy.trigger community_policy.field_allowlist
      ≡ ok community_policy)
    ↔ (IsSafe community_policy × (community_policy ≡ community_policy))
policy_new-ok_iff_example = policy_new-ok_iff community_policy community_policy

abbrev announced : AlertEvent
announced = record {
  id = 21;
  alert_id = 20;
  event_type = AlertEventType.alert_created;
  aggregate_version = 1;
}

create_from_case-IsProjection_example :
    IsProjection verified_case community_policy shown_fields community_alert announced
unfolding create_from_case check_fields is_verified_or_later allows_field AlertField-discrete
    IncidentType-discrete
create_from_case-IsProjection_example =
    create_from_case-IsProjection 20 21 verified_case community_policy Severity.high market
      shown_fields none {alert = community_alert} {event = announced} refl

create_from_case_complete_example :
    is_ok
      (create_from_case 20 21 verified_case community_policy Severity.high market shown_fields none)
    ≡ true
unfolding is_verified_or_later allows_field AlertField-discrete
create_from_case_complete_example =
    create_from_case_complete 20 21 verified_case community_policy Severity.high market shown_fields
      none refl refl (refl, (refl, tt)) (refl, (refl, tt))

description_for_locale-none_iff_example :
    (description_for_locale same_text community_alert (some "fr") ≡ none) ↔ (
      (field_value community_alert AlertField.safe_description_en ≡ none)
      × (field_value community_alert AlertField.safe_description_fr ≡ none)
      × (field_value community_alert AlertField.safe_description ≡ none))
description_for_locale-none_iff_example =
    description_for_locale-none_iff same_text community_alert (some "fr")

abbrev issued : AlertCreation
issued = record {
  alert = community_alert;
  event = announced;
  actor = reviewer 9;
  audit_event_id = 10;
  outbox_event_id = 11;
  request_id = 12;
  idempotency_key_hash = some [];
}

create_alert_from_case-IsIssued_example : IsIssued verified_case (reviewer 9) issued
unfolding create_alert_from_case create_from_case check_fields is_verified_or_later allows_field
    policy_new first_restricted is_forbidden is_trigger admits_internal_only_fields
    is_restricted_to_internal_audiences AlertField-discrete IncidentType-discrete
create_alert_from_case-IsIssued_example =
    create_alert_from_case-IsIssued no_digest 20 21 10 11 verified_case community_policy
      Severity.high market shown_fields (reviewer 9) 12 (some "k") none issued refl refl

abbrev cancellation : AlertCancellation
cancellation = record {
  event = record {
    id = 22;
    alert_id = 20;
    event_type = AlertEventType.alert_cancelled;
    aggregate_version = 2;
  };
  actor = reviewer 9;
  audit_event_id = 10;
  outbox_event_id = 11;
  request_id = 12;
}

cancel_alert-ok_example :
    ((id : Uuid) × (reviewer 9 ≡ reviewer id))
    × (AlertStatus.active ≡ AlertStatus.active)
    × ((cancel_alert 22 10 11 community_alert (reviewer 9) 12).0 ≡ cancelled community_alert)
    × (reviewer 9 ≡ reviewer 9)
unfolding cancel_alert cancel AlertStatus-discrete
cancel_alert-ok_example = cancel_alert-ok 22 10 11 community_alert 12 (reviewer 9) cancellation refl
