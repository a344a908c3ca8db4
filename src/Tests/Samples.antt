-- ===== src/Tests/Samples.antt =====
-- Inputs that the other tests share.
use safe_cameroon.Common.{ℕ, zero, suc, String, List, [], ◌∷◌, none, some}
use safe_cameroon.Domain.Ids.{Uuid}
use safe_cameroon.Domain.Case.{Case, CaseStatus, CaseEventType, IncidentType}
use safe_cameroon.Domain.Alert.{
  Alert, AlertField, AlertFieldValue, AlertPolicy, AlertStatus, AlertVisibility, Severity,
  TargetGeography,
}
use safe_cameroon.Domain.Delivery.{
  ChannelType, Delivery, DeliveryPreference, DeliveryStatus, DeliveryStrategy, RetryPolicy,
}
use safe_cameroon.Domain.Organization.{Membership, Role}
use safe_cameroon.Domain.Subscription.{ConsumerMatch}

abbrev pub verified_case : Case
verified_case = record {
  id = 7;
  incident_type = IncidentType.missing_child;
  status = CaseStatus.verified;
  report_ids = 1 ∷ 2 ∷ [];
  version = 4;
}

abbrev pub reported_case : Case
reported_case = record {
  id = 7;
  incident_type = IncidentType.missing_child;
  status = CaseStatus.reported;
  report_ids = 1 ∷ [];
  version = 1;
}

abbrev pub community_policy : AlertPolicy
community_policy = record {
  id = "MISSING_CHILD_COMMUNITY";
  version = 1;
  incident_type = IncidentType.missing_child;
  visibility = AlertVisibility.community;
  trigger = CaseEventType.case_verified;
  field_allowlist = AlertField.safe_description_en ∷ AlertField.case_reference ∷ [];
}

abbrev pub shown_fields : List AlertFieldValue
shown_fields =
    record { field = AlertField.safe_description_en; value = "A child of about eight" }
    ∷ record { field = AlertField.case_reference; value = "SC-7" }
    ∷ []

abbrev pub market : TargetGeography
market = record { as_str = "Mokolo" }

abbrev pub community_alert : Alert
community_alert = record {
  id = 20;
  case_id = 7;
  policy_id = "MISSING_CHILD_COMMUNITY";
  policy_version = 1;
  incident_type = IncidentType.missing_child;
  severity = Severity.high;
  visibility = AlertVisibility.community;
  trigger = CaseEventType.case_verified;
  target_geography = market;
  status = AlertStatus.active;
  fields = shown_fields;
  version = 1;
  issued_by_organization_id = none;
}

abbrev pub three_attempts : RetryPolicy
three_attempts = record { max_attempts = 3 }

abbrev pub planned_delivery : Delivery
planned_delivery = record {
  id = 30;
  alert_id = 20;
  consumer_id = 40;
  channel = ChannelType.sms;
  endpoint_address = "+237600000000";
  tier = 0;
  idempotency_key = record { as_str = "40:20:SMS:+237600000000" };
  matching_subscriptions = [];
  retry_policy = three_attempts;
  status = DeliveryStatus.queued;
  attempt_count = 0;
  version = 1;
}

abbrev pub sms_and_push : DeliveryPreference
sms_and_push = record {
  strategy = DeliveryStrategy.primary_fallback;
  channels =
      record { channel = ChannelType.sms; address = "+237600000000" }
      ∷ record { channel = ChannelType.push; address = "endpoint" }
      ∷ [];
}

abbrev pub one_match : List ConsumerMatch
one_match = record { consumer_id = 40; matching_subscriptions = [] } ∷ []

-- Identifiers in unary digits, a stand-in for the text of a UUID.
abbrev pub tally : Uuid → String
tally zero = ""
tally (suc n) = String.◌∷◌ "a" (tally n)

-- A stand-in for the digest.
abbrev pub no_digest : String → List ℕ
no_digest s = []

abbrev pub same_text : String → String
same_text s = s

abbrev pub administrator : Membership
administrator = record { role = Role.org_admin; organization_id = some 5 }

abbrev pub colleague : Membership
colleague = record { role = Role.member; organization_id = some 5 }
