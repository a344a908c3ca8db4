-- ===== src/Domain/Alert/Disclosure.antt =====
-- Proofs about the fields, the cancellation and the descriptions of crates/domain/src/alert.rs.
use safe_cameroon.Common.{
  ◌+◌, ◌≡◌, ◌↔◌, ◌⊎◌, inl, inr, String, true, false, List, [], ◌∷◌, Option, none, some, ok, err,
  u64, All, All-mem, mem_of_contains, arith,
}
use safe_cameroon.Domain.Ids.{AlertId, AlertEventId, OrganizationId}
use safe_cameroon.Domain.Case.{Case}
use safe_cameroon.Domain.Alert.{
  AlertField, AlertField_eq, AlertStatus, AlertStatus-discrete, Severity, TargetGeography,
  AlertPolicy, Alert, AlertFieldValue, AlertEvent, admits_internal_only_fields, is_forbidden,
  is_restricted_to_internal_audiences, allows_field, policy_new, create_from_case, cancel,
  field_value, description_for_locale, AlertEventType, AlertStatus_eq,
}
use safe_cameroon.Domain.Alert.SafePolicy.{IsSafe, IsSafe-anonymous, IsSafe-unrestricted}
use safe_cameroon.Domain.Alert.Safety.{policy_new-ok_iff, create_from_case-IsProjection}

-- A field that this audience may see: never the reporter's identity, and a restricted field only
-- inside.
abbrev pub MaySee : Alert → AlertField → Type 0
MaySee alert f =
    (is_forbidden f ≡ false)
    × ((admits_internal_only_fields alert.visibility ≡ true)
        ⊎ (is_restricted_to_internal_audiences f ≡ false))

allowed-MaySee :
    (policy : AlertPolicy) (alert : Alert)
    → IsSafe policy
    → alert.visibility ≡ policy.visibility
    → (f : AlertField) → allows_field policy f ≡ true
    → MaySee alert f
unfolding allows_field
allowed-MaySee policy alert safe audience f allowed =
    let listed = mem_of_contains policy.field_allowlist f allowed in
    (
      All-mem (λ g. is_forbidden g ≡ false) listed (IsSafe-anonymous policy safe),
      elim (IsSafe-unrestricted policy safe) [
        | inl inside ↦ inl (rw audience inside)
        | inr none_listed ↦
            inr (All-mem (λ g. is_restricted_to_internal_audiences g ≡ false) listed none_listed)
      ],
    )

All-MaySee :
    (policy : AlertPolicy) (alert : Alert)
    → IsSafe policy
    → alert.visibility ≡ policy.visibility
    → (vs : List AlertFieldValue) → All (λ v. allows_field policy v.field ≡ true) vs
    → All (λ v. MaySee alert v.field) vs
All-MaySee policy alert safe audience [] h = tt
All-MaySee policy alert safe audience (v ∷ vs) h = (
  allowed-MaySee policy alert safe audience v.field h.0,
  All-MaySee policy alert safe audience vs h.1,
)

-- Whatever the caller supplies: an alert that is made under a policy that passed its constructor
-- carries no field that its audience may not see, so never the reporter's identity.
pub create_from_case-MaySee :
    (id : AlertId) (event_id : AlertEventId) (c : Case) (policy : AlertPolicy) (severity : Severity)
    (target : TargetGeography) (fields : List AlertFieldValue) (issued_by : Option OrganizationId)
    {alert : Alert} {event : AlertEvent}
    → policy_new policy.id policy.version policy.incident_type policy.visibility policy.trigger
        policy.field_allowlist
      ≡ ok policy
    → create_from_case id event_id c policy severity target fields issued_by ≡ ok (alert, event)
    → All (λ v. MaySee alert v.field) alert.fields
create_from_case-MaySee id event_id c policy severity target fields issued_by {alert} made h =
    let p = create_from_case-IsProjection id event_id c policy severity target fields issued_by h in
    All-MaySee policy alert ((policy_new-ok_iff policy policy).0 made).0 p.audience alert.fields
      p.all_allowed

-- The alert after its cancellation.
abbrev pub cancelled : Alert → Alert
cancelled alert = record alert { status = AlertStatus.cancelled; version = u64 (alert.version + 1) }

-- A cancellation takes effect once: an active alert is cancelled with the event of its new version,
-- and every later attempt is refused and changes nothing.
pub cancel_once :
    (alert : Alert) (first second : AlertEventId)
    → alert.status ≡ AlertStatus.active
    → (cancel first alert ≡ (
      cancelled alert,
      ok (record {
        id = first;
        alert_id = alert.id;
        event_type = AlertEventType.alert_cancelled;
        aggregate_version = u64 (alert.version + 1);
      }),
    ))
      × (cancel second (cancelled alert) ≡ (
        cancelled alert,
        err (record { from = AlertStatus.cancelled; to = AlertStatus.cancelled }),
      ))
unfolding cancel AlertStatus-discrete
cancel_once alert first second h = (ground arith, ground arith)

abbrev Carries : Alert → AlertField → Type 0
Carries alert f = (s : String) × (field_value alert f ≡ some s)

-- A reader gets no description exactly when the alert has none at all: neither language's nor the
-- legacy one, whatever the locale.
pub description_for_locale-none_iff :
    (lower : String → String) (alert : Alert) (locale : Option String)
    → (description_for_locale lower alert locale ≡ none) ↔ (
        (field_value alert AlertField.safe_description_en ≡ none)
        × (field_value alert AlertField.safe_description_fr ≡ none)
        × (field_value alert AlertField.safe_description ≡ none))
unfolding description_for_locale
description_for_locale-none_iff lower alert locale = ground arith
