-- ===== src/Domain/Alert/Safety.antt =====
-- Proofs about `AlertPolicy::new` and `Alert::create_from_case` of crates/domain/src/alert.rs.
use safe_cameroon.Common.{
  none, ◌≡◌, refl, ◌↔◌, ◌⊎◌, true, false, List, [], ◌∷◌, ◌++◌, map, append-nil, append_assoc,
  Option, ok, is_ok, contains, All, Distinct, Distinct-snoc, Distinct-middle, arith, ◌==◌,
  find-none_iff,
}
use safe_cameroon.Domain.Ids.{AlertId, AlertEventId, OrganizationId}
use safe_cameroon.Domain.Case.{Case, IncidentType_eq}
use safe_cameroon.Domain.Alert.{
  AlertVisibility, AlertField, AlertField_eq, Severity, TargetGeography, AlertPolicy,
  admits_internal_only_fields, is_forbidden, is_restricted_to_internal_audiences, first_restricted,
  policy_new, allows_field, Alert, AlertFieldValue, AlertEvent, is_verified_or_later, AlertStatus,
  check_fields, create_from_case,
}
use safe_cameroon.Domain.Alert.SafePolicy.{
  IsSafe, PassesChecks, PassesChecks-IsSafe, IsSafe-PassesChecks,
}

first_restricted-none_iff :
    (v : AlertVisibility) (fs : List AlertField)
    → (first_restricted v fs ≡ none) ↔ (
        (admits_internal_only_fields v ≡ true)
        ⊎ All (λ f. is_restricted_to_internal_audiences f ≡ false) fs)
unfolding first_restricted
first_restricted-none_iff v fs =
    ground (arith, find-none_iff is_restricted_to_internal_audiences fs)

policy_new-PassesChecks :
    (policy made : AlertPolicy)
    → (policy_new policy.id policy.version policy.incident_type policy.visibility policy.trigger
          policy.field_allowlist
        ≡ ok made)
      ↔ (PassesChecks policy × (made ≡ policy))
unfolding policy_new
policy_new-PassesChecks policy made = ground (
  arith,
  find-none_iff is_forbidden policy.field_allowlist,
  first_restricted-none_iff policy.visibility policy.field_allowlist,
)

-- The constructor answers with a policy exactly when the given parts are safe, and then with the policy
-- of these parts and no other: unsafe parts are always refused.
pub policy_new-ok_iff :
    (policy made : AlertPolicy)
    → (policy_new policy.id policy.version policy.incident_type policy.visibility policy.trigger
          policy.field_allowlist
        ≡ ok made)
      ↔ (IsSafe policy × (made ≡ policy))
policy_new-ok_iff policy made = (
  λ h.
      let (checks, same) = (policy_new-PassesChecks policy made).0 h in
      (PassesChecks-IsSafe policy checks, same),
  λ (safe, same). (policy_new-PassesChecks policy made).1 (IsSafe-PassesChecks policy safe, same),
)

-- The supplied fields are each allowed, and with those seen before are pairwise different.
abbrev Fits : AlertPolicy → List AlertField → List AlertFieldValue → Type 0
Fits policy seen vs =
    All (λ v. allows_field policy v.field ≡ true) vs × Distinct (seen ++ map (λ v. v.field) vs)

check_fields_sound :
    (policy : AlertPolicy) (seen : List AlertField) (vs : List AlertFieldValue)
    → Distinct seen
    → check_fields policy seen vs ≡ ok tt
    → Fits policy seen vs
unfolding check_fields
check_fields_sound policy seen [] d h = (tt, rw append-nil d)
check_fields_sound policy seen (v ∷ vs) d h =
    let allowed : allows_field policy v.field ≡ true = ground arith in
    let fresh : contains seen v.field ≡ false = ground arith in
    let later : check_fields policy (seen ++ (v.field ∷ [])) vs ≡ ok tt = ground arith in
    let (all_allowed, distinct) =
      check_fields_sound policy (seen ++ (v.field ∷ [])) vs (Distinct-snoc seen v.field d fresh)
        later in
    ((allowed, all_allowed), rw append_assoc at distinct)

check_fields_complete :
    (policy : AlertPolicy) (seen : List AlertField) (vs : List AlertFieldValue)
    → Fits policy seen vs
    → check_fields policy seen vs ≡ ok tt
unfolding check_fields
check_fields_complete policy seen [] fits = refl
check_fields_complete policy seen (v ∷ vs) ((allowed, later), distinct) =
    let fresh : contains seen v.field ≡ false =
      Distinct-middle seen (map (λ w. w.field) vs) v.field distinct in
    rw (allowed, fresh)
      (check_fields_complete policy (seen ++ (v.field ∷ [])) vs (later, rw append_assoc distinct))

-- What a caller gets of a case: the request is accepted, and the alert is this projection.
pub record IsProjection (c : Case) (policy : AlertPolicy) (fields : List AlertFieldValue)
    (alert : Alert) (event : AlertEvent) : Type 0 where
  pub verified : is_verified_or_later c.status ≡ true
  pub same_incident_type : c.incident_type ≡ policy.incident_type
  pub all_allowed : All (λ v. allows_field policy v.field ≡ true) alert.fields
  pub distinct : Distinct (map (λ v. v.field) alert.fields)
  pub carried : alert.fields ≡ fields
  pub of_case : alert.case_id ≡ c.id
  pub of_policy : alert.policy_id ≡ policy.id
  pub of_policy_version : alert.policy_version ≡ policy.version
  pub audience : alert.visibility ≡ policy.visibility
  pub fired_by : alert.trigger ≡ policy.trigger
  pub about : alert.incident_type ≡ c.incident_type
  pub is_active : alert.status ≡ AlertStatus.active
  pub announced : event.alert_id ≡ alert.id
  pub first_version : event.aggregate_version ≡ 1

module _ (id : AlertId) (event_id : AlertEventId) (c : Case) (policy : AlertPolicy)
    (severity : Severity) (target : TargetGeography) (fields : List AlertFieldValue)
    (issued_by : Option OrganizationId) where
  -- An alert that is made is the projection of a verified case that its policy allows.
  pub create_from_case-IsProjection :
      {alert : Alert} {event : AlertEvent}
      → create_from_case id event_id c policy severity target fields issued_by ≡ ok (alert, event)
      → IsProjection c policy fields alert event
  unfolding create_from_case
  create_from_case-IsProjection {alert} {event} h =
      let same : (c.incident_type == policy.incident_type) ≡ true = ground arith in
      let checked : check_fields policy [] fields ≡ ok tt = ground arith in
      let carried : alert.fields ≡ fields = ground arith in
      let agree : c.incident_type ≡ policy.incident_type = (IncidentType_eq.beq_iff _ _).0 same in
      let (allowed, distinct) = check_fields_sound policy [] fields tt checked in
      record {
        verified = ground arith;
        same_incident_type = agree;
        all_allowed = rw carried allowed;
        distinct = rw carried distinct;
        carried = carried;
        of_case = ground arith;
        of_policy = ground arith;
        of_policy_version = ground arith;
        audience = ground arith;
        fired_by = ground arith;
        about = ground (arith, agree);
        is_active = ground arith;
        announced = ground arith;
        first_version = ground arith;
      }

  -- Nothing else is asked: an alert is made whenever the case is verified, the incident types
  -- agree and the fields are allowed and different.
  pub create_from_case_complete :
      is_verified_or_later c.status ≡ true
      → c.incident_type ≡ policy.incident_type
      → All (λ v. allows_field policy v.field ≡ true) fields
      → Distinct (map (λ v. v.field) fields)
      → is_ok (create_from_case id event_id c policy severity target fields issued_by) ≡ true
  unfolding create_from_case
  create_from_case_complete verified same allowed distinct = ground (
    arith,
    check_fields_complete policy [] fields (allowed, distinct),
    (IncidentType_eq.beq_iff c.incident_type policy.incident_type).1 same,
  )
