-- ===== src/Domain/Alert/Policy.antt =====
-- crates/domain/src/alert.rs: target areas and alert policies, which say what an alert may carry.
use safe_cameroon.Common.{
  ℕ, String, Bool, true, false, not, List, [], ◌∷◌, Option, none, some, Result, ok, err,
  if◌then◌else◌, contains, find, is_empty, is_blank, trim,
}
use safe_cameroon.Domain.Case.{IncidentType, CaseEventType}
use safe_cameroon.Domain.Alert.Vocabulary.{AlertVisibility, AlertField, AlertField_eq}

-- Internal and partner audiences may see fields that a community or the public may not.
unfoldable pub admits_internal_only_fields : AlertVisibility → Bool
admits_internal_only_fields AlertVisibility.internal = true
admits_internal_only_fields AlertVisibility.partner = true
admits_internal_only_fields _ = false

unfoldable pub is_forbidden : AlertField → Bool
is_forbidden AlertField.reporter_identity = true
is_forbidden _ = false

unfoldable pub is_restricted_to_internal_audiences : AlertField → Bool
is_restricted_to_internal_audiences AlertField.internal_notes = true
is_restricted_to_internal_audiences AlertField.exact_location = true
is_restricted_to_internal_audiences AlertField.witness_details = true
is_restricted_to_internal_audiences _ = false

pub record TargetGeography : Type 0 where
  pub as_str : String

pub data EmptyTargetGeography : Type 0 where
  empty_target_geography : EmptyTargetGeography

unfoldable pub target_geography_new : String → Result TargetGeography EmptyTargetGeography
target_geography_new description =
    let trimmed = trim description in
    if is_blank trimmed then err empty_target_geography else ok (record { as_str = trimmed })

pub data AlertPolicyError : Type 0 where
  empty_field_allowlist : AlertPolicyError
  field_never_allowed : AlertField → AlertPolicyError
  field_not_allowed_for_visibility : AlertField → AlertVisibility → AlertPolicyError
  trigger_before_verification : CaseEventType → AlertPolicyError

pub record AlertPolicy : Type 0 where
  pub id : String
  pub version : ℕ  -- u32
  pub incident_type : IncidentType
  pub visibility : AlertVisibility
  pub trigger : CaseEventType
  pub field_allowlist : List AlertField

-- The case events that occur only once a case is verified.
unfoldable pub is_trigger : CaseEventType → Bool
is_trigger CaseEventType.case_verified = true
is_trigger CaseEventType.case_activated = true
is_trigger CaseEventType.case_resolved = true
is_trigger _ = false

-- The restricted field that a policy for this audience may not list, if it lists one.
unfoldable pub first_restricted : AlertVisibility → List AlertField → Option AlertField
unfolding admits_internal_only_fields is_restricted_to_internal_audiences
first_restricted visibility fields =
    if not (admits_internal_only_fields visibility)
    then find is_restricted_to_internal_audiences fields
    else none

unfoldable pub policy_new :
    String
    → ℕ
    → IncidentType
    → AlertVisibility
    → CaseEventType
    → List AlertField
    → Result AlertPolicy AlertPolicyError
unfolding first_restricted is_forbidden is_trigger
policy_new id version incident_type visibility trigger field_allowlist =
    if is_empty field_allowlist
    then err empty_field_allowlist
    else elim (find is_forbidden field_allowlist) [
      | some field ↦ err (field_never_allowed field)
      | none ↦ elim (first_restricted visibility field_allowlist) [
        | some field ↦ err (field_not_allowed_for_visibility field visibility)
        | none ↦
            if not (is_trigger trigger)
            then err (trigger_before_verification trigger)
            else ok (record {
              id = id;
              version = version;
              incident_type = incident_type;
              visibility = visibility;
              trigger = trigger;
              field_allowlist = field_allowlist;
            })
      ]
    ]

abbrev pub community_fields : List AlertField
community_fields =
    AlertField.incident_category ∷ AlertField.approximate_age ∷ AlertField.last_seen_general_area
    ∷ AlertField.time_window ∷ AlertField.safe_description_en ∷ AlertField.safe_description_fr
    ∷ AlertField.official_contact ∷ AlertField.case_reference ∷ []

-- `expect` on a valid template: an error would be a panic.
unfoldable pub missing_child_community_v1 : Result AlertPolicy AlertPolicyError
unfolding policy_new
missing_child_community_v1 =
    policy_new "MISSING_CHILD_COMMUNITY" 1 IncidentType.missing_child AlertVisibility.community
      CaseEventType.case_verified community_fields

unfoldable pub allows_field : AlertPolicy → AlertField → Bool
allows_field policy field = contains policy.field_allowlist field
