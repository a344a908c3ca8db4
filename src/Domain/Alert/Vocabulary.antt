-- ===== src/Domain/Alert/Vocabulary.antt =====
-- crates/domain/src/alert.rs: the closed vocabularies of alerts and alert policies. A value is written to the database by
-- `as_database_value` and read back by `from_database_value`.
use safe_cameroon.Common.{
  Eq, eq_of, String, List, [], ◌∷◌, Option, some, ◌≡◌, refl, match_arms, IsExact,
  match_arms-IsExact,
}

pub data AlertVisibility : Type 0 where
  internal partner community public : AlertVisibility

unfoldable pub AlertVisibility-discrete : Discrete AlertVisibility
AlertVisibility-discrete = hlevel

instance abbrev pub AlertVisibility_eq : Eq AlertVisibility
AlertVisibility_eq = eq_of AlertVisibility-discrete

unfoldable pub alert_visibility_as_database_value : AlertVisibility → String
alert_visibility_as_database_value AlertVisibility.internal = "INTERNAL"
alert_visibility_as_database_value AlertVisibility.partner = "PARTNER"
alert_visibility_as_database_value AlertVisibility.community = "COMMUNITY"
alert_visibility_as_database_value AlertVisibility.public = "PUBLIC"

abbrev pub alert_visibility_arms : List (String × AlertVisibility)
alert_visibility_arms =
    ("INTERNAL", AlertVisibility.internal)
    ∷ ("PARTNER", AlertVisibility.partner)
    ∷ ("COMMUNITY", AlertVisibility.community)
    ∷ ("PUBLIC", AlertVisibility.public)
    ∷ []

unfoldable pub alert_visibility_from_database_value : String → Option AlertVisibility
alert_visibility_from_database_value s = match_arms s alert_visibility_arms

alert_visibility_from_database_value-alert_visibility_as_database_value :
    (v : AlertVisibility)
    → alert_visibility_from_database_value (alert_visibility_as_database_value v) ≡ some v
unfolding alert_visibility_from_database_value alert_visibility_as_database_value
alert_visibility_from_database_value-alert_visibility_as_database_value AlertVisibility.internal =
    refl
alert_visibility_from_database_value-alert_visibility_as_database_value AlertVisibility.partner =
    refl
alert_visibility_from_database_value-alert_visibility_as_database_value AlertVisibility.community =
    refl
alert_visibility_from_database_value-alert_visibility_as_database_value AlertVisibility.public =
    refl

pub alert_visibility-IsExact :
    IsExact alert_visibility_as_database_value alert_visibility_from_database_value
unfolding alert_visibility_from_database_value alert_visibility_as_database_value
alert_visibility-IsExact =
    match_arms-IsExact alert_visibility_as_database_value alert_visibility_from_database_value
      alert_visibility_arms (λ s. refl) (refl, (refl, (refl, (refl, tt))))
      alert_visibility_from_database_value-alert_visibility_as_database_value

pub data AlertField : Type 0 where
  incident_category approximate_age last_seen_general_area time_window safe_description
        official_contact case_reference reporter_identity internal_notes exact_location
        witness_details safe_description_en safe_description_fr :
      AlertField

unfoldable pub AlertField-discrete : Discrete AlertField
AlertField-discrete = hlevel

instance abbrev pub AlertField_eq : Eq AlertField
AlertField_eq = eq_of AlertField-discrete

unfoldable pub alert_field_as_database_value : AlertField → String
alert_field_as_database_value AlertField.incident_category = "INCIDENT_CATEGORY"
alert_field_as_database_value AlertField.approximate_age = "APPROXIMATE_AGE"
alert_field_as_database_value AlertField.last_seen_general_area = "LAST_SEEN_GENERAL_AREA"
alert_field_as_database_value AlertField.time_window = "TIME_WINDOW"
alert_field_as_database_value AlertField.safe_description = "SAFE_DESCRIPTION"
alert_field_as_database_value AlertField.official_contact = "OFFICIAL_CONTACT"
alert_field_as_database_value AlertField.case_reference = "CASE_REFERENCE"
alert_field_as_database_value AlertField.reporter_identity = "REPORTER_IDENTITY"
alert_field_as_database_value AlertField.internal_notes = "INTERNAL_NOTES"
alert_field_as_database_value AlertField.exact_location = "EXACT_LOCATION"
alert_field_as_database_value AlertField.witness_details = "WITNESS_DETAILS"
alert_field_as_database_value AlertField.safe_description_en = "SAFE_DESCRIPTION_EN"
alert_field_as_database_value AlertField.safe_description_fr = "SAFE_DESCRIPTION_FR"

abbrev pub alert_field_arms : List (String × AlertField)
alert_field_arms =
    ("INCIDENT_CATEGORY", AlertField.incident_category)
    ∷ ("APPROXIMATE_AGE", AlertField.approximate_age)
    ∷ ("LAST_SEEN_GENERAL_AREA", AlertField.last_seen_general_area)
    ∷ ("TIME_WINDOW", AlertField.time_window)
    ∷ ("SAFE_DESCRIPTION", AlertField.safe_description)
    ∷ ("OFFICIAL_CONTACT", AlertField.official_contact)
    ∷ ("CASE_REFERENCE", AlertField.case_reference)
    ∷ ("REPORTER_IDENTITY", AlertField.reporter_identity)
    ∷ ("INTERNAL_NOTES", AlertField.internal_notes)
    ∷ ("EXACT_LOCATION", AlertField.exact_location)
    ∷ ("WITNESS_DETAILS", AlertField.witness_details)
    ∷ ("SAFE_DESCRIPTION_EN", AlertField.safe_description_en)
    ∷ ("SAFE_DESCRIPTION_FR", AlertField.safe_description_fr)
    ∷ []

unfoldable pub alert_field_from_database_value : String → Option AlertField
alert_field_from_database_value s = match_arms s alert_field_arms

alert_field_from_database_value-alert_field_as_database_value :
    (v : AlertField) → alert_field_from_database_value (alert_field_as_database_value v) ≡ some v
unfolding alert_field_from_database_value alert_field_as_database_value
alert_field_from_database_value-alert_field_as_database_value AlertField.incident_category = refl
alert_field_from_database_value-alert_field_as_database_value AlertField.approximate_age = refl
alert_field_from_database_value-alert_field_as_database_value AlertField.last_seen_general_area =
    refl
alert_field_from_database_value-alert_field_as_database_value AlertField.time_window = refl
alert_field_from_database_value-alert_field_as_database_value AlertField.safe_description = refl
alert_field_from_database_value-alert_field_as_database_value AlertField.official_contact = refl
alert_field_from_database_value-alert_field_as_database_value AlertField.case_reference = refl
alert_field_from_database_value-alert_field_as_database_value AlertField.reporter_identity = refl
alert_field_from_database_value-alert_field_as_database_value AlertField.internal_notes = refl
alert_field_from_database_value-alert_field_as_database_value AlertField.exact_location = refl
alert_field_from_database_value-alert_field_as_database_value AlertField.witness_details = refl
alert_field_from_database_value-alert_field_as_database_value AlertField.safe_description_en = refl
alert_field_from_database_value-alert_field_as_database_value AlertField.safe_description_fr = refl

pub alert_field-IsExact : IsExact alert_field_as_database_value alert_field_from_database_value
unfolding alert_field_from_database_value alert_field_as_database_value
alert_field-IsExact =
    match_arms-IsExact alert_field_as_database_value alert_field_from_database_value
      alert_field_arms (λ s. refl)
      (
        refl,
        (
          refl,
          (
            refl,
            (refl, (refl, (refl, (refl, (refl, (refl, (refl, (refl, (refl, (refl, tt)))))))))),
          ),
        ),
      )
      alert_field_from_database_value-alert_field_as_database_value

pub data Severity : Type 0 where
  low medium high critical : Severity

unfoldable pub Severity-discrete : Discrete Severity
Severity-discrete = hlevel

instance abbrev pub Severity_eq : Eq Severity
Severity_eq = eq_of Severity-discrete

unfoldable pub severity_as_database_value : Severity → String
severity_as_database_value Severity.low = "LOW"
severity_as_database_value Severity.medium = "MEDIUM"
severity_as_database_value Severity.high = "HIGH"
severity_as_database_value Severity.critical = "CRITICAL"

abbrev pub severity_arms : List (String × Severity)
severity_arms =
    ("LOW", Severity.low)
    ∷ ("MEDIUM", Severity.medium)
    ∷ ("HIGH", Severity.high)
    ∷ ("CRITICAL", Severity.critical)
    ∷ []

unfoldable pub severity_from_database_value : String → Option Severity
severity_from_database_value s = match_arms s severity_arms

severity_from_database_value-severity_as_database_value :
    (v : Severity) → severity_from_database_value (severity_as_database_value v) ≡ some v
unfolding severity_from_database_value severity_as_database_value
severity_from_database_value-severity_as_database_value Severity.low = refl
severity_from_database_value-severity_as_database_value Severity.medium = refl
severity_from_database_value-severity_as_database_value Severity.high = refl
severity_from_database_value-severity_as_database_value Severity.critical = refl

pub severity-IsExact : IsExact severity_as_database_value severity_from_database_value
unfolding severity_from_database_value severity_as_database_value
severity-IsExact =
    match_arms-IsExact severity_as_database_value severity_from_database_value severity_arms
      (λ s. refl) (refl, (refl, (refl, (refl, tt))))
      severity_from_database_value-severity_as_database_value

pub data AlertStatus : Type 0 where
  active cancelled : AlertStatus

unfoldable pub AlertStatus-discrete : Discrete AlertStatus
AlertStatus-discrete = hlevel

instance abbrev pub AlertStatus_eq : Eq AlertStatus
AlertStatus_eq = eq_of AlertStatus-discrete

unfoldable pub alert_status_as_database_value : AlertStatus → String
alert_status_as_database_value AlertStatus.active = "ACTIVE"
alert_status_as_database_value AlertStatus.cancelled = "CANCELLED"

abbrev pub alert_status_arms : List (String × AlertStatus)
alert_status_arms = ("ACTIVE", AlertStatus.active) ∷ ("CANCELLED", AlertStatus.cancelled) ∷ []

unfoldable pub alert_status_from_database_value : String → Option AlertStatus
alert_status_from_database_value s = match_arms s alert_status_arms

alert_status_from_database_value-alert_status_as_database_value :
    (v : AlertStatus) → alert_status_from_database_value (alert_status_as_database_value v) ≡ some v
unfolding alert_status_from_database_value alert_status_as_database_value
alert_status_from_database_value-alert_status_as_database_value AlertStatus.active = refl
alert_status_from_database_value-alert_status_as_database_value AlertStatus.cancelled = refl

pub alert_status-IsExact : IsExact alert_status_as_database_value alert_status_from_database_value
unfolding alert_status_from_database_value alert_status_as_database_value
alert_status-IsExact =
    match_arms-IsExact alert_status_as_database_value alert_status_from_database_value
      alert_status_arms (λ s. refl) (refl, (refl, tt))
      alert_status_from_database_value-alert_status_as_database_value

pub data AlertEventType : Type 0 where
  alert_created alert_cancelled : AlertEventType

unfoldable pub AlertEventType-discrete : Discrete AlertEventType
AlertEventType-discrete = hlevel

instance abbrev pub AlertEventType_eq : Eq AlertEventType
AlertEventType_eq = eq_of AlertEventType-discrete

unfoldable pub alert_event_type_as_database_value : AlertEventType → String
alert_event_type_as_database_value AlertEventType.alert_created = "ALERT_CREATED"
alert_event_type_as_database_value AlertEventType.alert_cancelled = "ALERT_CANCELLED"
