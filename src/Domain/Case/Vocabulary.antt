-- ===== src/Domain/Case/Vocabulary.antt =====
-- crates/domain/src/case.rs: the closed vocabularies of a case. A value is written to the database by
-- `as_database_value` and read back by `from_database_value`.
use safe_cameroon.Common.{
  Eq, eq_of, String, List, [], ◌∷◌, Option, some, ◌≡◌, refl, match_arms, IsExact,
  match_arms-IsExact,
}

pub data IncidentType : Type 0 where
  missing_child other_protection_incident : IncidentType

unfoldable pub IncidentType-discrete : Discrete IncidentType
IncidentType-discrete = hlevel

instance abbrev pub IncidentType_eq : Eq IncidentType
IncidentType_eq = eq_of IncidentType-discrete

unfoldable pub incident_type_as_database_value : IncidentType → String
incident_type_as_database_value IncidentType.missing_child = "MISSING_CHILD"
incident_type_as_database_value IncidentType.other_protection_incident = "OTHER_PROTECTION_INCIDENT"

abbrev pub incident_type_arms : List (String × IncidentType)
incident_type_arms =
    ("MISSING_CHILD", IncidentType.missing_child)
    ∷ ("OTHER_PROTECTION_INCIDENT", IncidentType.other_protection_incident)
    ∷ []

unfoldable pub incident_type_from_database_value : String → Option IncidentType
incident_type_from_database_value s = match_arms s incident_type_arms

incident_type_from_database_value-incident_type_as_database_value :
    (v : IncidentType)
    → incident_type_from_database_value (incident_type_as_database_value v) ≡ some v
unfolding incident_type_from_database_value incident_type_as_database_value
incident_type_from_database_value-incident_type_as_database_value IncidentType.missing_child = refl
incident_type_from_database_value-incident_type_as_database_value
      IncidentType.other_protection_incident =
    refl

pub incident_type-IsExact :
    IsExact incident_type_as_database_value incident_type_from_database_value
unfolding incident_type_from_database_value incident_type_as_database_value
incident_type-IsExact =
    match_arms-IsExact incident_type_as_database_value incident_type_from_database_value
      incident_type_arms (λ s. refl) (refl, (refl, tt))
      incident_type_from_database_value-incident_type_as_database_value

pub data CaseStatus : Type 0 where
  reported under_review verified active resolved cancelled rejected : CaseStatus

unfoldable pub CaseStatus-discrete : Discrete CaseStatus
CaseStatus-discrete = hlevel

instance abbrev pub CaseStatus_eq : Eq CaseStatus
CaseStatus_eq = eq_of CaseStatus-discrete

unfoldable pub case_status_as_database_value : CaseStatus → String
case_status_as_database_value CaseStatus.reported = "REPORTED"
case_status_as_database_value CaseStatus.under_review = "UNDER_REVIEW"
case_status_as_database_value CaseStatus.verified = "VERIFIED"
case_status_as_database_value CaseStatus.active = "ACTIVE"
case_status_as_database_value CaseStatus.resolved = "RESOLVED"
case_status_as_database_value CaseStatus.cancelled = "CANCELLED"
case_status_as_database_value CaseStatus.rejected = "REJECTED"

abbrev pub case_status_arms : List (String × CaseStatus)
case_status_arms =
    ("REPORTED", CaseStatus.reported)
    ∷ ("UNDER_REVIEW", CaseStatus.under_review)
    ∷ ("VERIFIED", CaseStatus.verified)
    ∷ ("ACTIVE", CaseStatus.active)
    ∷ ("RESOLVED", CaseStatus.resolved)
    ∷ ("CANCELLED", CaseStatus.cancelled)
    ∷ ("REJECTED", CaseStatus.rejected)
    ∷ []

unfoldable pub case_status_from_database_value : String → Option CaseStatus
case_status_from_database_value s = match_arms s case_status_arms

case_status_from_database_value-case_status_as_database_value :
    (v : CaseStatus) → case_status_from_database_value (case_status_as_database_value v) ≡ some v
unfolding case_status_from_database_value case_status_as_database_value
case_status_from_database_value-case_status_as_database_value CaseStatus.reported = refl
case_status_from_database_value-case_status_as_database_value CaseStatus.under_review = refl
case_status_from_database_value-case_status_as_database_value CaseStatus.verified = refl
case_status_from_database_value-case_status_as_database_value CaseStatus.active = refl
case_status_from_database_value-case_status_as_database_value CaseStatus.resolved = refl
case_status_from_database_value-case_status_as_database_value CaseStatus.cancelled = refl
case_status_from_database_value-case_status_as_database_value CaseStatus.rejected = refl

pub case_status-IsExact : IsExact case_status_as_database_value case_status_from_database_value
unfolding case_status_from_database_value case_status_as_database_value
case_status-IsExact =
    match_arms-IsExact case_status_as_database_value case_status_from_database_value
      case_status_arms (λ s. refl) (refl, (refl, (refl, (refl, (refl, (refl, (refl, tt)))))))
      case_status_from_database_value-case_status_as_database_value

pub data CaseEventType : Type 0 where
  case_created case_report_linked case_under_review case_verified case_activated case_resolved
        case_cancelled case_rejected :
      CaseEventType

unfoldable pub CaseEventType-discrete : Discrete CaseEventType
CaseEventType-discrete = hlevel

instance abbrev pub CaseEventType_eq : Eq CaseEventType
CaseEventType_eq = eq_of CaseEventType-discrete

unfoldable pub case_event_type_as_database_value : CaseEventType → String
case_event_type_as_database_value CaseEventType.case_created = "CASE_CREATED"
case_event_type_as_database_value CaseEventType.case_report_linked = "CASE_REPORT_LINKED"
case_event_type_as_database_value CaseEventType.case_under_review = "CASE_UNDER_REVIEW"
case_event_type_as_database_value CaseEventType.case_verified = "CASE_VERIFIED"
case_event_type_as_database_value CaseEventType.case_activated = "CASE_ACTIVATED"
case_event_type_as_database_value CaseEventType.case_resolved = "CASE_RESOLVED"
case_event_type_as_database_value CaseEventType.case_cancelled = "CASE_CANCELLED"
case_event_type_as_database_value CaseEventType.case_rejected = "CASE_REJECTED"

abbrev pub case_event_type_arms : List (String × CaseEventType)
case_event_type_arms =
    ("CASE_CREATED", CaseEventType.case_created)
    ∷ ("CASE_REPORT_LINKED", CaseEventType.case_report_linked)
    ∷ ("CASE_UNDER_REVIEW", CaseEventType.case_under_review)
    ∷ ("CASE_VERIFIED", CaseEventType.case_verified)
    ∷ ("CASE_ACTIVATED", CaseEventType.case_activated)
    ∷ ("CASE_RESOLVED", CaseEventType.case_resolved)
    ∷ ("CASE_CANCELLED", CaseEventType.case_cancelled)
    ∷ ("CASE_REJECTED", CaseEventType.case_rejected)
    ∷ []

unfoldable pub case_event_type_from_database_value : String → Option CaseEventType
case_event_type_from_database_value s = match_arms s case_event_type_arms

case_event_type_from_database_value-case_event_type_as_database_value :
    (v : CaseEventType)
    → case_event_type_from_database_value (case_event_type_as_database_value v) ≡ some v
unfolding case_event_type_from_database_value case_event_type_as_database_value
case_event_type_from_database_value-case_event_type_as_database_value CaseEventType.case_created =
    refl
case_event_type_from_database_value-case_event_type_as_database_value
      CaseEventType.case_report_linked =
    refl
case_event_type_from_database_value-case_event_type_as_database_value
      CaseEventType.case_under_review =
    refl
case_event_type_from_database_value-case_event_type_as_database_value CaseEventType.case_verified =
    refl
case_event_type_from_database_value-case_event_type_as_database_value CaseEventType.case_activated =
    refl
case_event_type_from_database_value-case_event_type_as_database_value CaseEventType.case_resolved =
    refl
case_event_type_from_database_value-case_event_type_as_database_value CaseEventType.case_cancelled =
    refl
case_event_type_from_database_value-case_event_type_as_database_value CaseEventType.case_rejected =
    refl

pub case_event_type-IsExact :
    IsExact case_event_type_as_database_value case_event_type_from_database_value
unfolding case_event_type_from_database_value case_event_type_as_database_value
case_event_type-IsExact =
    match_arms-IsExact case_event_type_as_database_value case_event_type_from_database_value
      case_event_type_arms (λ s. refl)
      (refl, (refl, (refl, (refl, (refl, (refl, (refl, (refl, tt))))))))
      case_event_type_from_database_value-case_event_type_as_database_value
