-- ===== src/Domain/Extraction.antt =====
-- crates/domain/src/extraction.rs: the fields that a model suggests for a report.
use safe_cameroon.Common.{
  String, Bool, true, false, ◌&&◌, Option, none, some, is_blank, trim, if◌then◌else◌,
}

pub record ExtractedReportFields : Type 0 where
  pub person_description : Option String
  pub age : Option String
  pub time : Option String
  pub place : Option String
  pub incident_category : Option String
  pub vehicle_details : Option String
  pub contact_request : Option String

unfoldable pub normalize : Option String → Option String
normalize none = none
normalize (some value) = let trimmed = trim value in if is_blank trimmed then none else some trimmed

unfoldable pub extracted_fields_new :
    Option String
    → Option String
    → Option String
    → Option String
    → Option String
    → Option String
    → Option String
    → ExtractedReportFields
unfolding normalize
extracted_fields_new person_description age time place incident_category vehicle_details contact =
    record {
      person_description = normalize person_description;
      age = normalize age;
      time = normalize time;
      place = normalize place;
      incident_category = normalize incident_category;
      vehicle_details = normalize vehicle_details;
      contact_request = normalize contact;
    }

abbrev pub is_none {ℓ} : {A : Type ℓ} → Option A → Bool
is_none none = true
is_none (some _) = false

unfoldable pub extracted_fields_is_empty : ExtractedReportFields → Bool
extracted_fields_is_empty f =
    is_none f.person_description
    && is_none f.age
    && is_none f.time
    && is_none f.place
    && is_none f.incident_category
    && is_none f.vehicle_details
    && is_none f.contact_request
