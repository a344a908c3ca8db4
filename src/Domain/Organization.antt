-- ===== src/Domain/Organization.antt =====
-- crates/domain/src/organization.rs: organizations with their trust grants, and memberships.
mod Vocabulary
unfoldable pub use Vocabulary.*
use safe_cameroon.Common.{
  String, Bool, true, false, List, [], Option, none, Result, ok, err, is_blank, trim, contains,
  if◌then◌else◌,
}
use safe_cameroon.Domain.Ids.{OrganizationId, ConsumerId}
use safe_cameroon.Domain.Case.{IncidentType, IncidentType_eq}
use safe_cameroon.Domain.Alert.{AlertVisibility, AlertVisibility_eq}

pub record Membership : Type 0 where
  pub role : Role
  pub organization_id : Option OrganizationId

pub data EmptyOrganizationName : Type 0 where
  empty_organization_name : EmptyOrganizationName

pub record Organization : Type 0 where
  pub id : OrganizationId
  pub name : String
  pub description : Option String
  pub location : Option String
  pub contact : Option String
  pub verified_incident_types : List IncidentType
  pub verified_alert_visibilities : List AlertVisibility
  pub consumer_id : Option ConsumerId
  pub is_active : Bool

unfoldable pub organization_new :
    OrganizationId → String → Result Organization EmptyOrganizationName
organization_new id name =
    let trimmed = trim name in
    if is_blank trimmed
    then err empty_organization_name
    else ok (record {
      id = id;
      name = trimmed;
      description = none;
      location = none;
      contact = none;
      verified_incident_types = [];
      verified_alert_visibilities = [];
      consumer_id = none;
      is_active = true;
    })

unfoldable pub with_profile : Organization → Option String → Option String → Organization
with_profile o description location = record o { description = description; location = location }

unfoldable pub organization_reconstitute :
    OrganizationId
    → String
    → Option String
    → Option String
    → List IncidentType
    → List AlertVisibility
    → Option ConsumerId
    → Bool
    → Organization
organization_reconstitute id name description location incident_types visibilities consumer_id
      is_active =
    record {
      id = id;
      name = name;
      description = description;
      location = location;
      contact = none;
      verified_incident_types = incident_types;
      verified_alert_visibilities = visibilities;
      consumer_id = consumer_id;
      is_active = is_active;
    }

unfoldable pub with_contact : Organization → Option String → Organization
with_contact o contact = record o { contact = contact }

unfoldable pub may_verify : Organization → IncidentType → Bool
may_verify o incident_type = contains o.verified_incident_types incident_type

unfoldable pub may_issue_alert : Organization → AlertVisibility → Bool
may_issue_alert o visibility = contains o.verified_alert_visibilities visibility
