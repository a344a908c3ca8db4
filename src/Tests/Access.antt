-- ===== src/Tests/Access.antt =====
-- Access to the raw incidents: apps/api/src/organization_access.rs.
use safe_cameroon.Common.{
  ◌≡◌, ◌≢◌, ◌↔◌, ◌⊎◌, refl, true, false, [], ◌∷◌, none, some, ok, arith, strip_prefix,
}
use safe_cameroon.Domain.Organization.{Role}
use safe_cameroon.Infrastructure.SessionToken.{VerifiedSessionToken}
use safe_cameroon.Api.Access.{
  Directory, Environment, Request, revoke_all_sessions, platform_only, is_exempt,
  restrict_incident_access,
}
use safe_cameroon.Api.Access.Admission.{
  HasSession, IsAdministrator, restrict_incident_access-ok_iff,
}
use safe_cameroon.Api.Access.Revocation.{restrict_incident_access-revoked}

abbrev session : VerifiedSessionToken
session = record { reviewer_id = 7; issued_at = 1700 }

abbrev serving : Environment
serving = record {
  verify = λ token. some session;
  revocation_fails = false;
  membership_fails = false;
}

abbrev directory : Directory
directory = record {
  reviewers = (7, none) ∷ (8, none) ∷ [];
  memberships = (7, record { role = Role.platform_admin; organization_id = none }) ∷ [];
}

abbrev revoked : Directory
revoked = record {
  reviewers =
      revoke_all_sessions (revoke_all_sessions directory.reviewers 7 1700000001) 8 1800000000;
  memberships = directory.memberships;
}

abbrev reading : Request
reading = record {
  path = "/v1/cases/3";
  method = "GET";
  authorization = some (some "Bearer 7.44900.ab");
  request_id = 9;
}

restrict_incident_access-ok_iff_example :
    (restrict_incident_access serving directory reading ≡ ok tt) ↔ (
      (platform_only "/v1/cases/3" "GET" ≡ false)
      ⊎ ((v : VerifiedSessionToken) × HasSession serving directory reading.authorization v
          × IsAdministrator serving directory v.reviewer_id))
restrict_incident_access-ok_iff_example = restrict_incident_access-ok_iff serving directory reading

reading-platform_only : platform_only "/v1/cases/3" "GET" ≡ true
unfolding platform_only is_exempt
reading-platform_only = refl

reading-token : strip_prefix "Bearer 7.44900.ab" "Bearer " ≡ some "7.44900.ab"
unfolding strip_prefix
reading-token = refl

restrict_incident_access-revoked_example : restrict_incident_access serving revoked reading ≢ ok tt
restrict_incident_access-revoked_example =
    restrict_incident_access-revoked serving revoked reading (some "Bearer 7.44900.ab") "7.44900.ab"
      session directory.reviewers 1700000001 ((8, 1800000000) ∷ []) reading-platform_only refl
      reading-token refl (omega arith) (omega arith, tt) refl
