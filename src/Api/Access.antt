-- ===== src/Api/Access.antt =====
-- apps/api/src/organization_access.rs and reviewer.rs, with the queries of
-- crates/infrastructure/src/postgres/reviewers.rs and organizations.rs that they make: who may reach the
-- raw incidents. What the verification of a session token returns is the environment's, which also
-- says whether a query fails; a request that passes is left to its handler.
pub mod Admission
pub mod Revocation
use text.Mathlib.Text.{starts_with}
use safe_cameroon.Common.{
  ℕ, String, ◌*◌, Bool, true, false, List, [], ◌∷◌, map, Option, none, some, Result, ok, err,
  if◌then◌else◌, ◌==◌, ◌&&◌, ◌||◌, ltb, String_eq, ℕ_eq, strip_prefix, ends_with,
}
use safe_cameroon.Domain.Ids.{Uuid}
use safe_cameroon.Domain.Organization.{Role, Role_eq, Membership}
use safe_cameroon.Workflow.Case.{Actor, reviewer, automated}
use safe_cameroon.Infrastructure.SessionToken.{VerifiedSessionToken}
use safe_cameroon.Api.Error.{ApiError}

-- The column `sessions_revoked_at` of `reviewers`, in microseconds, and the memberships.
pub record Directory : Type 0 where
  pub reviewers : List (Uuid × Option ℕ)
  pub memberships : List (Uuid × Membership)

pub record Environment : Type 0 where
  pub verify : String → Option VerifiedSessionToken
  pub revocation_fails : Bool
  pub membership_fails : Bool

-- `authorization` is the header: absent, not readable as text, or a text.
pub record Request : Type 0 where
  pub path : String
  pub method : String
  pub authorization : Option (Option String)
  pub request_id : Uuid

-- `issued_at` is compared in microseconds, as the column keeps them.
abbrev is_newer : Option ℕ → ℕ → Bool
is_newer none issued_at = false
is_newer (some revoked_at) issued_at = ltb (issued_at * 1000000) revoked_at

-- The query's row is absent when no such reviewer exists.
unfoldable pub is_session_revoked : List (Uuid × Option ℕ) → Uuid → ℕ → Bool
is_session_revoked [] reviewer_id issued_at = true
is_session_revoked (row ∷ rows) reviewer_id issued_at =
    if row.0 == reviewer_id
    then is_newer row.1 issued_at
    else is_session_revoked rows reviewer_id issued_at

unfoldable pub revoke_all_sessions : List (Uuid × Option ℕ) → Uuid → ℕ → List (Uuid × Option ℕ)
revoke_all_sessions rows reviewer_id now =
    map (λ row. if row.0 == reviewer_id then (row.0, some now) else row) rows

unfoldable pub find_membership : List (Uuid × Membership) → Uuid → Option Membership
find_membership [] reviewer_id = none
find_membership (row ∷ rows) reviewer_id =
    if row.0 == reviewer_id then some row.1 else find_membership rows reviewer_id

unfoldable pub invalid_or_expired_session : Uuid → ApiError
invalid_or_expired_session request_id = record {
  status = 401;
  code = "INVALID_OR_EXPIRED_SESSION";
  message = "The session token is invalid or has expired.";
  request_id = request_id;
}

abbrev invalid_authorization_header : Uuid → ApiError
invalid_authorization_header request_id = record {
  status = 401;
  code = "INVALID_AUTHORIZATION_HEADER";
  message = "Authorization must be a Bearer session token.";
  request_id = request_id;
}

abbrev session_revocation_check_failed : Uuid → ApiError
session_revocation_check_failed request_id = record {
  status = 500;
  code = "SESSION_REVOCATION_CHECK_FAILED";
  message = "Could not verify the session. Please try again.";
  request_id = request_id;
}

abbrev pub bearer_prefix : String
bearer_prefix = "Bearer "

abbrev pub bearer_token : Option String → Option String
bearer_token none = none
bearer_token (some value) = strip_prefix value bearer_prefix

-- The token's session, unless its reviewer's sessions were revoked after it was issued.
unfoldable pub actor_of_session :
    Environment → Directory → VerifiedSessionToken → Uuid → Result Actor ApiError
actor_of_session env directory verified request_id =
    if env.revocation_fails
    then err (session_revocation_check_failed request_id)
    else if is_session_revoked directory.reviewers verified.reviewer_id verified.issued_at
    then err (invalid_or_expired_session request_id)
    else ok (reviewer verified.reviewer_id)

unfoldable pub actor_from_headers :
    Environment → Directory → Option (Option String) → Uuid → Result Actor ApiError
actor_from_headers env directory none request_id = ok automated
actor_from_headers env directory (some value) request_id = elim (bearer_token value) [
  | none ↦ err (invalid_authorization_header request_id)
  | some token ↦ elim (env.verify token) [
    | none ↦ err (invalid_or_expired_session request_id)
    | some verified ↦ actor_of_session env directory verified request_id
  ]
]

unfoldable pub denied : Uuid → ApiError
denied request_id = record {
  status = 403;
  code = "NOT_AUTHORIZED";
  message = "This operation requires platform administrator access.";
  request_id = request_id;
}

abbrev authorization_lookup_failed : Uuid → ApiError
authorization_lookup_failed request_id = record {
  status = 500;
  code = "AUTHORIZATION_LOOKUP_FAILED";
  message = "Could not verify access. Please try again.";
  request_id = request_id;
}

unfoldable pub membership : Environment → Directory → Actor → Uuid → Result Membership ApiError
membership env directory automated request_id = err (denied request_id)
membership env directory (reviewer id) request_id =
    if env.membership_fails
    then err (authorization_lookup_failed request_id)
    else elim (find_membership directory.memberships id) [
      | none ↦ err (denied request_id)
      | some found ↦ ok found
    ]

-- The four early returns: requests with a check of their own.
unfoldable pub is_exempt : String → String → Bool
is_exempt path method =
    method == "POST"
    && (path == "/v1/reports"
        || path == "/v1/reports/transcribe-audio"
        || starts_with path "/v1/reports/" && ends_with path "/attachments"
        || path == "/v1/cases"
        || starts_with path "/v1/cases/" && ends_with path "/events"
        || starts_with path "/v1/cases/" && ends_with path "/verify"
        || starts_with path "/v1/cases/" && ends_with path "/alerts")

unfoldable pub platform_only : String → String → Bool
platform_only path method =
    if is_exempt path method
    then false
    else (path == "/v1/reports"
        || starts_with path "/v1/reports/"
        || starts_with path "/v1/attachments/"
        || path == "/v1/cases"
        || starts_with path "/v1/cases/"
        || path == "/v1/audit-events"
        || starts_with path "/v1/deliveries/"
        || starts_with path "/v1/alerts/" && ends_with path "/deliveries"
        || path == "/v1/consumers")

-- The test on the role that `membership` found.
unfoldable pub require_platform_admin :
    Result Membership ApiError → Uuid → Result (Unit {0}) ApiError
require_platform_admin (err e) request_id = err e
require_platform_admin (ok found) request_id =
    if found.role == Role.platform_admin then ok tt else err (denied request_id)

abbrev pub admit_actor :
    Environment → Directory → Result Actor ApiError → Uuid → Result (Unit {0}) ApiError
admit_actor env directory (err e) request_id = err e
admit_actor env directory (ok actor) request_id =
    require_platform_admin (membership env directory actor request_id) request_id

-- `ok` is where `next.run` is called.
unfoldable pub restrict_incident_access :
    Environment → Directory → Request → Result (Unit {0}) ApiError
restrict_incident_access env directory request =
    if platform_only request.path request.method
    then admit_actor env directory
        (actor_from_headers env directory request.authorization request.request_id)
        request.request_id
    else ok tt
