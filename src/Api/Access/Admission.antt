-- ===== src/Api/Access/Admission.antt =====
-- Proofs about apps/api/src/organization_access.rs and reviewer.rs: who passes.
use safe_cameroon.Common.{
  String, false, Option, none, some, Result, ok, err, ◌≡◌, refl, ◌↔◌, ◌⊎◌, inl, inr, arith,
  Option-cases, Bool-cases, sym, subst,
}
use safe_cameroon.Domain.Ids.{Uuid}
use safe_cameroon.Domain.Organization.{Role, Role-discrete, Membership}
use safe_cameroon.Workflow.Case.{Actor, reviewer, automated}
use safe_cameroon.Api.Error.{ApiError}
use safe_cameroon.Infrastructure.SessionToken.{VerifiedSessionToken}
use safe_cameroon.Api.Access.{
  Directory, Environment, Request, bearer_token, is_session_revoked, find_membership,
  actor_of_session, actor_from_headers, membership, platform_only, require_platform_admin,
  admit_actor, restrict_incident_access,
}

-- The header carries the token of a session that is in force.
abbrev pub HasSession :
    Environment → Directory → Option (Option String) → VerifiedSessionToken → Type 0
HasSession env directory authorization v =
    (value : Option String) × (token : String) × (authorization ≡ some value)
    × (bearer_token value ≡ some token)
    × (env.verify token ≡ some v)
    × (env.revocation_fails ≡ false)
    × (is_session_revoked directory.reviewers v.reviewer_id v.issued_at ≡ false)

abbrev pub IsAdministrator : Environment → Directory → Uuid → Type 0
IsAdministrator env directory id =
    (m : Membership) × (env.membership_fails ≡ false)
    × (find_membership directory.memberships id ≡ some m)
    × (m.role ≡ Role.platform_admin)

session-inverse :
    (env : Environment) (directory : Directory) (v : VerifiedSessionToken) (id request_id : Uuid)
    → actor_of_session env directory v request_id ≡ ok (reviewer id)
    → (env.revocation_fails ≡ false)
      × (is_session_revoked directory.reviewers v.reviewer_id v.issued_at ≡ false)
      × (v.reviewer_id ≡ id)
unfolding actor_of_session
session-inverse env directory v id request_id h = ground arith

actor-HasSession :
    (env : Environment) (directory : Directory) (authorization : Option (Option String))
    (id request_id : Uuid)
    → actor_from_headers env directory authorization request_id ≡ ok (reviewer id)
    → (v : VerifiedSessionToken) × HasSession env directory authorization v × (v.reviewer_id ≡ id)
unfolding actor_from_headers
actor-HasSession env directory none id request_id h = absurd (ground arith)
actor-HasSession env directory (some value) id request_id h =
    elim (Option-cases (bearer_token value)) [
      | inl unread ↦ absurd (ground (arith, unread))
      | inr (token, read) ↦ elim (Option-cases (env.verify token)) [
        | inl unknown ↦ absurd (ground (arith, read, unknown))
        | inr (v, known) ↦
            let p : actor_of_session env directory v request_id ≡ ok (reviewer id) =
              ground (arith, read, known) in
            let q = session-inverse env directory v id request_id p in
            (v, (value, token, refl, read, known, q.0, q.1), q.2)
      ]
    ]

HasSession-actor :
    (env : Environment) (directory : Directory) (authorization : Option (Option String))
    (v : VerifiedSessionToken) (request_id : Uuid)
    → HasSession env directory authorization v
    → actor_from_headers env directory authorization request_id ≡ ok (reviewer v.reviewer_id)
unfolding actor_from_headers actor_of_session
HasSession-actor env directory authorization v request_id
      (value, token, here, read, known, works, fresh) =
    ground (arith, here, read, known, works, fresh)

admit-IsAdministrator :
    (env : Environment) (directory : Directory) (actor : Result Actor ApiError) (request_id : Uuid)
    → admit_actor env directory actor request_id ≡ ok tt
    → (id : Uuid) × (actor ≡ ok (reviewer id)) × IsAdministrator env directory id
unfolding membership require_platform_admin Role-discrete
admit-IsAdministrator env directory (err e) request_id h = absurd (ground arith)
admit-IsAdministrator env directory (ok automated) request_id h = absurd (ground arith)
admit-IsAdministrator env directory (ok (reviewer id)) request_id h =
    elim (Option-cases (find_membership directory.memberships id)) [
      | inl nobody ↦ absurd (ground (arith, nobody))
      | inr (m, found) ↦ (id, refl, (m, ground (arith, found), found, ground (arith, found)))
    ]

IsAdministrator-admit :
    (env : Environment) (directory : Directory) (id request_id : Uuid)
    → IsAdministrator env directory id
    → admit_actor env directory (ok (reviewer id)) request_id ≡ ok tt
unfolding membership require_platform_admin Role-discrete
IsAdministrator-admit env directory id request_id (m, works, found, admin) =
    rw works (rw found (rw admin refl))

-- A request reaches its handler exactly when its path is open to organizations, or it carries a bearer
-- token that verifies as a session whose reviewer has not had it revoked and is a platform
-- administrator: neither an absent, unreadable or unverified header nor a failed query lets it pass.
pub restrict_incident_access-ok_iff :
    (env : Environment) (directory : Directory) (request : Request)
    → (restrict_incident_access env directory request ≡ ok tt) ↔ (
        (platform_only request.path request.method ≡ false)
        ⊎ ((v : VerifiedSessionToken) × HasSession env directory request.authorization v
            × IsAdministrator env directory v.reviewer_id))
unfolding restrict_incident_access
restrict_incident_access-ok_iff env directory request =
    elim (Bool-cases (platform_only request.path request.method)) [
      | inr exempt ↦ (λ h. inl exempt, λ h. rw exempt)
      | inl closed ↦ (
        (λ h.
            let admitted =
              admit-IsAdministrator env directory
                (actor_from_headers env directory request.authorization request.request_id)
                request.request_id (rw closed at h) in
            let session =
              actor-HasSession env directory request.authorization admitted.0 request.request_id
                admitted.1 in
            inr (
              session.0,
              session.1,
              subst (IsAdministrator env directory) (sym session.2) admitted.2,
            )),
        λ h. elim h [
          | inl exempt ↦ rw exempt
          | inr (v, session, admin) ↦ rw closed (
              rw (HasSession-actor env directory request.authorization v request.request_id session)
                (IsAdministrator-admit env directory v.reviewer_id request.request_id admin))
        ],
      )
    ]
