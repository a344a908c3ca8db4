-- ===== src/Api/Access/Revocation.antt =====
-- Proofs about reviewers.rs and reviewer.rs: sessions that were revoked stay so.
use safe_cameroon.Common.{
  ℕ, ◌*◌, ◌<◌, String, true, List, [], ◌∷◌, Option, some, ok, ◌≡◌, ◌≢◌, refl, inl, inr, arith, sym,
  ◌∙◌, All, ℕ_eq,
}
use safe_cameroon.Domain.Ids.{Uuid}
use safe_cameroon.Infrastructure.SessionToken.{VerifiedSessionToken}
use safe_cameroon.Api.Access.{
  Directory, Environment, Request, bearer_token, is_session_revoked, revoke_all_sessions,
  platform_only, restrict_incident_access,
}
use safe_cameroon.Api.Access.Admission.{restrict_incident_access-ok_iff}

revoked_now :
    (rows : List (Uuid × Option ℕ)) (id issued_at now : ℕ)
    → issued_at * 1000000 < now
    → is_session_revoked (revoke_all_sessions rows id now) id issued_at ≡ true
unfolding is_session_revoked revoke_all_sessions
revoked_now [] id issued_at now h = refl
revoked_now (row ∷ rows) id issued_at now h = ground (arith, revoked_now rows id issued_at now h)

revoked_still :
    (rows : List (Uuid × Option ℕ)) (id other issued_at now : ℕ)
    → issued_at * 1000000 < now
    → is_session_revoked rows id issued_at ≡ true
    → is_session_revoked (revoke_all_sessions rows other now) id issued_at ≡ true
unfolding is_session_revoked revoke_all_sessions
revoked_still [] id other issued_at now h revoked = refl
revoked_still (row ∷ rows) id other issued_at now h revoked =
    ground (arith, revoked_still rows id other issued_at now h)

-- The table after revocations, each of a reviewer at a time.
abbrev pub revoke_each : List (Uuid × Option ℕ) → List (Uuid × ℕ) → List (Uuid × Option ℕ)
revoke_each rows [] = rows
revoke_each rows (revocation ∷ later) =
    revoke_each (revoke_all_sessions rows revocation.0 revocation.1) later

revoked_each :
    (rows : List (Uuid × Option ℕ)) (id issued_at : ℕ) (later : List (Uuid × ℕ))
    → is_session_revoked rows id issued_at ≡ true
    → All (λ revocation. issued_at * 1000000 < revocation.1) later
    → is_session_revoked (revoke_each rows later) id issued_at ≡ true
revoked_each rows id issued_at [] revoked h = revoked
revoked_each rows id issued_at ((other, now) ∷ later) revoked h =
    revoked_each (revoke_all_sessions rows other now) id issued_at later
      (revoked_still rows id other issued_at now h.0 revoked) h.1

-- Once all sessions of a reviewer have been revoked, a token that was issued to that reviewer before,
-- in seconds against the microseconds of the revocation, opens no platform path again, whatever the
-- memberships are, and whichever reviewers' sessions are revoked afterwards, at times that are after
-- the issue as well.
pub restrict_incident_access-revoked :
    (env : Environment) (directory : Directory) (request : Request) (value : Option String)
    (token : String) (v : VerifiedSessionToken) (rows : List (Uuid × Option ℕ)) (now : ℕ)
    (later : List (Uuid × ℕ))
    → platform_only request.path request.method ≡ true
    → request.authorization ≡ some value
    → bearer_token value ≡ some token
    → env.verify token ≡ some v
    → v.issued_at * 1000000 < now
    → All (λ revocation. v.issued_at * 1000000 < revocation.1) later
    → directory.reviewers ≡ revoke_each (revoke_all_sessions rows v.reviewer_id now) later
    → restrict_incident_access env directory request ≢ ok tt
restrict_incident_access-revoked env directory request value token v rows now later closed here read
      known before after table h =
    let revoked : is_session_revoked directory.reviewers v.reviewer_id v.issued_at ≡ true =
      rw table (
        revoked_each (revoke_all_sessions rows v.reviewer_id now) v.reviewer_id v.issued_at later
          (revoked_now rows v.reviewer_id v.issued_at now before) after) in
    elim ((restrict_incident_access-ok_iff env directory request).0 h) [
      | inl exempt ↦ cc
      | inr (v', (value', token', here', read', known', works, fresh), admin) ↦
          let same_value : some value ≡ some value' = sym here ∙ here' in
          let same_token : some token ≡ some token' = cc in let same : some v ≡ some v' = cc in cc
    ]
