-- ===== src/Workflow/Authorization/Grants.antt =====
-- Proofs about crates/application/src/authorization.rs.
use safe_cameroon.Common.{
  Result, Bool, true, false, err, ℕ, ◌≡◌, ◌≢◌, refl, ◌↔◌, ◌⊎◌, inl, inr, Option, none, some, ok,
  arith, ℕ_eq, Option_eq, subst, sym, beq_refl, Option-cases,
}
use safe_cameroon.Domain.Ids.{OrganizationId}
use safe_cameroon.Domain.Case.{IncidentType}
use safe_cameroon.Domain.Alert.{AlertVisibility}
use safe_cameroon.Domain.Organization.{Role, Role_eq, Role-discrete, Membership, Organization}
use safe_cameroon.Workflow.Authorization.{
  authorize_membership_grant, authorize_case_verification, authorize_alert_issuance,
  authorize_consumer_management, authorize_alert_cancellation,
}

-- The granter of a membership is a platform administrator, or an organization's administrator who
-- adds a plain member to it.
abbrev pub Covers : Membership → Membership → Type 0
Covers g m =
    (g.role ≡ Role.platform_admin)
    ⊎ ((g.role ≡ Role.org_admin)
        × (m.role ≡ Role.member)
        × (m.organization_id ≡ g.organization_id)
        × (g.organization_id ≢ none))

grant-Covers :
    (g m : Membership) (n : ℕ)
    → n ≢ 0
    → authorize_membership_grant (some g) n m.role m.organization_id ≡ ok tt
    → Covers g m
unfolding authorize_membership_grant Role-discrete
grant-Covers g m n h k = ground arith

Covers-grant :
    (g m : Membership) (n : ℕ)
    → Covers g m
    → authorize_membership_grant (some g) n m.role m.organization_id ≡ ok tt
unfolding authorize_membership_grant Role-discrete
Covers-grant g m n (inl admin) = ground arith
Covers-grant g m n (inr (ga, mm, same, some_org)) = elim (Option-cases g.organization_id) [
  | inl nowhere ↦ absurd (some_org nowhere)
  | inr (o, e) ↦ ground (arith, beq_refl o)
]

some-path : {g g' : Membership} → some g ≡ some g' → g ≡ g'
some-path e = cc

-- Once there is a reviewer, an authenticated reviewer may register exactly the memberships that
-- theirs covers, and nobody else may register any.
pub authorize_membership_grant-ok_iff :
    (granter : Option Membership) (m : Membership) (n : ℕ)
    → n ≢ 0
    → (authorize_membership_grant granter n m.role m.organization_id ≡ ok tt)
      ↔ ((g : Membership) × (granter ≡ some g) × Covers g m)
unfolding authorize_membership_grant Role-discrete
authorize_membership_grant-ok_iff none m n h =
    (λ k. absurd (ground arith), λ k. absurd (ground arith))
authorize_membership_grant-ok_iff (some g) m n h = (
  λ k. (g, refl, grant-Covers g m n h k),
  λ (g', e, c). Covers-grant g m n (subst (λ x. Covers x m) (sym (some-path e)) c),
)

-- The organization that a handler looks up for a membership.
abbrev pub organization_of :
    (OrganizationId → Option Organization) → Membership → Option Organization
organization_of find m = elim m.organization_id [ none ↦ none | some id ↦ find id ]

-- The first may and the second may not.
abbrev pub exceeds {ℓ} : {E : Type ℓ} → Result (Unit {0}) E → Result (Unit {0}) E → Bool
exceeds (ok _) (err _) = true
exceeds _ _ = false

-- Once there is a reviewer, nobody gives more than they have: what a registered membership may
-- verify, issue, manage or cancel, the membership of the reviewer who registered it may too.
pub grant_below :
    (find : OrganizationId → Option Organization) (g m : Membership) (n : ℕ) (t : IncidentType)
    (v : AlertVisibility) (owner issuer : Option OrganizationId)
    → n ≢ 0
    → authorize_membership_grant (some g) n m.role m.organization_id ≡ ok tt
    → (exceeds
          (authorize_case_verification m (organization_of find m) t)
          (authorize_case_verification g (organization_of find g) t)
        ≡ false)
      × (exceeds
            (authorize_alert_issuance m (organization_of find m) v)
            (authorize_alert_issuance g (organization_of find g) v)
          ≡ false)
      × (exceeds (authorize_consumer_management m owner) (authorize_consumer_management g owner)
          ≡ false)
      × (exceeds (authorize_alert_cancellation m issuer) (authorize_alert_cancellation g issuer)
          ≡ false)
unfolding authorize_case_verification authorize_alert_issuance authorize_consumer_management
    authorize_alert_cancellation Role-discrete
grant_below find g m n t v owner issuer h k = elim (grant-Covers g m n h k) [
  | inl admin ↦ (ground arith, ground arith, ground arith, ground arith)
  | inr (ga, mm, same, some_org) ↦ (
    rw (ga, mm, same) (ground arith),
    rw (ga, mm, same) (ground arith),
    ground arith,
    ground arith,
  )
]
