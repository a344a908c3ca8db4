-- ===== src/Workflow/Authorization.antt =====
-- crates/application/src/authorization.rs: what an actor, and what a reviewer's membership, may do.
pub mod Grants
use safe_cameroon.Common.{
  ℕ, Bool, true, false, ◌&&◌, Option, none, some, Result, ok, err, nat_eq, if◌then◌else◌, ◌==◌,
  ℕ_eq, Option_eq,
}
use safe_cameroon.Domain.Ids.{OrganizationId}
use safe_cameroon.Domain.Case.{IncidentType}
use safe_cameroon.Domain.Alert.{AlertVisibility}
use safe_cameroon.Domain.Organization.{
  Role, Role_eq, Membership, Organization, may_verify, may_issue_alert,
}
use safe_cameroon.Workflow.Case.{Actor, reviewer, automated}

pub data Capability : Type 0 where
  report : Capability
  view_case : Capability
  review_report : Capability
  verify_case : Capability
  create_alert : Capability
  manage_subscriptions : Capability
  view_audit : Capability
  manage_channel_provider : Capability

pub record AuthorizationDenied : Type 0 where
  pub actor : Actor
  pub capability : Capability

unfoldable pub authorize : Actor → Capability → Result (Unit {0}) AuthorizationDenied
authorize actor Capability.report = ok tt
authorize (reviewer _) capability = ok tt
authorize automated capability = err (record { actor = automated; capability = capability })

pub data MembershipGrantDenied : Type 0 where
  membership_grant_denied : MembershipGrantDenied

unfoldable pub authorize_membership_grant :
    Option Membership → ℕ → Role → Option OrganizationId → Result (Unit {0}) MembershipGrantDenied
authorize_membership_grant granter existing_reviewer_count target_role target_organization_id =
    if nat_eq existing_reviewer_count 0 then ok tt else elim granter [
      | none ↦ err membership_grant_denied
      | some g ↦ elim g.role [
        | Role.platform_admin ↦ ok tt
        | Role.org_admin ↦ elim g.organization_id [
          | none ↦ err membership_grant_denied
          | some granter_org ↦
              if target_role == Role.member && target_organization_id == some granter_org
              then ok tt
              else err membership_grant_denied
        ]
        | Role.member ↦ err membership_grant_denied
      ]
    ]

pub data InvalidMembershipShape : Type 0 where
  invalid_membership_shape : InvalidMembershipShape

abbrev pub has_shape : Role → Option OrganizationId → Bool
has_shape Role.platform_admin none = true
has_shape Role.platform_admin (some _) = false
has_shape _ none = false
has_shape _ (some _) = true

unfoldable pub validate_membership_shape :
    Role → Option OrganizationId → Result (Unit {0}) InvalidMembershipShape
validate_membership_shape role organization_id =
    if has_shape role organization_id then ok tt else err invalid_membership_shape

pub data CaseVerificationNotAuthorized : Type 0 where
  case_verification_not_authorized : CaseVerificationNotAuthorized

unfoldable pub authorize_case_verification :
    Membership
    → Option Organization
    → IncidentType
    → Result (Unit {0}) CaseVerificationNotAuthorized
unfolding may_verify
authorize_case_verification membership organization incident_type =
    if membership.role == Role.platform_admin then ok tt else elim organization [
      | none ↦ err case_verification_not_authorized
      | some o ↦
          if o.is_active && may_verify o incident_type
          then ok tt
          else err case_verification_not_authorized
    ]

pub data AlertIssuanceNotAuthorized : Type 0 where
  alert_issuance_not_authorized : AlertIssuanceNotAuthorized

unfoldable pub authorize_alert_issuance :
    Membership
    → Option Organization
    → AlertVisibility
    → Result (Unit {0}) AlertIssuanceNotAuthorized
unfolding may_issue_alert
authorize_alert_issuance membership organization visibility =
    if membership.role == Role.platform_admin then ok tt else elim organization [
      | none ↦ err alert_issuance_not_authorized
      | some o ↦
          if o.is_active && may_issue_alert o visibility
          then ok tt
          else err alert_issuance_not_authorized
    ]

pub data ConsumerManagementNotAuthorized : Type 0 where
  consumer_management_not_authorized : ConsumerManagementNotAuthorized

unfoldable pub authorize_consumer_management :
    Membership → Option OrganizationId → Result (Unit {0}) ConsumerManagementNotAuthorized
authorize_consumer_management membership owning_organization_id =
    if membership.role == Role.platform_admin then ok tt else elim owning_organization_id [
      | none ↦ ok tt
      | some owner ↦
          if membership.organization_id == some owner
          then ok tt
          else err consumer_management_not_authorized
    ]

pub data AlertCancellationNotAuthorized : Type 0 where
  alert_cancellation_not_authorized : AlertCancellationNotAuthorized

unfoldable pub authorize_alert_cancellation :
    Membership → Option OrganizationId → Result (Unit {0}) AlertCancellationNotAuthorized
authorize_alert_cancellation membership issued_by_organization_id =
    if membership.role == Role.platform_admin then ok tt else elim issued_by_organization_id [
      | none ↦ ok tt
      | some issuer ↦
          if membership.organization_id == some issuer
          then ok tt
          else err alert_cancellation_not_authorized
    ]
