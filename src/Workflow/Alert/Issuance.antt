-- ===== src/Workflow/Alert/Issuance.antt =====
-- Proofs about crates/application/src/alert_workflow.rs.
use safe_cameroon.Common.{
  ◌≡◌, refl, subst, ◌⊎◌, inl, inr, String, true, List, Option, some, ok, All, arith, String_eq, ℕ,
}
use safe_cameroon.Domain.Ids.{
  Uuid, AlertId, AlertEventId, AuditEventId, OutboxEventId, OrganizationId,
}
use safe_cameroon.Domain.Case.{Case, CaseEventType, IncidentType}
use safe_cameroon.Domain.Alert.{
  Alert, AlertVisibility, community_fields, first_restricted, is_forbidden, is_trigger,
  AlertFieldValue, AlertPolicy, AlertStatus, AlertStatus-discrete, AlertStatus_eq, Severity,
  TargetGeography, admits_internal_only_fields, is_verified_or_later, policy_new,
  missing_child_community_v1, create_from_case, cancel,
}
use safe_cameroon.Domain.Alert.SafePolicy.{IsSafe}
use safe_cameroon.Domain.Alert.Safety.{policy_new-ok_iff, create_from_case-IsProjection}
use safe_cameroon.Domain.Alert.Disclosure.{MaySee, create_from_case-MaySee, cancelled}
use safe_cameroon.Workflow.Case.{Actor, reviewer, automated}
use safe_cameroon.Workflow.Alert.{
  AlertCreation, create_alert_from_case, authorize_alert_action, resolve_policy, cancel_alert,
  authorize_alert_cancellation, AlertCancellation,
}

-- What stands behind an alert that is issued.
pub record IsIssued (c : Case) (actor : Actor) (made : AlertCreation) : Type 0 where
  pub by_person :
      (admits_internal_only_fields made.alert.visibility ≡ true)
      ⊎ ((id : Uuid) × (actor ≡ reviewer id))
  pub verified : is_verified_or_later c.status ≡ true
  pub of_case : made.alert.case_id ≡ c.id
  pub shown : All (λ v. MaySee made.alert v.field) made.alert.fields
  pub recorded : made.actor ≡ actor

person :
    (actor : Actor) (policy : AlertPolicy)
    → authorize_alert_action actor policy.visibility ≡ ok tt
    → (admits_internal_only_fields policy.visibility ≡ true) ⊎ ((id : Uuid) × (actor ≡ reviewer id))
unfolding authorize_alert_action
person (reviewer id) policy h = inr (id, refl)
person automated policy h = inl (ground arith)

module _ (sha256 : String → List ℕ) (id : AlertId) (event_id : AlertEventId) (audit : AuditEventId)
    (outbox : OutboxEventId) (c : Case) (policy : AlertPolicy) (severity : Severity)
    (target : TargetGeography) (fields : List AlertFieldValue) (actor : Actor) (request_id : Uuid)
    (idempotency_key : Option String) (issued_by : Option OrganizationId) where
  created :
      (made : AlertCreation)
      → create_alert_from_case sha256 id event_id audit outbox c policy severity target fields actor
          request_id idempotency_key issued_by
        ≡ ok made
      → (authorize_alert_action actor policy.visibility ≡ ok tt)
        × (create_from_case id event_id c policy severity target fields issued_by
            ≡ ok (made.alert, made.event))
        × (made.actor ≡ actor)
  unfolding create_alert_from_case
  created made h = (ground arith, ground arith, ground arith)

  -- An alert that is issued under a policy that passed its constructor is of a verified case, shows
  -- nothing that its audience may not see and, unless the audience is internal or a partner's, was
  -- issued by a reviewer.
  pub create_alert_from_case-IsIssued :
      (made : AlertCreation)
      → policy_new policy.id policy.version policy.incident_type policy.visibility policy.trigger
          policy.field_allowlist
        ≡ ok policy
      → create_alert_from_case sha256 id event_id audit outbox c policy severity target fields actor
          request_id idempotency_key issued_by
        ≡ ok made
      → IsIssued c actor made
  create_alert_from_case-IsIssued made valid h =
      let (allowed, projected, same_actor) = created made h in
      let p =
        create_from_case-IsProjection id event_id c policy severity target fields issued_by
          projected in
      record {
        by_person = rw p.audience (person actor policy allowed);
        verified = p.verified;
        of_case = p.of_case;
        shown =
            create_from_case-MaySee id event_id c policy severity target fields issued_by valid
              projected;
        recorded = same_actor;
      }

abbrev template : AlertPolicy
template = record {
  id = "MISSING_CHILD_COMMUNITY";
  version = 1;
  incident_type = IncidentType.missing_child;
  visibility = AlertVisibility.community;
  trigger = CaseEventType.case_verified;
  field_allowlist = community_fields;
}

missing_child_community_v1_lem : missing_child_community_v1 ≡ ok template
unfolding missing_child_community_v1 policy_new first_restricted is_forbidden is_trigger
missing_child_community_v1_lem = refl

template-IsSafe : IsSafe template
unfolding policy_new
template-IsSafe = ((policy_new-ok_iff template template).0 refl).0

resolved :
    (policy_id : String) (policy : AlertPolicy)
    → resolve_policy policy_id ≡ some (ok policy)
    → template ≡ policy
unfolding resolve_policy
resolved policy_id policy h = ground (arith, missing_child_community_v1_lem)

-- A policy that a deployment resolves passed its constructor, is for the community, and keeps what
-- only an internal or partner audience may see off its list.
pub resolve_policy-IsSafe :
    (policy_id : String) (policy : AlertPolicy)
    → resolve_policy policy_id ≡ some (ok policy)
    → IsSafe policy × (policy.visibility ≡ AlertVisibility.community)
resolve_policy-IsSafe policy_id policy h =
    subst (λ p. IsSafe p × (p.visibility ≡ AlertVisibility.community)) (resolved policy_id policy h)
      (template-IsSafe, refl)

-- A cancellation that succeeds was asked for by a reviewer, on an active alert, which it cancels, and
-- records who asked.
pub cancel_alert-ok :
    (event_id : AlertEventId) (audit : AuditEventId) (outbox : OutboxEventId) (alert : Alert)
    (request_id : Uuid) (actor : Actor) (made : AlertCancellation)
    → (cancel_alert event_id audit outbox alert actor request_id).1 ≡ ok made
    → ((id : Uuid) × (actor ≡ reviewer id))
      × (alert.status ≡ AlertStatus.active)
      × ((cancel_alert event_id audit outbox alert actor request_id).0 ≡ cancelled alert)
      × (made.actor ≡ actor)
unfolding cancel_alert cancel authorize_alert_cancellation AlertStatus-discrete
cancel_alert-ok event_id audit outbox alert request_id automated made h = absurd (ground arith)
cancel_alert-ok event_id audit outbox alert request_id (reviewer id) made h =
    ((id, refl), ground arith, ground arith, ground arith)
