-- ===== src/Workflow/Case.antt =====
-- crates/application/src/case_workflow.rs: creating cases from reports, linking reports and
-- reviewing. A function on `&mut Case` returns the case with its result; the identifiers that it
-- makes are its first arguments.
pub mod Oversight
use safe_cameroon.Common.{String, Option, none, some, Result, ok, err, map_err, ◌>>=◌}
use safe_cameroon.Domain.Ids.{Uuid, CaseId, ReportId, CaseEventId, AuditEventId, OutboxEventId}
use safe_cameroon.Domain.Case.{
  Case, CaseEvent, CaseStatus, IncidentType, TransitionError, DuplicateReportLink, create,
  link_report, transition_to,
}

pub data Actor : Type 0 where
  reviewer : Uuid → Actor
  automated : Actor

unfoldable pub actor_as_database_value : Actor → String
actor_as_database_value (reviewer _) = "REVIEWER"
actor_as_database_value automated = "AUTOMATED"

unfoldable pub actor_id : Actor → Option Uuid
actor_id (reviewer id) = some id
actor_id automated = none

pub record AuthorizationError : Type 0 where
  pub attempted_status : CaseStatus

unfoldable pub authorize_case_transition : Actor → CaseStatus → Result (Unit {0}) AuthorizationError
authorize_case_transition _ CaseStatus.under_review = ok tt
authorize_case_transition (reviewer _) _ = ok tt
authorize_case_transition automated attempted_status =
    err (record { attempted_status = attempted_status })

pub data CaseReviewError : Type 0 where
  not_authorized : AuthorizationError → CaseReviewError
  invalid_transition : TransitionError → CaseReviewError

pub record CaseCreation : Type 0 where
  pub case : Case
  pub event : CaseEvent
  pub actor : Actor
  pub audit_event_id : AuditEventId
  pub outbox_event_id : OutboxEventId
  pub request_id : Uuid

unfoldable pub create_case_from_report :
    CaseId
    → CaseEventId
    → AuditEventId
    → OutboxEventId
    → IncidentType
    → ReportId
    → Actor
    → Uuid
    → CaseCreation
unfolding create
create_case_from_report id event_id audit outbox incident_type report_id actor request_id =
    let (case, event) = create id event_id incident_type report_id in
    record {
      case = case;
      event = event;
      actor = actor;
      audit_event_id = audit;
      outbox_event_id = outbox;
      request_id = request_id;
    }

pub record CaseReportLink : Type 0 where
  pub event : CaseEvent
  pub report_id : ReportId
  pub actor : Actor
  pub audit_event_id : AuditEventId
  pub outbox_event_id : OutboxEventId
  pub request_id : Uuid

unfoldable pub link_report_to_case :
    CaseEventId
    → AuditEventId
    → OutboxEventId
    → Case
    → ReportId
    → Actor
    → Uuid
    → Case × Result CaseReportLink DuplicateReportLink
unfolding link_report
link_report_to_case event_id audit outbox c report_id actor request_id =
    let (c', result) = link_report event_id c report_id in
    (
      c',
      result >>= λ event. ok (record {
        event = event;
        report_id = report_id;
        actor = actor;
        audit_event_id = audit;
        outbox_event_id = outbox;
        request_id = request_id;
      }),
    )

pub record CaseReview : Type 0 where
  pub event : CaseEvent
  pub actor : Actor
  pub audit_event_id : AuditEventId
  pub outbox_event_id : OutboxEventId
  pub request_id : Uuid

-- `none` is a panic, of `transition_to`.
unfoldable pub review_case :
    CaseEventId
    → AuditEventId
    → OutboxEventId
    → Case
    → Actor
    → CaseStatus
    → Uuid
    → Option (Case × Result CaseReview CaseReviewError)
unfolding authorize_case_transition transition_to
review_case event_id audit outbox c actor to request_id =
    elim (authorize_case_transition actor to) [
      | err e ↦ some (c, err (not_authorized e))
      | ok _ ↦ elim (transition_to event_id c to) [
        | none ↦ none
        | some (c', result) ↦ some (
          c',
          map_err invalid_transition result >>= λ event. ok (record {
            event = event;
            actor = actor;
            audit_event_id = audit;
            outbox_event_id = outbox;
            request_id = request_id;
          }),
        )
      ]
    ]
