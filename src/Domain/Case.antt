-- ===== src/Domain/Case.antt =====
-- crates/domain/src/case.rs: the case aggregate. A method on `&mut self` returns the new case with
-- its result; a panic (`unreachable!`) is `none`.
mod Vocabulary
pub mod Commands
pub mod Evolution
unfoldable pub use Vocabulary.*
use safe_cameroon.Common.{
  ℕ, ◌+◌, Bool, true, false, not, List, [], ◌∷◌, ◌++◌, Option, none, some, Result, ok, err, u64,
  if◌then◌else◌, contains, ℕ_eq,
}
use safe_cameroon.Domain.Ids.{CaseId, CaseEventId, ReportId}

pub record Case : Type 0 where
  pub id : CaseId
  pub incident_type : IncidentType
  pub status : CaseStatus
  pub report_ids : List ReportId
  pub version : ℕ  -- u64

pub record CaseEvent : Type 0 where
  pub id : CaseEventId
  pub case_id : CaseId
  pub event_type : CaseEventType
  pub aggregate_version : ℕ  -- u64

pub record TransitionError : Type 0 where
  pub from : CaseStatus
  pub to : CaseStatus

pub record DuplicateReportLink : Type 0 where
  pub case_id : CaseId
  pub report_id : ReportId

abbrev event : CaseEventId → Case → CaseEventType → CaseEvent
event event_id c event_type = record {
  id = event_id;
  case_id = c.id;
  event_type = event_type;
  aggregate_version = c.version;
}

unfoldable pub create : CaseId → CaseEventId → IncidentType → ReportId → Case × CaseEvent
create id event_id incident_type first_report =
    let c : Case = record {
      id = id;
      incident_type = incident_type;
      status = CaseStatus.reported;
      report_ids = first_report ∷ [];
      version = 1;
    } in
    (c, event event_id c CaseEventType.case_created)

unfoldable pub reconstitute : CaseId → IncidentType → CaseStatus → List ReportId → ℕ → Case
reconstitute id incident_type status report_ids version = record {
  id = id;
  incident_type = incident_type;
  status = status;
  report_ids = report_ids;
  version = version;
}

unfoldable pub link_report :
    CaseEventId → Case → ReportId → Case × Result CaseEvent DuplicateReportLink
link_report event_id c report_id =
    if contains c.report_ids report_id
    then (c, err (record { case_id = c.id; report_id = report_id }))
    else let c' : Case = record c {
      report_ids = c.report_ids ++ (report_id ∷ []);
      version = u64 (c.version + 1);
    } in
      (c', ok (event event_id c' CaseEventType.case_report_linked))

unfoldable pub is_allowed_transition : CaseStatus → CaseStatus → Bool
is_allowed_transition CaseStatus.reported CaseStatus.under_review = true
is_allowed_transition CaseStatus.under_review CaseStatus.verified = true
is_allowed_transition CaseStatus.under_review CaseStatus.rejected = true
is_allowed_transition CaseStatus.verified CaseStatus.active = true
is_allowed_transition CaseStatus.verified CaseStatus.cancelled = true
is_allowed_transition CaseStatus.active CaseStatus.resolved = true
is_allowed_transition CaseStatus.active CaseStatus.cancelled = true
is_allowed_transition _ _ = false

unfoldable pub event_for : CaseStatus → Option CaseEventType
event_for CaseStatus.under_review = some CaseEventType.case_under_review
event_for CaseStatus.verified = some CaseEventType.case_verified
event_for CaseStatus.active = some CaseEventType.case_activated
event_for CaseStatus.resolved = some CaseEventType.case_resolved
event_for CaseStatus.cancelled = some CaseEventType.case_cancelled
event_for CaseStatus.rejected = some CaseEventType.case_rejected
event_for CaseStatus.reported = none

unfoldable pub transition_to :
    CaseEventId → Case → CaseStatus → Option (Case × Result CaseEvent TransitionError)
unfolding is_allowed_transition event_for
transition_to event_id c next =
    if not (is_allowed_transition c.status next)
    then some (c, err (record { from = c.status; to = next }))
    else let c' : Case = record c { status = next; version = u64 (c.version + 1) } in
      elim (event_for next) [
        | none ↦ none
        | some event_type ↦ some (c', ok (event event_id c' event_type))
      ]
