-- ===== src/Domain/Case/Commands.antt =====
-- Sequences of the methods of `Case`, crates/domain/src/case.rs, and the log of events they return.
use safe_cameroon.Common.{
  ℕ, ◌+◌, ◌≤◌, ◌≡◌, List, [], ◌∷◌, ◌++◌, Option, none, some, Result, ok, err, ℕ_eq, length,
  Distinct,
}
use safe_cameroon.Domain.Ids.{CaseId, CaseEventId, ReportId}
use safe_cameroon.Domain.Case.{
  Case, CaseEvent, CaseStatus, CaseEventType, link_report, transition_to,
}

-- What a caller may ask of a case, with the identifier for the event.
pub data Command : Type 0 where
  link : CaseEventId → ReportId → Command
  move : CaseEventId → CaseStatus → Command

abbrev logged {ℓ} : {E : Type ℓ} → Case × Result CaseEvent E → Case × List CaseEvent
logged (c, ok e) = (c, e ∷ [])
logged (c, err e) = (c, [])

-- One command, with the events that it appends to the log; `none` is a panic.
unfoldable pub perform : Case → Command → Option (Case × List CaseEvent)
unfolding link_report transition_to
perform c (link event_id report_id) = some (logged (link_report event_id c report_id))
perform c (move event_id next) = elim (transition_to event_id c next) [
  | none ↦ none
  | some r ↦ some (logged r)
]

abbrev pub append_log :
    List CaseEvent → Option (Case × List CaseEvent) → Option (Case × List CaseEvent)
append_log log none = none
append_log log (some (c, later)) = some (c, log ++ later)

unfoldable pub run : Case → List Command → Option (Case × List CaseEvent)
run c [] = some (c, [])
run c (cmd ∷ cmds) = elim (perform c cmd) [
  | none ↦ none
  | some (c', log) ↦ append_log log (run c' cmds)
]

-- The status that an event announces; creation and links announce none.
abbrev pub status_after : CaseStatus → CaseEventType → CaseStatus
status_after s CaseEventType.case_created = s
status_after s CaseEventType.case_report_linked = s
status_after s CaseEventType.case_under_review = CaseStatus.under_review
status_after s CaseEventType.case_verified = CaseStatus.verified
status_after s CaseEventType.case_activated = CaseStatus.active
status_after s CaseEventType.case_resolved = CaseStatus.resolved
status_after s CaseEventType.case_cancelled = CaseStatus.cancelled
status_after s CaseEventType.case_rejected = CaseStatus.rejected

abbrev pub replay : CaseStatus → List CaseEvent → CaseStatus
replay s [] = s
replay s (e ∷ es) = replay (status_after s e.event_type) es

-- How far a status lies from creation.
abbrev pub depth : CaseStatus → ℕ
depth CaseStatus.reported = 0
depth CaseStatus.under_review = 1
depth CaseStatus.verified = 2
depth CaseStatus.active = 3
depth CaseStatus.resolved = 4
depth CaseStatus.cancelled = 4
depth CaseStatus.rejected = 4

abbrev pub is_move : CaseEventType → ℕ
is_move CaseEventType.case_created = 0
is_move CaseEventType.case_report_linked = 0
is_move _ = 1

abbrev pub moves : List CaseEvent → ℕ
moves [] = 0
moves (e ∷ es) = is_move e.event_type + moves es

-- The events of one case, numbered on from the version `v` without a gap.
abbrev pub Numbered : CaseId → ℕ → List CaseEvent → Type 0
Numbered id v [] = Unit
Numbered id v (e ∷ es) = (e.case_id ≡ id) × (e.aggregate_version ≡ v + 1) × Numbered id (v + 1) es

-- What holds between a case, a later state of it and the log written in between.
pub record Evolves (c c' : Case) (log : List CaseEvent) : Type 0 where
  pub same_id : c'.id ≡ c.id
  pub same_incident_type : c'.incident_type ≡ c.incident_type
  pub numbered : Numbered c.id c.version log
  pub counted : c'.version ≡ c.version + length log
  pub replayed : c'.status ≡ replay c.status log
  pub deepened : depth c.status + moves log ≤ depth c'.status
  pub kept_reports : (later : List ReportId) × (c'.report_ids ≡ c.report_ids ++ later)
  pub distinct_reports : Distinct c.report_ids → Distinct c'.report_ids
