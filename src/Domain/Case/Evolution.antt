-- ===== src/Domain/Case/Evolution.antt =====
-- Proofs about a case of crates/domain/src/case.rs under sequences of its methods.
use safe_cameroon.Common.{◌+◌, ◌≤◌, ◌≡◌, List, some, ℕ_eq}
use safe_cameroon.Domain.Case.{Case, CaseEvent, CaseStatus, CaseEventType, event_for}
use safe_cameroon.Domain.Case.Commands.{Command, perform, status_after, depth, is_move, Evolves}

-- The event that announces a status; a case is never moved back to `reported`.
abbrev announcement : CaseStatus → CaseEventType
announcement CaseStatus.reported = CaseEventType.case_created
announcement CaseStatus.under_review = CaseEventType.case_under_review
announcement CaseStatus.verified = CaseEventType.case_verified
announcement CaseStatus.active = CaseEventType.case_activated
announcement CaseStatus.resolved = CaseEventType.case_resolved
announcement CaseStatus.cancelled = CaseEventType.case_cancelled
announcement CaseStatus.rejected = CaseEventType.case_rejected

record Announces (s next : CaseStatus) : Type 0 where
  announced : event_for next ≡ some (announcement next)
  reached : status_after s (announcement next) ≡ next
  moved : is_move (announcement next) ≡ 1
  deeper : depth s + 1 ≤ depth next

abbrev Performs : Case → Command → Type 0
Performs c cmd =
    (c' : Case) × (log : List CaseEvent) × (perform c cmd ≡ some (c', log)) × Evolves c c' log
