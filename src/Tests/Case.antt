-- ===== src/Tests/Case.antt =====
-- Cases: crates/domain/src/case.rs, crates/application/src/case_workflow.rs.
use safe_cameroon.Common.{◌≡◌, refl, List, [], ◌∷◌, some, false}
use safe_cameroon.Domain.Case.{Case, CaseStatus}
use safe_cameroon.Domain.Case.Commands.{Command, link, move}
use safe_cameroon.Domain.Alert.{is_verified_or_later}
use safe_cameroon.Workflow.Case.{automated}
use safe_cameroon.Workflow.Case.Oversight.{Request, reviews, reviews-oversight}
use safe_cameroon.Tests.Samples.{reported_case}

abbrev commands : List Command
commands =
    move 100 CaseStatus.under_review
    ∷ link 101 2
    ∷ link 102 1
    ∷ move 103 CaseStatus.verified
    ∷ move 104 CaseStatus.reported
    ∷ []

abbrev machine_requests : List Request
machine_requests =
    record {
      event_id = 1;
      audit = 2;
      outbox = 3;
      actor = automated;
      to = CaseStatus.under_review;
      request_id = 4;
    }
    ∷ record {
      event_id = 5;
      audit = 6;
      outbox = 7;
      actor = automated;
      to = CaseStatus.verified;
      request_id = 8;
    }
    ∷ []

reviews-oversight_example :
    (c' : Case) × (reviews reported_case machine_requests ≡ some c')
    × (is_verified_or_later c'.status ≡ false)
unfolding is_verified_or_later
reviews-oversight_example = reviews-oversight machine_requests reported_case refl refl
