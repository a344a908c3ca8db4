-- ===== src/Workflow/Case/Oversight.antt =====
-- Proofs about `review_case` of crates/application/src/case_workflow.rs.
use safe_cameroon.Common.{
  ◌≡◌, refl, inl, inr, Bool, true, false, List, [], ◌∷◌, Option, none, some, ok, err, any, ◌∙◌,
  ◌==◌, ◌&&◌, ◌+◌, u64, arith, Bool-cases,
}
use safe_cameroon.Domain.Ids.{Uuid, CaseEventId, AuditEventId, OutboxEventId}
use safe_cameroon.Domain.Case.{
  Case, CaseStatus, transition_to, is_allowed_transition, event_for, CaseStatus_eq,
  CaseStatus-discrete, CaseEventType,
}
use safe_cameroon.Domain.Alert.{is_verified_or_later}
use safe_cameroon.Workflow.Case.{
  Actor, reviewer, automated, CaseReview, review_case, authorize_case_transition,
}

-- A call of `review_case`.
pub record Request : Type 0 where
  pub event_id : CaseEventId
  pub audit : AuditEventId
  pub outbox : OutboxEventId
  pub actor : Actor
  pub to : CaseStatus
  pub request_id : Uuid

abbrev pub review : Case → Request → Option (Case × List CaseReview)
review c r = elim (review_case r.event_id r.audit r.outbox c r.actor r.to r.request_id) [
  | none ↦ none
  | some (c', ok made) ↦ some (c', made ∷ [])
  | some (c', err _) ↦ some (c', [])
]

unfoldable pub reviews : Case → List Request → Option Case
unfolding review_case
reviews c [] = some c
reviews c (r ∷ rs) = elim (review c r) [ none ↦ none | some (c', _) ↦ reviews c' rs ]

abbrev pub is_reviewer : Actor → Bool
is_reviewer (reviewer _) = true
is_reviewer automated = false

abbrev starts : Case → Request → Bool
starts c r = c.status == CaseStatus.reported && r.to == CaseStatus.under_review

started : Case → Case
started c = record c { status = CaseStatus.under_review; version = u64 (c.version + 1) }

abbrev start_of : Case → Request → CaseReview
start_of c r = record {
  event = record {
    id = r.event_id;
    case_id = c.id;
    event_type = CaseEventType.case_under_review;
    aggregate_version = u64 (c.version + 1);
  };
  actor = r.actor;
  audit_event_id = r.audit;
  outbox_event_id = r.outbox;
  request_id = r.request_id;
}

-- A move that automation makes starts a review, or is refused.
review-started :
    (c : Case) (r : Request) → starts c r ≡ true → review c r ≡ some (started c, start_of c r ∷ [])
unfolding review_case authorize_case_transition transition_to is_allowed_transition event_for
    started CaseStatus-discrete
review-started c r h = ground arith

review-refused :
    (c : Case) (r : Request)
    → is_reviewer r.actor ≡ false
    → starts c r ≡ false
    → review c r ≡ some (c, [])
unfolding review_case authorize_case_transition transition_to is_allowed_transition event_for
    CaseStatus-discrete
review-refused c r machine h = ground arith

started-early : (c : Case) → is_verified_or_later (started c).status ≡ false
unfolding started is_verified_or_later
started-early c = refl

reviews-step :
    (c c' : Case) (r : Request) (rs : List Request) (made : List CaseReview)
    → review c r ≡ some (c', made)
    → reviews c (r ∷ rs) ≡ reviews c' rs
unfolding reviews
reviews-step c c' r rs made h = ground arith

-- Automation alone never gets a case verified: a sequence of reviews none of which a reviewer asks
-- for runs without a panic and leaves a case that was not verified short of verification.
pub reviews-oversight :
    (rs : List Request) (c : Case)
    → any (λ r. is_reviewer r.actor) rs ≡ false
    → is_verified_or_later c.status ≡ false
    → (c' : Case) × (reviews c rs ≡ some c') × (is_verified_or_later c'.status ≡ false)
unfolding reviews
reviews-oversight [] c machines early = (c, refl, early)
reviews-oversight (r ∷ rs) c machines early = elim (Bool-cases (starts c r)) [
  | inl start ↦
      let (c', e', early') = reviews-oversight rs (started c) (ground arith) (started-early c) in
      (c', reviews-step c (started c) r rs _ (review-started c r start) ∙ e', early')
  | inr refused ↦
      let (c', e', early') = reviews-oversight rs c (ground arith) early in
      (c', reviews-step c c r rs [] (review-refused c r (ground arith) refused) ∙ e', early')
]
