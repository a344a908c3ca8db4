-- ===== src/Domain/Subscription/Matching.antt =====
-- Proofs about `evaluate_subscription` of crates/domain/src/subscription.rs.
use mathlib.Core.Bool.{and-eq-true_iff}
use safe_cameroon.Common.{
  ℕ, ◌≤◌, ◌<◌, ◌≡◌, refl, ◌↔◌, String, true, List, [], ◌∷◌, map, all, All, Memᴰ, any_sound,
  any_complete, mem_of_contains, contains_of_mem, arith,
}
use safe_cameroon.Domain.Alert.{Alert, Severity}
use safe_cameroon.Domain.Case.{IncidentType_eq, CaseEventType_eq}
use safe_cameroon.Domain.Alert.{AlertVisibility_eq}
use safe_cameroon.Domain.Subscription.{
  Comparison, GeoArea, SubscriptionRule, incident_type, severity, event_type, geography, visibility,
  Subscription, severity_rank, evaluate, matches_target, rule_matches, evaluate_rule,
  evaluate_subscription,
}

-- What a comparison says of the alert's severity and the subscriber's.
abbrev pub Compares : Comparison → ℕ → ℕ → Type 0
Compares Comparison.greater_than lhs rhs = rhs < lhs
Compares Comparison.greater_than_or_equal lhs rhs = rhs ≤ lhs
Compares Comparison.equal lhs rhs = lhs ≡ rhs
Compares Comparison.less_than_or_equal lhs rhs = lhs ≤ rhs
Compares Comparison.less_than lhs rhs = lhs < rhs

abbrev pub Satisfies : (String → String) → Alert → SubscriptionRule → Type 0
Satisfies lower alert (incident_type values) = Memᴰ alert.incident_type values
Satisfies lower alert (severity operator value) =
    Compares operator (severity_rank alert.severity) (severity_rank value)
Satisfies lower alert (event_type values) = Memᴰ alert.trigger values
Satisfies lower alert (geography areas) =
    (area : GeoArea) × Memᴰ area areas × (matches_target lower area alert.target_geography ≡ true)
Satisfies lower alert (visibility values) = Memᴰ alert.visibility values

evaluate_iff :
    (op : Comparison) (lhs rhs : Severity)
    → (evaluate op lhs rhs ≡ true) ↔ Compares op (severity_rank lhs) (severity_rank rhs)
unfolding evaluate
evaluate_iff Comparison.greater_than lhs rhs = ground arith
evaluate_iff Comparison.greater_than_or_equal lhs rhs = ground arith
evaluate_iff Comparison.equal lhs rhs = ground arith
evaluate_iff Comparison.less_than_or_equal lhs rhs = ground arith
evaluate_iff Comparison.less_than lhs rhs = ground arith

rule_matches_iff :
    (lower : String → String) (alert : Alert) (rule : SubscriptionRule)
    → (rule_matches lower alert rule ≡ true) ↔ Satisfies lower alert rule
unfolding rule_matches
rule_matches_iff lower alert (incident_type values) =
    (mem_of_contains values alert.incident_type, contains_of_mem)
rule_matches_iff lower alert (severity operator value) = evaluate_iff operator alert.severity value
rule_matches_iff lower alert (event_type values) =
    (mem_of_contains values alert.trigger, contains_of_mem)
rule_matches_iff lower alert (geography areas) = (
  any_sound (λ area. matches_target lower area alert.target_geography) areas,
  λ (area, listed, near).
      any_complete (λ a. matches_target lower a alert.target_geography) listed near,
)
rule_matches_iff lower alert (visibility values) =
    (mem_of_contains values alert.visibility, contains_of_mem)

all_rules_iff :
    (lower : String → String) (alert : Alert) (rules : List SubscriptionRule)
    → (all (λ reason. reason.matched) (map (evaluate_rule lower alert) rules) ≡ true)
      ↔ All (Satisfies lower alert) rules
unfolding evaluate_rule
all_rules_iff lower alert [] = (λ _. tt, λ _. refl)
all_rules_iff lower alert (rule ∷ rules) = (
  λ h.
      let (here, later) = (and-eq-true_iff _ _).0 h in
      ((rule_matches_iff lower alert rule).0 here, (all_rules_iff lower alert rules).0 later),
  λ (here, later).
      (and-eq-true_iff _ _).1
        ((rule_matches_iff lower alert rule).1 here, (all_rules_iff lower alert rules).1 later),
)

-- A subscription matches exactly when the alert satisfies every one of its rules.
pub evaluate_subscription-matched_iff :
    (lower : String → String) (alert : Alert) (s : Subscription)
    → ((evaluate_subscription lower alert s).matched ≡ true) ↔ All (Satisfies lower alert) s.rules
unfolding evaluate_subscription
evaluate_subscription-matched_iff lower alert s = all_rules_iff lower alert s.rules
