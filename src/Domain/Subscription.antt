-- ===== src/Domain/Subscription.antt =====
-- crates/domain/src/subscription.rs: subscriptions and the engine that matches them to an alert.
-- Unicode's lower-casing (`str::to_lowercase`) is the parameter `lower`.
mod Vocabulary
pub mod Matching
pub mod Grouping
pub mod Selection
unfoldable pub use Vocabulary.*
use safe_cameroon.Common.{
  ℕ, ◌+◌, String, Bool, true, false, List, [], ◌∷◌, ◌++◌, map, Option, none, some, Result, ok, err,
  u32, ltb, leb, nat_eq, if◌then◌else◌, contains, is_empty, any, all, filter, is_blank, trim,
  str_contains, ℕ_eq, ◌==◌,
}
use safe_cameroon.Domain.Ids.{ConsumerId, SubscriptionId}
use safe_cameroon.Domain.Case.{IncidentType, IncidentType_eq, CaseEventType, CaseEventType_eq}
use safe_cameroon.Domain.Alert.{
  Alert, AlertVisibility, AlertVisibility_eq, Severity, TargetGeography,
}

-- The derived `PartialOrd` compares the variants' positions.
abbrev pub severity_rank : Severity → ℕ
severity_rank Severity.low = 0
severity_rank Severity.medium = 1
severity_rank Severity.high = 2
severity_rank Severity.critical = 3

unfoldable pub evaluate : Comparison → Severity → Severity → Bool
evaluate Comparison.greater_than lhs rhs = ltb (severity_rank rhs) (severity_rank lhs)
evaluate Comparison.greater_than_or_equal lhs rhs = leb (severity_rank rhs) (severity_rank lhs)
evaluate Comparison.equal lhs rhs = nat_eq (severity_rank lhs) (severity_rank rhs)
evaluate Comparison.less_than_or_equal lhs rhs = leb (severity_rank lhs) (severity_rank rhs)
evaluate Comparison.less_than lhs rhs = ltb (severity_rank lhs) (severity_rank rhs)

pub record GeoArea : Type 0 where
  pub as_str : String

pub data EmptyGeoArea : Type 0 where
  empty_geo_area : EmptyGeoArea

unfoldable pub geo_area_new : String → Result GeoArea EmptyGeoArea
geo_area_new name =
    let trimmed = trim name in
    if is_blank trimmed then err empty_geo_area else ok (record { as_str = trimmed })

unfoldable pub matches_target : (String → String) → GeoArea → TargetGeography → Bool
matches_target lower area target = str_contains (lower target.as_str) (lower area.as_str)

pub data SubscriptionRule : Type 0 where
  incident_type : List IncidentType → SubscriptionRule
  severity : Comparison → Severity → SubscriptionRule
  event_type : List CaseEventType → SubscriptionRule
  geography : List GeoArea → SubscriptionRule
  visibility : List AlertVisibility → SubscriptionRule

pub record MatchReason : Type 0 where
  pub rule : SubscriptionRule
  pub matched : Bool

pub data EmptySubscriptionRules : Type 0 where
  empty_subscription_rules : EmptySubscriptionRules

pub record Subscription : Type 0 where
  pub id : SubscriptionId
  pub consumer_id : ConsumerId
  pub version : ℕ  -- u32
  pub rules : List SubscriptionRule
  pub created_at : Option String

unfoldable pub subscription_new :
    SubscriptionId
    → ConsumerId
    → ℕ
    → List SubscriptionRule
    → Result Subscription EmptySubscriptionRules
subscription_new id consumer_id version rules =
    if is_empty rules
    then err empty_subscription_rules
    else ok (record {
      id = id;
      consumer_id = consumer_id;
      version = version;
      rules = rules;
      created_at = none;
    })

unfoldable pub with_created_at : Subscription → String → Subscription
with_created_at s created_at = record s { created_at = some created_at }

unfoldable pub update_rules :
    Subscription → List SubscriptionRule → Subscription × Result (Unit {0}) EmptySubscriptionRules
update_rules s rules =
    if is_empty rules
    then (s, err empty_subscription_rules)
    else (record s { rules = rules; version = u32 (s.version + 1) }, ok tt)

pub record MatchDecision : Type 0 where
  pub subscription_id : SubscriptionId
  pub subscription_version : ℕ  -- u32
  pub consumer_id : ConsumerId
  pub matched : Bool
  pub reasons : List MatchReason

unfoldable pub rule_matches : (String → String) → Alert → SubscriptionRule → Bool
unfolding evaluate matches_target
rule_matches lower alert (incident_type values) = contains values alert.incident_type
rule_matches lower alert (severity operator value) = evaluate operator alert.severity value
rule_matches lower alert (event_type values) = contains values alert.trigger
rule_matches lower alert (geography areas) =
    any (λ area. matches_target lower area alert.target_geography) areas
rule_matches lower alert (visibility values) = contains values alert.visibility

unfoldable pub evaluate_rule : (String → String) → Alert → SubscriptionRule → MatchReason
unfolding rule_matches
evaluate_rule lower alert rule = record { rule = rule; matched = rule_matches lower alert rule }

unfoldable pub evaluate_subscription : (String → String) → Alert → Subscription → MatchDecision
unfolding evaluate_rule
evaluate_subscription lower alert s =
    let reasons = map (evaluate_rule lower alert) s.rules in
    record {
      subscription_id = s.id;
      subscription_version = s.version;
      consumer_id = s.consumer_id;
      matched = all (λ reason. reason.matched) reasons;
      reasons = reasons;
    }

unfoldable pub evaluate_subscriptions :
    (String → String) → Alert → List Subscription → List MatchDecision
unfolding evaluate_subscription
evaluate_subscriptions lower alert subscriptions =
    map (evaluate_subscription lower alert) subscriptions

pub record MatchedSubscription : Type 0 where
  pub subscription_id : SubscriptionId
  pub subscription_version : ℕ  -- u32

pub record ConsumerMatch : Type 0 where
  pub consumer_id : ConsumerId
  pub matching_subscriptions : List MatchedSubscription

abbrev pub matched_of : MatchDecision → MatchedSubscription
matched_of d = record {
  subscription_id = d.subscription_id;
  subscription_version = d.subscription_version;
}

-- The first entry of the consumer takes the subscription, or a new entry at the end.
unfoldable pub add_match :
    ConsumerId → MatchedSubscription → List ConsumerMatch → List ConsumerMatch
add_match c m [] = record { consumer_id = c; matching_subscriptions = m ∷ [] } ∷ []
add_match c m (entry ∷ entries) =
    let later = add_match c m entries in
    if entry.consumer_id == c
    then record entry { matching_subscriptions = entry.matching_subscriptions ++ (m ∷ []) }
      ∷ entries
    else entry ∷ later

unfoldable pub group_matches : List ConsumerMatch → List MatchDecision → List ConsumerMatch
unfolding add_match
group_matches result [] = result
group_matches result (d ∷ ds) = group_matches (add_match d.consumer_id (matched_of d) result) ds

unfoldable pub deduplicate_by_consumer : List MatchDecision → List ConsumerMatch
unfolding group_matches
deduplicate_by_consumer decisions = group_matches [] (filter (λ d. d.matched) decisions)
