-- ===== src/Tests/Subscription.antt =====
-- Subscriptions: crates/domain/src/subscription.rs, crates/application/src/citizen_subscription.rs.
use safe_cameroon.Common.{
  ◌≡◌, refl, ◌↔◌, ◌⊎◌, ◌≤◌, true, List, [], ◌∷◌, none, some, Result, is_ok, All, Memᴰ, contains,
  ℕ_eq, filter, trim,
}
use safe_cameroon.Domain.Ids.{ConsumerId}
use safe_cameroon.Domain.Case.{IncidentType, IncidentType-discrete}
use safe_cameroon.Domain.Alert.{AlertVisibility, AlertVisibility-discrete, Severity}
use safe_cameroon.Domain.Consumer.{ConsumerType}
use safe_cameroon.Domain.Delivery.{ChannelType, DeliveryStrategy}
use safe_cameroon.Domain.Subscription.{
  Comparison, MatchDecision, Subscription, SubscriptionRule, deduplicate_by_consumer,
  evaluate_subscription, evaluate_subscriptions, severity_rank,
}
use safe_cameroon.Domain.Subscription.Matching.{Satisfies}
use safe_cameroon.Domain.Subscription.Grouping.{
  IsGrouping, consumers, decided_for, grouped_of, deduplicate_by_consumer-grouped_of,
}
use safe_cameroon.Domain.Subscription.Selection.{selected_iff}
use safe_cameroon.Workflow.Citizen.{
  CitizenSubscriptionRequest, areas_of, PreparedCitizenSubscription, CitizenSubscriptionError,
  prepare_citizen_subscription,
}
use safe_cameroon.Workflow.Citizen.Audience.{
  IsComplete, prepare_citizen_subscription-ok_iff, prepare_citizen_subscription-matched,
}
use safe_cameroon.Tests.Samples.{community_alert, same_text, no_digest}

abbrev children : Subscription
children = record {
  id = 50;
  consumer_id = 40;
  version = 1;
  rules =
      SubscriptionRule.incident_type (IncidentType.missing_child ∷ [])
      ∷ SubscriptionRule.severity Comparison.greater_than_or_equal Severity.medium
      ∷ [];
  created_at = none;
}

selected_iff_example :
    (contains
        (consumers (
          deduplicate_by_consumer
            (evaluate_subscriptions same_text community_alert (children ∷ []))))
        40
      ≡ true)
    ↔ ((s : Subscription) × Memᴰ s (children ∷ [])
        × (s.consumer_id ≡ 40)
        × All (Satisfies same_text community_alert) s.rules)
selected_iff_example = selected_iff same_text community_alert (children ∷ []) 40

abbrev decisions : List MatchDecision
decisions =
    record {
      subscription_id = 50;
      subscription_version = 1;
      consumer_id = 40;
      matched = true;
      reasons = [];
    }
    ∷ record {
      subscription_id = 51;
      subscription_version = 2;
      consumer_id = 40;
      matched = true;
      reasons = [];
    }
    ∷ []

deduplicate_by_consumer-grouped_of_example :
    IsGrouping (deduplicate_by_consumer decisions)
    × ((c : ConsumerId)
        → grouped_of c (deduplicate_by_consumer decisions)
          ≡ decided_for c (filter (λ d. d.matched) decisions))
deduplicate_by_consumer-grouped_of_example = deduplicate_by_consumer-grouped_of decisions

abbrev request : CitizenSubscriptionRequest
request = record {
  incident_types = IncidentType.missing_child ∷ [];
  minimum_severity = Severity.medium;
  geography = "Mokolo" ∷ " " ∷ [];
  push_subscription_json = "{}";
  locale = some "fr";
}

prepare_citizen_subscription-ok_iff_example :
    (r : Result PreparedCitizenSubscription CitizenSubscriptionError)
    × (prepare_citizen_subscription no_digest "token" 40 50 request ≡ some r)
    × ((is_ok r ≡ true) ↔ IsComplete no_digest "token" 40 50 request)
prepare_citizen_subscription-ok_iff_example =
    prepare_citizen_subscription-ok_iff no_digest "token" 40 50 request

abbrev prepared : PreparedCitizenSubscription
prepared = record {
  consumer = record {
    id = 40;
    name = "Citizen (self-subscribed)";
    consumer_type = ConsumerType.citizen;
    locale = some "fr";
  };
  delivery_preference = record {
    strategy = DeliveryStrategy.all;
    channels = record { channel = ChannelType.push; address = "{}" } ∷ [];
  };
  subscription = record {
    id = 50;
    consumer_id = 40;
    version = 1;
    rules =
        SubscriptionRule.incident_type (IncidentType.missing_child ∷ [])
        ∷ SubscriptionRule.severity Comparison.greater_than_or_equal Severity.medium
        ∷ SubscriptionRule.geography (record { as_str = "Mokolo" } ∷ [])
        ∷ SubscriptionRule.visibility (AlertVisibility.community ∷ AlertVisibility.public ∷ [])
        ∷ [];
    created_at = none;
  };
  management_token = "token";
  management_token_hash = [];
}

prepare_citizen_subscription-matched_example :
    ((AlertVisibility.community ≡ AlertVisibility.community)
      ⊎ (AlertVisibility.community ≡ AlertVisibility.public))
    × Memᴰ IncidentType.missing_child (IncidentType.missing_child ∷ [])
    × (severity_rank Severity.medium ≤ severity_rank Severity.high)
unfolding prepare_citizen_subscription evaluate_subscription IncidentType-discrete
    AlertVisibility-discrete areas_of trim
prepare_citizen_subscription-matched_example =
    prepare_citizen_subscription-matched no_digest "token" 40 50 request same_text community_alert
      prepared refl refl
