-- ===== src/Workflow/Citizen.antt =====
-- crates/application/src/citizen_subscription.rs: the subscription that a citizen makes alone.
-- `sha256` stands for the digest of the `sha2` crate and `token` for the text of a fresh UUID.
pub mod Audience
pub mod Token
use safe_cameroon.Common.{
  ℕ, String, Bool, true, false, List, [], ◌∷◌, Option, none, some, Result, ok, err, map_err, ◌>>=◌,
  is_empty, if◌then◌else◌,
}
use safe_cameroon.Domain.Ids.{ConsumerId, SubscriptionId}
use safe_cameroon.Domain.Case.{IncidentType}
use safe_cameroon.Domain.Alert.{AlertVisibility, Severity}
use safe_cameroon.Domain.Consumer.{Consumer, ConsumerType, consumer_new, with_locale}
use safe_cameroon.Domain.Subscription.{
  Comparison, EmptyGeoArea, GeoArea, Subscription, SubscriptionRule, geo_area_new, subscription_new,
}
use safe_cameroon.Domain.Delivery.{
  ChannelEndpoint, ChannelType, DeliveryPreference, DeliveryStrategy, EmptyChannelEndpointAddress,
  channel_endpoint_new, delivery_preference_new,
}

abbrev pub citizen_alert_visibilities : List AlertVisibility
citizen_alert_visibilities = AlertVisibility.community ∷ AlertVisibility.public ∷ []

abbrev consumer_name : String
consumer_name = "Citizen (self-subscribed)"

pub data CitizenSubscriptionError : Type 0 where
  empty_incident_types : CitizenSubscriptionError
  invalid_geography : CitizenSubscriptionError
  invalid_push_subscription : CitizenSubscriptionError

pub record CitizenSubscriptionRequest : Type 0 where
  pub incident_types : List IncidentType
  pub minimum_severity : Severity
  pub geography : List String
  pub push_subscription_json : String
  pub locale : Option String

pub record PreparedCitizenSubscription : Type 0 where
  pub consumer : Consumer
  pub delivery_preference : DeliveryPreference
  pub subscription : Subscription
  pub management_token : String
  pub management_token_hash : List ℕ

abbrev keep : Result GeoArea EmptyGeoArea → List GeoArea → List GeoArea
keep (ok area) areas = area ∷ areas
keep (err _) areas = areas

-- The `filter_map`.
unfoldable pub areas_of : List String → List GeoArea
unfolding geo_area_new
areas_of [] = []
areas_of (name ∷ names) = keep (geo_area_new name) (areas_of names)

abbrev pub rules_of : CitizenSubscriptionRequest → List SubscriptionRule
rules_of request =
    SubscriptionRule.incident_type request.incident_types
    ∷ SubscriptionRule.severity Comparison.greater_than_or_equal request.minimum_severity
    ∷ SubscriptionRule.geography (areas_of request.geography)
    ∷ SubscriptionRule.visibility citizen_alert_visibilities
    ∷ []

-- The parts that cannot fail: `expect` and `unreachable!` would panic, here `none`.
unfoldable pub assemble :
    (String → List ℕ)
    → String
    → ConsumerId
    → SubscriptionId
    → CitizenSubscriptionRequest
    → ChannelEndpoint
    → Option PreparedCitizenSubscription
unfolding consumer_new with_locale delivery_preference_new subscription_new
assemble sha256 token consumer_id subscription_id request endpoint =
    elim (consumer_new consumer_id consumer_name ConsumerType.citizen) [
      | err _ ↦ none
      | ok named ↦ elim (delivery_preference_new DeliveryStrategy.all (endpoint ∷ [])) [
        | err _ ↦ none
        | ok preference ↦ elim (subscription_new subscription_id named.id 1 (rules_of request)) [
          | err _ ↦ none
          | ok subscription ↦ some (record {
            consumer = with_locale named request.locale;
            delivery_preference = preference;
            subscription = subscription;
            management_token = token;
            management_token_hash = sha256 token;
          })
        ]
      ]
    ]

unfoldable pub prepare_citizen_subscription :
    (String → List ℕ)
    → String
    → ConsumerId
    → SubscriptionId
    → CitizenSubscriptionRequest
    → Option (Result PreparedCitizenSubscription CitizenSubscriptionError)
unfolding assemble channel_endpoint_new
prepare_citizen_subscription sha256 token consumer_id subscription_id request =
    if is_empty request.incident_types
    then some (err empty_incident_types)
    else if is_empty (areas_of request.geography)
    then some (err invalid_geography)
    else elim (channel_endpoint_new ChannelType.push request.push_subscription_json) [
      | err _ ↦ some (err invalid_push_subscription)
      | ok endpoint ↦ elim (assemble sha256 token consumer_id subscription_id request endpoint) [
        | none ↦ none
        | some prepared ↦ some (ok prepared)
      ]
    ]
