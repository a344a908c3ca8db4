-- ===== src/Domain/Delivery/Plan.antt =====
-- crates/domain/src/delivery.rs: endpoints, preferences, retry policies and idempotency keys, from
-- which deliveries are planned. `uuid_text` stands for the `uuid` crate's text of an identifier.
use safe_cameroon.Common.{
  ℕ, ◌+◌, ◌-◌, ◌*◌, ◌^◌, min, String, List, [], ◌∷◌, ◌++◌, Option, none, some, Result, ok, err, u8,
  u64, ◌%◌, nat_eq, if◌then◌else◌, contains, is_empty, is_blank, trim, format,
}
use safe_cameroon.Domain.Ids.{Uuid, AlertId, ConsumerId}
use safe_cameroon.Domain.Delivery.Vocabulary.{
  ChannelType, ChannelType_eq, DeliveryStrategy, channel_type_as_database_value,
}

pub record ChannelEndpoint : Type 0 where
  pub channel : ChannelType
  pub address : String

pub data EmptyChannelEndpointAddress : Type 0 where
  empty_channel_endpoint_address : EmptyChannelEndpointAddress

unfoldable pub channel_endpoint_new :
    ChannelType → String → Result ChannelEndpoint EmptyChannelEndpointAddress
channel_endpoint_new channel address =
    let trimmed = trim address in
    if is_blank trimmed
    then err empty_channel_endpoint_address
    else ok (record { channel = channel; address = trimmed })

pub data DeliveryPreferenceError : Type 0 where
  empty_channel_list : DeliveryPreferenceError
  duplicate_channel : ChannelType → DeliveryPreferenceError

pub record DeliveryPreference : Type 0 where
  pub strategy : DeliveryStrategy
  pub channels : List ChannelEndpoint

-- The loop over the endpoints, with the channels seen so far: the first one seen again.
unfoldable pub repeated_channel : List ChannelType → List ChannelEndpoint → Option ChannelType
repeated_channel seen [] = none
repeated_channel seen (endpoint ∷ endpoints) =
    let later = repeated_channel (seen ++ (endpoint.channel ∷ [])) endpoints in
    if contains seen endpoint.channel then some endpoint.channel else later

unfoldable pub delivery_preference_new :
    DeliveryStrategy → List ChannelEndpoint → Result DeliveryPreference DeliveryPreferenceError
unfolding repeated_channel
delivery_preference_new strategy channels =
    if is_empty channels then err empty_channel_list else elim (repeated_channel [] channels) [
      | some channel ↦ err (duplicate_channel channel)
      | none ↦ ok (record { strategy = strategy; channels = channels })
    ]

abbrev pub tier_of : DeliveryStrategy → ℕ → ℕ
tier_of DeliveryStrategy.all index = 0
tier_of DeliveryStrategy.primary_fallback index = u8 index
tier_of DeliveryStrategy.priority_list index = u8 index

-- `enumerate` from the given index.
unfoldable pub tiers_from : DeliveryStrategy → ℕ → List ChannelEndpoint → List (ℕ × ChannelEndpoint)
tiers_from strategy index [] = []
tiers_from strategy index (endpoint ∷ endpoints) =
    (tier_of strategy index, endpoint) ∷ tiers_from strategy (index + 1) endpoints

unfoldable pub tiers : DeliveryPreference → List (ℕ × ChannelEndpoint)
unfolding tiers_from
tiers preference = tiers_from preference.strategy 0 preference.channels

pub record DeliveryIdempotencyKey : Type 0 where
  pub as_str : String

unfoldable pub idempotency_key_new :
    (Uuid → String) → ConsumerId → AlertId → ChannelType → String → DeliveryIdempotencyKey
unfolding channel_type_as_database_value
idempotency_key_new uuid_text consumer_id alert_id channel endpoint_address = record {
  as_str = format (
      uuid_text consumer_id
      ∷ ":"
      ∷ uuid_text alert_id
      ∷ ":"
      ∷ channel_type_as_database_value channel
      ∷ ":"
      ∷ endpoint_address
      ∷ []);
}

pub data InvalidRetryPolicy : Type 0 where
  invalid_retry_policy : InvalidRetryPolicy

pub record RetryPolicy : Type 0 where
  pub max_attempts : ℕ  -- u32

unfoldable pub retry_policy_new : ℕ → Result RetryPolicy InvalidRetryPolicy
retry_policy_new max_attempts =
    if nat_eq max_attempts 0
    then err invalid_retry_policy
    else ok (record { max_attempts = max_attempts })

unfoldable pub standard : RetryPolicy
standard = record { max_attempts = 5 }

-- `<<` on `u64` without overflow checks: the lowest six bits of `by` count, and high bits are lost.
abbrev pub shift_left : ℕ → ℕ → ℕ
shift_left n by = u64 (n * 2 ^ (by % 64))

-- Seconds. `saturating_sub` on `u32` is the truncated `-`; the product wraps around.
unfoldable pub backoff_after_attempt : RetryPolicy → ℕ → ℕ
backoff_after_attempt policy attempt_count =
    let exponent = min (attempt_count - 1) 6 in
    let multiplier = shift_left 1 exponent in min (u64 (30 * multiplier)) (30 * 60)
