-- ===== src/Domain/Delivery.antt =====
-- crates/domain/src/delivery.rs: the delivery aggregate and its planning. A method on `&mut self`
-- returns the new delivery with its result.
mod Vocabulary
mod Plan
pub mod Attempts
pub mod Lifecycle
pub mod Backoff
pub mod Keys
pub mod Preferences
pub mod Planning
pub mod Due
unfoldable pub use Vocabulary.*
unfoldable pub use Plan.*
use safe_cameroon.Common.{
  ℕ, ◌+◌, String, Bool, true, false, not, List, [], ◌∷◌, ◌++◌, map, Option, none, some, Result, ok,
  err, ◌&&◌, u32, u64, ltb, length, if◌then◌else◌, ◌==◌,
}
use safe_cameroon.Domain.Ids.{
  Uuid, AlertId, ConsumerId, DeliveryId, DeliveryEventId, DeliveryAttemptId,
}
use safe_cameroon.Domain.Alert.{Alert}
use safe_cameroon.Domain.Subscription.{MatchedSubscription, ConsumerMatch}

pub record DeliveryTransitionError : Type 0 where
  pub from : DeliveryStatus
  pub to : DeliveryStatus

unfoldable pub is_terminal : DeliveryStatus → Bool
is_terminal DeliveryStatus.delivered = true
is_terminal DeliveryStatus.failed_permanently = true
is_terminal _ = false

pub record DeliveryEvent : Type 0 where
  pub id : DeliveryEventId
  pub delivery_id : DeliveryId
  pub event_type : DeliveryEventType
  pub aggregate_version : ℕ  -- u64

pub data DeliveryAttemptOutcome : Type 0 where
  sent : Option String → DeliveryAttemptOutcome
  failed : Bool → String → DeliveryAttemptOutcome

pub record DeliveryAttempt : Type 0 where
  pub id : DeliveryAttemptId
  pub delivery_id : DeliveryId
  pub attempt_number : ℕ  -- u32
  pub outcome : DeliveryAttemptOutcome

pub record Delivery : Type 0 where
  pub id : DeliveryId
  pub alert_id : AlertId
  pub consumer_id : ConsumerId
  pub channel : ChannelType
  pub endpoint_address : String
  pub tier : ℕ  -- u8
  pub idempotency_key : DeliveryIdempotencyKey
  pub matching_subscriptions : List MatchedSubscription
  pub retry_policy : RetryPolicy
  pub status : DeliveryStatus
  pub attempt_count : ℕ  -- u32
  pub version : ℕ  -- u64

abbrev pub event : DeliveryEventId → Delivery → DeliveryEventType → DeliveryEvent
event event_id d event_type = record {
  id = event_id;
  delivery_id = d.id;
  event_type = event_type;
  aggregate_version = d.version;
}

abbrev pub transition_error : Delivery → DeliveryStatus → DeliveryTransitionError
transition_error d to = record { from = d.status; to = to }

abbrev pub attempt : DeliveryAttemptId → Delivery → DeliveryAttemptOutcome → DeliveryAttempt
attempt attempt_id d outcome = record {
  id = attempt_id;
  delivery_id = d.id;
  attempt_number = d.attempt_count;
  outcome = outcome;
}

-- `Some` only while the delivery waits for its next attempt; in seconds.
unfoldable pub retry_backoff : Delivery → Option ℕ
unfolding backoff_after_attempt
retry_backoff d =
    if d.status == DeliveryStatus.retrying
    then some (backoff_after_attempt d.retry_policy d.attempt_count)
    else none

abbrev pub may_start : DeliveryStatus → Bool
may_start DeliveryStatus.queued = true
may_start DeliveryStatus.retrying = true
may_start _ = false

unfoldable pub start_attempt :
    DeliveryEventId → Delivery → Delivery × Result DeliveryEvent DeliveryTransitionError
start_attempt event_id d =
    if not (may_start d.status)
    then (d, err (transition_error d DeliveryStatus.sending))
    else let d' : Delivery = record d {
      status = DeliveryStatus.sending;
      attempt_count = u32 (d.attempt_count + 1);
      version = u64 (d.version + 1);
    } in
      (d', ok (event event_id d' DeliveryEventType.delivery_started))

unfoldable pub record_success :
    DeliveryEventId
    → DeliveryAttemptId
    → Delivery
    → Option String
    → Delivery × Result (DeliveryEvent × DeliveryAttempt) DeliveryTransitionError
record_success event_id attempt_id d provider_message_id =
    if not (d.status == DeliveryStatus.sending)
    then (d, err (transition_error d DeliveryStatus.sent))
    else let d' : Delivery = record d {
      status = DeliveryStatus.sent;
      version = u64 (d.version + 1);
    } in
      (
        d',
        ok (
          event event_id d' DeliveryEventType.delivery_sent,
          attempt attempt_id d' (sent provider_message_id),
        ),
      )

unfoldable pub record_delivered :
    DeliveryEventId → Delivery → Delivery × Result DeliveryEvent DeliveryTransitionError
record_delivered event_id d =
    if not (d.status == DeliveryStatus.sent)
    then (d, err (transition_error d DeliveryStatus.delivered))
    else let d' : Delivery = record d {
      status = DeliveryStatus.delivered;
      version = u64 (d.version + 1);
    } in
      (d', ok (event event_id d' DeliveryEventType.delivery_delivered))

abbrev pub will_retry : Bool → Delivery → Bool
will_retry retryable d = retryable && ltb d.attempt_count d.retry_policy.max_attempts

unfoldable pub record_failure :
    DeliveryEventId
    → DeliveryAttemptId
    → Delivery
    → Bool
    → String
    → Delivery × Result (DeliveryEvent × DeliveryAttempt) DeliveryTransitionError
record_failure event_id attempt_id d retryable reason =
    if not (d.status == DeliveryStatus.sending)
    then (d, err (transition_error d DeliveryStatus.failed_permanently))
    else let d' : Delivery = record d {
      status =
          if will_retry retryable d
          then DeliveryStatus.retrying
          else DeliveryStatus.failed_permanently;
      version = u64 (d.version + 1);
    } in
      let event_type =
        if will_retry retryable d
        then DeliveryEventType.delivery_retried
        else DeliveryEventType.delivery_failed in
      (d', ok (event event_id d' event_type, attempt attempt_id d' (failed retryable reason)))

module _ (uuid_text : Uuid → String) where
  unfoldable pub plan_one :
      DeliveryId
      → DeliveryEventId
      → AlertId
      → ConsumerId
      → ChannelEndpoint
      → ℕ
      → List MatchedSubscription
      → RetryPolicy
      → Delivery × DeliveryEvent
  unfolding idempotency_key_new
  plan_one id event_id alert_id consumer_id endpoint tier matching_subscriptions retry_policy =
      let d : Delivery = record {
        id = id;
        alert_id = alert_id;
        consumer_id = consumer_id;
        channel = endpoint.channel;
        endpoint_address = endpoint.address;
        tier = tier;
        idempotency_key =
            idempotency_key_new uuid_text consumer_id alert_id endpoint.channel endpoint.address;
        matching_subscriptions = matching_subscriptions;
        retry_policy = retry_policy;
        status = DeliveryStatus.queued;
        attempt_count = 0;
        version = 1;
      } in
      (d, event event_id d DeliveryEventType.delivery_requested)

  unfoldable pub delivery_reconstitute :
      DeliveryId
      → AlertId
      → ConsumerId
      → ChannelType
      → String
      → ℕ
      → List MatchedSubscription
      → RetryPolicy
      → DeliveryStatus
      → ℕ
      → ℕ
      → Delivery
  unfolding idempotency_key_new
  delivery_reconstitute id alert_id consumer_id channel address tier matching policy status count
        version =
      record {
        id = id;
        alert_id = alert_id;
        consumer_id = consumer_id;
        channel = channel;
        endpoint_address = address;
        tier = tier;
        idempotency_key = idempotency_key_new uuid_text consumer_id alert_id channel address;
        matching_subscriptions = matching;
        retry_policy = policy;
        status = status;
        attempt_count = count;
        version = version;
      }

  -- The inner loop, over the tiers of one consumer. The k-th delivery takes the k-th identifiers.
  unfoldable pub plan_tiers :
      (ℕ → DeliveryId × DeliveryEventId)
      → ℕ
      → AlertId
      → ConsumerMatch
      → RetryPolicy
      → List (ℕ × ChannelEndpoint)
      → List (Delivery × DeliveryEvent)
  unfolding plan_one
  plan_tiers mint k alert_id m retry_policy [] = []
  plan_tiers mint k alert_id m retry_policy ((tier, endpoint) ∷ rest) =
      plan_one (mint k).0 (mint k).1 alert_id m.consumer_id endpoint tier m.matching_subscriptions
        retry_policy
      ∷ plan_tiers mint (k + 1) alert_id m retry_policy rest

  -- `preferences` is the map's `get`; a consumer without a preference is skipped.
  unfoldable pub plan_from :
      (ℕ → DeliveryId × DeliveryEventId)
      → ℕ
      → AlertId
      → List ConsumerMatch
      → (ConsumerId → Option DeliveryPreference)
      → RetryPolicy
      → List (Delivery × DeliveryEvent)
  unfolding plan_tiers tiers
  plan_from mint k alert_id [] preferences retry_policy = []
  plan_from mint k alert_id (m ∷ ms) preferences retry_policy = elim (preferences m.consumer_id) [
    | none ↦ plan_from mint k alert_id ms preferences retry_policy
    | some preference ↦
        let here = plan_tiers mint k alert_id m retry_policy (tiers preference) in
        here ++ plan_from mint (k + length here) alert_id ms preferences retry_policy
  ]

  unfoldable pub plan_deliveries :
      (ℕ → DeliveryId × DeliveryEventId)
      → Alert
      → List ConsumerMatch
      → (ConsumerId → Option DeliveryPreference)
      → RetryPolicy
      → List (Delivery × DeliveryEvent)
  unfolding plan_from
  plan_deliveries mint alert consumer_matches preferences retry_policy =
      plan_from mint 0 alert.id consumer_matches preferences retry_policy
