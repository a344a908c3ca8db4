-- ===== src/Workflow/Delivery.antt =====
-- crates/application/src/delivery_workflow.rs, and the events of webhook.rs: planning deliveries and
-- recording what becomes of them. `sha256` stands for the digest of the `sha2` crate.
pub mod Callbacks
use safe_cameroon.Common.{ℕ, ◌+◌, String, Bool, List, [], ◌∷◌, Option, Result, ok, err, map_ok}
use safe_cameroon.Domain.Ids.{
  Uuid, ConsumerId, DeliveryId, DeliveryEventId, DeliveryAttemptId, AuditEventId, OutboxEventId,
}
use safe_cameroon.Domain.Alert.{Alert}
use safe_cameroon.Domain.Subscription.{ConsumerMatch}
use safe_cameroon.Domain.Delivery.{
  Delivery, DeliveryAttempt, DeliveryEvent, DeliveryPreference, DeliveryTransitionError,
  RetryPolicy, start_attempt, record_success, record_delivered, record_failure,
}
use safe_cameroon.Domain.Delivery
use safe_cameroon.Workflow.Case.{Actor}

pub record PlannedDelivery : Type 0 where
  pub delivery : Delivery
  pub event : DeliveryEvent
  pub idempotency_key_hash : List ℕ
  pub actor : Actor
  pub audit_event_id : AuditEventId
  pub outbox_event_id : OutboxEventId
  pub request_id : Uuid

-- The `map` over the planned deliveries; the k-th takes the k-th identifiers.
unfoldable pub planned_from :
    (String → List ℕ)
    → (ℕ → AuditEventId × OutboxEventId)
    → Actor
    → Uuid
    → ℕ
    → List (Delivery × DeliveryEvent)
    → List PlannedDelivery
planned_from sha256 mint actor request_id k [] = []
planned_from sha256 mint actor request_id k ((delivery, event) ∷ rest) =
    record {
      delivery = delivery;
      event = event;
      idempotency_key_hash = sha256 delivery.idempotency_key.as_str;
      actor = actor;
      audit_event_id = (mint k).0;
      outbox_event_id = (mint k).1;
      request_id = request_id;
    }
    ∷ planned_from sha256 mint actor request_id (k + 1) rest

unfoldable pub plan_deliveries :
    (String → List ℕ)
    → (Uuid → String)
    → (ℕ → DeliveryId × DeliveryEventId)
    → (ℕ → AuditEventId × OutboxEventId)
    → Alert
    → List ConsumerMatch
    → (ConsumerId → Option DeliveryPreference)
    → RetryPolicy
    → Actor
    → Uuid
    → List PlannedDelivery
unfolding planned_from
plan_deliveries sha256 uuid_text mint mint_metadata alert consumer_matches preferences retry_policy
      actor request_id =
    planned_from sha256 mint_metadata actor request_id 0
      (Delivery.plan_deliveries uuid_text mint alert consumer_matches preferences retry_policy)

pub record DeliveryTransition : Type 0 where
  pub event : DeliveryEvent
  pub actor : Actor
  pub audit_event_id : AuditEventId
  pub outbox_event_id : OutboxEventId
  pub request_id : Uuid

pub record DeliveryAttemptTransition : Type 0 where
  pub event : DeliveryEvent
  pub attempt : DeliveryAttempt
  pub actor : Actor
  pub audit_event_id : AuditEventId
  pub outbox_event_id : OutboxEventId
  pub request_id : Uuid

-- The identifiers that recording a transition makes.
pub record Minted : Type 0 where
  pub event_id : DeliveryEventId
  pub attempt_id : DeliveryAttemptId
  pub audit_event_id : AuditEventId
  pub outbox_event_id : OutboxEventId

unfoldable pub delivery_transition_new : Minted → DeliveryEvent → Actor → Uuid → DeliveryTransition
delivery_transition_new ids event actor request_id = record {
  event = event;
  actor = actor;
  audit_event_id = ids.audit_event_id;
  outbox_event_id = ids.outbox_event_id;
  request_id = request_id;
}

unfoldable pub delivery_attempt_transition_new :
    Minted → DeliveryEvent × DeliveryAttempt → Actor → Uuid → DeliveryAttemptTransition
delivery_attempt_transition_new ids (event, attempt) actor request_id = record {
  event = event;
  attempt = attempt;
  actor = actor;
  audit_event_id = ids.audit_event_id;
  outbox_event_id = ids.outbox_event_id;
  request_id = request_id;
}

unfoldable pub start_delivery_attempt :
    Minted → Delivery → Actor → Uuid → Delivery × Result DeliveryTransition DeliveryTransitionError
unfolding start_attempt delivery_transition_new
start_delivery_attempt ids d actor request_id =
    let (d', result) = start_attempt ids.event_id d in
    (d', map_ok (λ event. delivery_transition_new ids event actor request_id) result)

unfoldable pub record_delivery_success :
    Minted
    → Delivery
    → Option String
    → Actor
    → Uuid
    → Delivery × Result DeliveryAttemptTransition DeliveryTransitionError
unfolding record_success delivery_attempt_transition_new
record_delivery_success ids d provider_message_id actor request_id =
    let (d', result) = record_success ids.event_id ids.attempt_id d provider_message_id in
    (d', map_ok (λ made. delivery_attempt_transition_new ids made actor request_id) result)

unfoldable pub record_delivery_delivered :
    Minted → Delivery → Actor → Uuid → Delivery × Result DeliveryTransition DeliveryTransitionError
unfolding record_delivered delivery_transition_new
record_delivery_delivered ids d actor request_id =
    let (d', result) = record_delivered ids.event_id d in
    (d', map_ok (λ event. delivery_transition_new ids event actor request_id) result)

unfoldable pub record_delivery_failure :
    Minted
    → Delivery
    → Bool
    → String
    → Actor
    → Uuid
    → Delivery × Result DeliveryAttemptTransition DeliveryTransitionError
unfolding record_failure delivery_attempt_transition_new
record_delivery_failure ids d retryable reason actor request_id =
    let (d', result) = record_failure ids.event_id ids.attempt_id d retryable reason in
    (d', map_ok (λ made. delivery_attempt_transition_new ids made actor request_id) result)

pub data ProviderDeliveryStatus : Type 0 where
  delivered : ProviderDeliveryStatus
  failed : Bool → String → ProviderDeliveryStatus

pub record WebhookEvent : Type 0 where
  pub provider_event_id : String
  pub provider_message_id : String
  pub status : ProviderDeliveryStatus

pub data WebhookAppliedTransition : Type 0 where
  delivered : DeliveryTransition → WebhookAppliedTransition
  failed : DeliveryAttemptTransition → WebhookAppliedTransition

unfoldable pub apply_webhook_event :
    Minted
    → Delivery
    → WebhookEvent
    → Actor
    → Uuid
    → Delivery × Result WebhookAppliedTransition DeliveryTransitionError
unfolding record_delivery_delivered record_delivery_failure
apply_webhook_event ids d event actor request_id = elim event.status [
  | delivered ↦
      let (d', result) = record_delivery_delivered ids d actor request_id in
      (d', map_ok WebhookAppliedTransition.delivered result)
  | failed retryable reason ↦
      let (d', result) = record_delivery_failure ids d retryable reason actor request_id in
      (d', map_ok WebhookAppliedTransition.failed result)
]
