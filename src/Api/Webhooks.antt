-- ===== src/Api/Webhooks.antt =====
-- apps/api/src/webhooks.rs, with the replay guard of crates/infrastructure/src/webhook.rs: a provider's
-- callback. The verifiers, ASCII upper-casing and the errors of the database are what the environment
-- answers; a query that fails has changed nothing.
pub mod Replay
pub mod Failures
use safe_cameroon.Common.{
  ℕ, String, Bool, true, false, List, [], ◌∷◌, any, Option, none, some, Result, ok, err,
  if◌then◌else◌, ◌==◌, ◌&&◌, String_eq,
}
use safe_cameroon.Domain.Ids.{Uuid}
use safe_cameroon.Domain.Delivery.{
  ChannelType, ChannelType_eq, Delivery, channel_type_from_database_value,
}
use safe_cameroon.Workflow.Case.{automated}
use safe_cameroon.Workflow.Delivery.{
  Minted, WebhookEvent, WebhookAppliedTransition, apply_webhook_event,
}
use safe_cameroon.Store.Deliveries.{apply_transition}
use safe_cameroon.Store.Deliveries.Lookups.{
  Tables, apply_attempt_transition, find_by_provider_message_id,
}
use safe_cameroon.Api.Error.{ApiError}

-- The `webhook_replay_events` and the delivery tables.
pub record State : Type 0 where
  pub seen : List (ChannelType × String)
  pub tables : Tables

-- `WebhookVerifier::verify_and_parse` of a registered verifier, its errors alike.
pub record Environment : Type 0 where
  pub upper : String → String
  pub verifier :
      ChannelType → String → Option (List (String × String) → List ℕ → Option WebhookEvent)
  pub guard_fails : Bool
  pub lookup_fails : Bool
  pub write_fails : Bool
  pub now : ℕ
  pub ids : Minted

pub record Callback : Type 0 where
  pub channel_segment : String
  pub provider : String
  pub headers : List (String × String)
  pub body : List ℕ
  pub request_id : Uuid

-- The seen events after an insertion, and whether the event is new.
unfoldable pub record_if_new :
    List (ChannelType × String) → ChannelType → String → List (ChannelType × String) × Bool
record_if_new seen channel id =
    if any (λ e. e.0 == channel && e.1 == id) seen
    then (seen, false)
    else ((channel, id) ∷ seen, true)

unfoldable pub persistence_failed : Uuid → ApiError
persistence_failed request_id = record {
  status = 500;
  code = "WEBHOOK_PERSISTENCE_FAILED";
  message = "The webhook event could not be recorded. Please retry.";
  request_id = request_id;
}

abbrev pub refused : ℕ → String → String → Uuid → ApiError
refused status code message request_id = record {
  status = status;
  code = code;
  message = message;
  request_id = request_id;
}

-- The row and, for a failure, the attempt; a conflict is answered like a success.
unfoldable pub write_applied : ℕ → Tables → Delivery → WebhookAppliedTransition → Tables
unfolding apply_transition apply_attempt_transition
write_applied now tables d (WebhookAppliedTransition.delivered transition) = record {
  rows = (apply_transition now tables.rows d).0;
  attempts = tables.attempts;
}
write_applied now tables d (WebhookAppliedTransition.failed transition) =
    (apply_attempt_transition now tables d transition).0

-- The part of the handler after the replay guard.
unfoldable pub apply_event : Environment → State → WebhookEvent → Uuid → State × Result ℕ ApiError
unfolding apply_webhook_event write_applied find_by_provider_message_id persistence_failed
apply_event env s event request_id =
    if env.lookup_fails
    then (s, err (persistence_failed request_id))
    else elim (find_by_provider_message_id s.tables event.provider_message_id) [
      | none ↦ (s, ok 200)
      | some delivery ↦
          let (delivery', result) =
            apply_webhook_event env.ids delivery event automated request_id in
          elim result [
            | err e ↦ (s, ok 200)
            | ok applied ↦ if env.write_fails then (s, err (persistence_failed request_id)) else (
              record { seen = s.seen; tables = write_applied env.now s.tables delivery' applied },
              ok 200,
            )
          ]
    ]

-- The part after the verification.
unfoldable pub guard_event :
    Environment → State → ChannelType → WebhookEvent → Uuid → State × Result ℕ ApiError
unfolding record_if_new apply_event
guard_event env s channel event request_id =
    let (seen, is_new) = record_if_new s.seen channel event.provider_event_id in
    if env.guard_fails
    then (s, err (persistence_failed request_id))
    else if is_new
    then apply_event env (record { seen = seen; tables = s.tables }) event request_id
    else (s, ok 200)

unfoldable pub receive_webhook : Environment → State → Callback → State × Result ℕ ApiError
unfolding channel_type_from_database_value guard_event
receive_webhook env s c = elim (channel_type_from_database_value (env.upper c.channel_segment)) [
  | none ↦ (
    s,
    err (
        refused 404 "UNKNOWN_WEBHOOK_CHANNEL" "No channel is registered with this name."
          c.request_id),
  )
  | some channel ↦ elim (env.verifier channel c.provider) [
    | none ↦ (
      s,
      err (
          refused 404 "UNKNOWN_WEBHOOK_PROVIDER"
            "No webhook provider is registered for this channel." c.request_id),
    )
    | some verify_and_parse ↦ elim (verify_and_parse c.headers c.body) [
      | none ↦ (
        s,
        err (
            refused 401 "WEBHOOK_VERIFICATION_FAILED"
              "The webhook signature or payload could not be verified." c.request_id),
      )
      | some event ↦ guard_event env s channel event c.request_id
    ]
  ]
]
