-- ===== src/Tests/Api.antt =====
-- The HTTP API: apps/api/src.
use safe_cameroon.Common.{ℕ, ◌≡◌, refl, String, false, List, [], ◌∷◌, Option, some, ok}
use safe_cameroon.Domain.Delivery.{ChannelType, channel_type_from_database_value}
use safe_cameroon.Workflow.Delivery.{WebhookEvent, ProviderDeliveryStatus}
use safe_cameroon.Api.Webhooks.{State, Environment, Callback, apply_event, receive_webhook}
use safe_cameroon.Api.Webhooks.Replay.{receive_each, verified, receive_webhook_once}
use safe_cameroon.Api.Webhooks.Failures.{receive_webhook-failed}
use safe_cameroon.Tests.Claim.{made, two_tiers-queued, two_tiers-small, first_sent, after_success}

abbrev blocked : WebhookEvent
blocked = record {
  provider_event_id = "evt-1";
  provider_message_id = "sms-1";
  status = ProviderDeliveryStatus.failed false "blocked";
}

abbrev as_blocked : List (String × String) → List ℕ → Option WebhookEvent
as_blocked headers body = some blocked

abbrev sandbox :
    ChannelType → String → Option (List (String × String) → List ℕ → Option WebhookEvent)
sandbox channel provider = some as_blocked

abbrev serving : Environment
serving = record {
  upper = λ s. "SMS";
  verifier = sandbox;
  guard_fails = false;
  lookup_fails = false;
  write_fails = false;
  now = 300;
  ids = made;
}

abbrev callback : Callback
callback = record {
  channel_segment = "sms";
  provider = "sandbox";
  headers = [];
  body = [];
  request_id = 9;
}

abbrev stored : State
stored = record { seen = []; tables = first_sent.tables }

callback-verified : verified serving callback ≡ some (ChannelType.sms, blocked)
unfolding verified channel_type_from_database_value
callback-verified = refl

-- Another event in between.
abbrev as_delivered : List (String × String) → List ℕ → Option WebhookEvent
as_delivered headers body = some (record {
  provider_event_id = "evt-2";
  provider_message_id = "sms-1";
  status = ProviderDeliveryStatus.delivered;
})

abbrev others : List (Environment × Callback)
others = (record serving { verifier = λ channel provider. some as_delivered }, callback) ∷ []

receive_webhook_once_example :
    (receive_webhook serving stored callback
      ≡ apply_event serving
          (record { seen = (ChannelType.sms, "evt-1") ∷ []; tables = first_sent.tables })
          blocked
          9)
    × (receive_webhook serving
          (receive_each (receive_webhook serving stored callback).0 others)
          callback
        ≡ (receive_each (receive_webhook serving stored callback).0 others, ok 200))
receive_webhook_once_example =
    receive_webhook_once serving serving stored callback callback ChannelType.sms blocked blocked
      others callback-verified callback-verified refl refl refl

receive_webhook-failed_example : (receive_webhook serving stored callback).0.tables ≡ stored.tables
receive_webhook-failed_example =
    receive_webhook-failed serving stored callback ChannelType.sms blocked false "blocked"
      (refl, (refl, tt)) two_tiers-queued two_tiers-small after_success refl callback-verified refl
