-- ===== src/Tests/Worker.antt =====
-- The worker: apps/worker/src; and the table of the rate limits.
use Prim.Native.Char.{code}
use mathlib.Core.Path.{ap₂}
use text.Mathlib.TextEquality.{Char-path}
use safe_cameroon.Common.{
  ℕ, ◌+◌, ◌<◌, ◌≡◌, ◌≢◌, ◌⊎◌, refl, String, true, leb, List, [], ◌∷◌, ◌++◌, map, length, Option,
  none, some, Result, ok, err, Memᴰ, All-mem, arith, List_eq, ℕ_eq,
}
use safe_cameroon.Domain.Ids.{AlertId, ConsumerId}
use safe_cameroon.Domain.Alert.{Alert}
use safe_cameroon.Domain.Consumer.{Consumer}
use safe_cameroon.Domain.Case.{IncidentType, IncidentType-discrete}
use safe_cameroon.Domain.Subscription.{Subscription, SubscriptionRule}
use safe_cameroon.Domain.Delivery.{
  ChannelType, ChannelEndpoint, DeliveryPreference, DeliveryStatus, idempotency_key_new, standard,
  plan_deliveries,
}
use safe_cameroon.Workflow.Message.{OutboundMessage}
use safe_cameroon.Workflow.RateLimit.{RateLimitScope, limit}
use safe_cameroon.Store.Deliveries.{Row}
use safe_cameroon.Store.Deliveries.Claim.Selection.{selected}
use safe_cameroon.Store.Deliveries.Lookups.{Tables}
use safe_cameroon.Store.RateLimits.{record_and_check, window_start}
use safe_cameroon.Store.RateLimits.Counting.{request, cleanup, run, requests}
use safe_cameroon.Store.RateLimits.Limiting.{record_and_check_lem}
use safe_cameroon.Worker.Dispatch
use safe_cameroon.Worker.Dispatch.{ChannelSendOutcome, ChannelError, process_batch}
use safe_cameroon.Worker.Dispatch.Loop.{attempt_key, next_key}
use safe_cameroon.Worker.Dispatch.Settled.{process_batch-settles}
use safe_cameroon.Worker.Matching
use safe_cameroon.Worker.Matching.{match_and_plan}
use safe_cameroon.Worker.Matching.Reaching.{match_and_plan-reaches}
use safe_cameroon.Worker.Matching.Provenance.{IsKeyed}
use safe_cameroon.Worker.Matching.Addressed.{Reason, match_and_plan-from}
use safe_cameroon.Tests.Samples.{community_alert, sms_and_push, tally, same_text}
use safe_cameroon.Tests.Planning.{tally-NoColon, tally_exact}
use safe_cameroon.Tests.Claim.{two_tiers, mint, nobody, two_tiers-queued}

-- Channels of one kind only, whose provider refuses every message for now.
abbrev refuses : ChannelType → Option (ℕ → OutboundMessage → Result ChannelSendOutcome ChannelError)
refuses ChannelType.sms = some (λ k message. err (record { retryable = true; message = "busy" }))
refuses _ = none

abbrev found_alert : ℕ → AlertId → Result (Option Alert) String
found_alert k id = ok (some community_alert)

abbrev no_consumer : ℕ → ConsumerId → Result (Option Consumer) String
no_consumer k id = ok none

abbrev dispatching : Dispatch.Environment String
dispatching = record {
  find_alert = found_alert;
  find_consumer = no_consumer;
  registry = refuses;
  commit_error = λ k. none;
  clock = λ k. 200;
  mint = mint;
  lower = same_text;
}

abbrev two_tier_tables : Tables
two_tier_tables = record { rows = two_tiers; attempts = [] }

two_tiers-fits : (r : Row) → Memᴰ r two_tiers → r.delivery.version + 2 < 18446744073709551616
two_tiers-fits r m =
    All-mem (λ x. x.delivery.version + 2 < 18446744073709551616) m (omega arith, (omega arith, tt))

two_tiers-idle : (r : Row) → Memᴰ r two_tiers → r.delivery.status ≢ DeliveryStatus.sending
two_tiers-idle r m e = cc (two_tiers-queued r m, e)

process_batch-settles_example :
    ((process_batch dispatching mint 100 nobody two_tier_tables 10).1
      ≡ ok (length (selected 100 nobody two_tiers 10)))
    × ((r : Row)
        → Memᴰ r (process_batch dispatching mint 100 nobody two_tier_tables 10).0.rows
        → r.delivery.status ≢ DeliveryStatus.sending)
    × (map attempt_key (process_batch dispatching mint 100 nobody two_tier_tables 10).0.attempts
        ≡ map attempt_key two_tier_tables.attempts
          ++ map next_key (selected 100 nobody two_tiers 10))
process_batch-settles_example =
    process_batch-settles dispatching mint 100 nobody two_tier_tables 10
      (record { alerts = λ k id. refl; consumers = λ k id. refl; commits = λ k. refl })
      (refl, (refl, tt)) two_tiers-fits two_tiers-idle

abbrev children : Subscription
children = record {
  id = 50;
  consumer_id = 40;
  version = 1;
  rules = SubscriptionRule.incident_type (IncidentType.missing_child ∷ []) ∷ [];
  created_at = none;
}

abbrev subscribed : ℕ → Result (List Subscription) String
subscribed k = ok (children ∷ [])

abbrev prefers : ℕ → ConsumerId → Result (Option DeliveryPreference) String
prefers k c = ok (some sms_and_push)

-- A digest without collisions: the text itself.
abbrev text_codes : String → List ℕ
text_codes String.[] = []
text_codes (String.◌∷◌ c s) = code c ∷ text_codes s

text_codes_exact : (s t : String) → text_codes s ≡ text_codes t → s ≡ t
text_codes_exact String.[] String.[] h = refl
text_codes_exact String.[] (String.◌∷◌ d t) h = cc
text_codes_exact (String.◌∷◌ c s) String.[] h = cc
text_codes_exact (String.◌∷◌ c s) (String.◌∷◌ d t) h =
    let same_code : code c ≡ code d = cc in
    let same_codes : text_codes s ≡ text_codes t = cc in
    ap₂ String.◌∷◌ (Char-path c d same_code) (text_codes_exact s t same_codes)

abbrev matching : Matching.Environment String
matching = record {
  find_alert = found_alert;
  list_all = subscribed;
  find_by_consumer = prefers;
  commit_error = λ k j. none;
  publish_error = λ k. none;
  mint = λ k j. (30 + j, 60 + j);
  mint_metadata = λ k j. (70 + j, 80 + j);
  request_id = λ k. 9;
  sha256 = text_codes;
  uuid_text = tally;
  lower = same_text;
}

abbrev by_push : ChannelEndpoint
by_push = record { channel = ChannelType.push; address = "endpoint" }

abbrev added : Row
added = record {
  delivery = record {
    id = 30;
    alert_id = 20;
    consumer_id = 40;
    channel = ChannelType.sms;
    endpoint_address = "+237600000000";
    tier = 0;
    idempotency_key = idempotency_key_new tally 40 20 ChannelType.sms "+237600000000";
    matching_subscriptions = record { subscription_id = 50; subscription_version = 1 } ∷ [];
    retry_policy = standard;
    status = DeliveryStatus.queued;
    attempt_count = 0;
    version = 1;
  };
  idempotency_key_hash =
      text_codes (idempotency_key_new tally 40 20 ChannelType.sms "+237600000000").as_str;
  next_attempt_at = none;
}

added-IsKeyed : (r : Row) → Memᴰ r (added ∷ []) → IsKeyed text_codes tally r
added-IsKeyed r m =
    All-mem (λ x. IsKeyed text_codes tally x) m (record { keyed = refl; filed = refl }, tt)

match_and_plan-reaches_example :
    (r : Row) × Memᴰ r (match_and_plan matching 0 (added ∷ []) 20).0
    × (r.delivery.consumer_id ≡ 40)
    × (r.delivery.alert_id ≡ 20)
    × (r.delivery.channel ≡ ChannelType.push)
    × (r.delivery.endpoint_address ≡ "endpoint")
match_and_plan-reaches_example =
    match_and_plan-reaches matching 0 (added ∷ []) 20 community_alert (children ∷ []) children
      sms_and_push by_push (record { preferences = λ k c. refl; commits = λ k j. refl })
      tally-NoColon tally_exact added-IsKeyed (λ r m same. text_codes_exact _ _ same) refl refl
      (Memᴰ.head refl) (Memᴰ.head refl, tt) refl (Memᴰ.tail (Memᴰ.head refl))

added-there : Memᴰ added (match_and_plan matching 0 [] 20).0
unfolding match_and_plan IncidentType-discrete plan_deliveries
added-there = Memᴰ.head refl

match_and_plan-from_example :
    Memᴰ added []
    ⊎ ((alert : Alert) × (subscriptions : List Subscription) × (found_alert 0 20 ≡ ok (some alert))
        × (subscribed 0 ≡ ok subscriptions)
        × Reason matching 0 alert subscriptions added)
match_and_plan-from_example = match_and_plan-from matching 0 [] 20 added added-there

record_and_check_lem_example :
    (record_and_check
      (run [] (request 100 RateLimitScope.reviewer_login_attempt "10.0.0.1" ∷ cleanup 100 ∷ []))
      120
      RateLimitScope.reviewer_login_attempt
      "10.0.0.1").1
    ≡ ok (
        leb
          (requests RateLimitScope.reviewer_login_attempt "10.0.0.1"
              (window_start 120 RateLimitScope.reviewer_login_attempt)
              (request 100 RateLimitScope.reviewer_login_attempt "10.0.0.1" ∷ cleanup 100 ∷ [])
            + 1)
          (limit RateLimitScope.reviewer_login_attempt))
record_and_check_lem_example =
    record_and_check_lem
      (request 100 RateLimitScope.reviewer_login_attempt "10.0.0.1" ∷ cleanup 100 ∷ []) 120
      RateLimitScope.reviewer_login_attempt "10.0.0.1" (omega arith)
      (omega arith, (omega arith, tt))
