-- ===== src/Tests/Planning.antt =====
-- Planning: crates/domain/src/delivery.rs.
use safe_cameroon.Common.{
  ℕ, zero, suc, ◌≡◌, ◌≢◌, refl, subst, ap, false, map, Option, some, NoColon, Pairwise, is_empty,
  arith,
}
use safe_cameroon.Domain.Ids.{Uuid, ConsumerId, DeliveryId, DeliveryEventId}
use safe_cameroon.Domain.Delivery.{
  ChannelType-discrete, DeliveryPreference, DeliveryStrategy, delivery_preference_new,
  plan_deliveries, repeated_channel,
}
use safe_cameroon.Domain.Delivery.Preferences.{delivery_preference_new-OneEach}
use safe_cameroon.Domain.Delivery.Planning.{plan_deliveries-keys}
use safe_cameroon.Domain.Delivery.Due.{due, plan_deliveries-due}
use safe_cameroon.Tests.Samples.{community_alert, one_match, sms_and_push, tally, three_attempts}

pub tally-NoColon : (u : Uuid) → NoColon (tally u)
tally-NoColon zero = tt
tally-NoColon (suc n) = (omega arith, tally-NoColon n)

pub tally_exact : (u v : Uuid) → tally u ≡ tally v → u ≡ v
tally_exact zero zero h = refl
tally_exact zero (suc v) h = cc
tally_exact (suc u) zero h = cc
tally_exact (suc u) (suc v) h = ap (λ n. suc n) (tally_exact u v (cc))

abbrev mint : ℕ → DeliveryId × DeliveryEventId
mint k = (k, k)

abbrev preferences : ConsumerId → Option DeliveryPreference
preferences c = some sms_and_push

once :
    (c : ConsumerId) (p : DeliveryPreference)
    → preferences c ≡ some p
    → Pairwise (λ a b. a.channel ≢ b.channel) p.channels
once c p h =
    subst (λ q. Pairwise (λ a b. a.channel ≢ b.channel) q.channels) (some-path h)
      ((λ e. cc, tt), (tt, tt))
  where
    some-path : some sms_and_push ≡ some p → sms_and_push ≡ p
    some-path e = cc

plan_deliveries-keys_example :
    Pairwise
      (λ p q. p.0.idempotency_key ≢ q.0.idempotency_key)
      (plan_deliveries tally mint community_alert one_match preferences three_attempts)
plan_deliveries-keys_example =
    plan_deliveries-keys tally tally-NoColon tally_exact mint community_alert one_match preferences
      three_attempts (refl, tt) once

plan_deliveries-due_example :
    map
      (λ p. (p.0.consumer_id, p.0.channel, p.0.endpoint_address))
      (plan_deliveries tally mint community_alert one_match preferences three_attempts)
    ≡ due one_match preferences
plan_deliveries-due_example =
    plan_deliveries-due tally mint community_alert one_match preferences three_attempts

delivery_preference_new-OneEach_example :
    (DeliveryStrategy.primary_fallback ≡ DeliveryStrategy.primary_fallback)
    × (sms_and_push.channels ≡ sms_and_push.channels)
    × (is_empty sms_and_push.channels ≡ false)
    × Pairwise (λ a b. a.channel ≢ b.channel) sms_and_push.channels
unfolding delivery_preference_new repeated_channel ChannelType-discrete
delivery_preference_new-OneEach_example =
    delivery_preference_new-OneEach DeliveryStrategy.primary_fallback sms_and_push.channels
      sms_and_push refl
