-- ===== src/Domain/Delivery/Due.antt =====
-- `plan_deliveries` of crates/domain/src/delivery.rs against a description of whom it serves.
use safe_cameroon.Common.{
  ℕ, ◌+◌, ◌≡◌, refl, ap, inl, inr, String, List, [], ◌∷◌, ◌++◌, map, map-append, Option, none, some,
  length, arith, Option-cases, ℕ_eq,
}
use safe_cameroon.Domain.Ids.{Uuid, AlertId, ConsumerId, DeliveryId, DeliveryEventId}
use safe_cameroon.Domain.Alert.{Alert}
use safe_cameroon.Domain.Subscription.{ConsumerMatch}
use safe_cameroon.Domain.Delivery.{
  ChannelType, ChannelType_eq, ChannelEndpoint, DeliveryStrategy, DeliveryPreference, RetryPolicy,
  Delivery, DeliveryEvent, tiers_from, tiers, plan_one, plan_tiers, plan_from, plan_deliveries,
}
use safe_cameroon.Domain.Delivery.Planning.{plan_from-nil, plan_from-skip, plan_from-join}

-- What the deliveries bring to whom, read off the matches and the preferences alone.
abbrev pub due :
    List ConsumerMatch
    → (ConsumerId → Option DeliveryPreference)
    → List (ConsumerId × ChannelType × String)
due [] preferences = []
due (m ∷ ms) preferences = elim (preferences m.consumer_id) [
  | none ↦ due ms preferences
  | some p ↦ map (λ e. (m.consumer_id, e.channel, e.address)) p.channels ++ due ms preferences
]

pub due-skip :
    (m : ConsumerMatch) (ms : List ConsumerMatch)
    (preferences : ConsumerId → Option DeliveryPreference)
    → preferences m.consumer_id ≡ none
    → due (m ∷ ms) preferences ≡ due ms preferences
due-skip m ms preferences h = ground arith

pub due-join :
    (m : ConsumerMatch) (ms : List ConsumerMatch)
    (preferences : ConsumerId → Option DeliveryPreference) (p : DeliveryPreference)
    → preferences m.consumer_id ≡ some p
    → due (m ∷ ms) preferences
      ≡ map (λ e. (m.consumer_id, e.channel, e.address)) p.channels ++ due ms preferences
due-join m ms preferences p h = ground arith

module _ (uuid_text : Uuid → String) where
  abbrev pub brings : Delivery × DeliveryEvent → ConsumerId × ChannelType × String
  brings p = (p.0.consumer_id, p.0.channel, p.0.endpoint_address)

  plan_tiers-brings :
      (mint : ℕ → DeliveryId × DeliveryEventId) (k : ℕ) (a : AlertId) (m : ConsumerMatch)
      (policy : RetryPolicy) (s : DeliveryStrategy) (i : ℕ) (es : List ChannelEndpoint)
      → map brings (plan_tiers uuid_text mint k a m policy (tiers_from s i es))
        ≡ map (λ e. (m.consumer_id, e.channel, e.address)) es
  unfolding plan_tiers plan_one tiers_from
  plan_tiers-brings mint k a m policy s i [] = refl
  plan_tiers-brings mint k a m policy s i (e ∷ es) =
      ap (λ l. (m.consumer_id, e.channel, e.address) ∷ l)
        (plan_tiers-brings mint (k + 1) a m policy s (i + 1) es)

  plan_from-brings :
      (mint : ℕ → DeliveryId × DeliveryEventId) (k : ℕ) (a : AlertId) (ms : List ConsumerMatch)
      (preferences : ConsumerId → Option DeliveryPreference) (policy : RetryPolicy)
      → map brings (plan_from uuid_text mint k a ms preferences policy) ≡ due ms preferences
  unfolding tiers
  plan_from-brings mint k a [] preferences policy =
      ap (map brings) (plan_from-nil uuid_text mint k a preferences policy)
  plan_from-brings mint k a (m ∷ ms) preferences policy =
      elim (Option-cases (preferences m.consumer_id)) [
        | inl e ↦
            rw
              (
                plan_from-skip uuid_text mint k a m ms preferences policy e,
                due-skip m ms preferences e,
              )
              (plan_from-brings mint k a ms preferences policy)
        | inr (p, e) ↦
            let k' : ℕ = k + length (plan_tiers uuid_text mint k a m policy (tiers p)) in
            rw
              (
                plan_from-join uuid_text mint k a m ms preferences policy p e,
                due-join m ms preferences p e,
                map-append brings (plan_tiers uuid_text mint k a m policy (tiers p))
                    (plan_from uuid_text mint k' a ms preferences policy),
                plan_tiers-brings mint k a m policy p.strategy 0 p.channels,
                plan_from-brings mint k' a ms preferences policy,
              )
              refl
      ]

  -- The planned deliveries are, in order, one for each matched consumer with a preference and each
  -- channel of it, to that channel's address; a consumer without a preference gets none.
  pub plan_deliveries-due :
      (mint : ℕ → DeliveryId × DeliveryEventId) (alert : Alert) (ms : List ConsumerMatch)
      (preferences : ConsumerId → Option DeliveryPreference) (policy : RetryPolicy)
      → map
          (λ p. (p.0.consumer_id, p.0.channel, p.0.endpoint_address))
          (plan_deliveries uuid_text mint alert ms preferences policy)
        ≡ due ms preferences
  unfolding plan_deliveries
  plan_deliveries-due mint alert ms preferences policy =
      plan_from-brings mint 0 alert.id ms preferences policy
