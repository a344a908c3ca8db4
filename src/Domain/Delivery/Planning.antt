-- ===== src/Domain/Delivery/Planning.antt =====
-- Proofs about the deliveries that `plan_deliveries` of crates/domain/src/delivery.rs makes, and
-- their keys.
use safe_cameroon.Common.{
  ℕ, ◌+◌, ◌≡◌, ◌≢◌, refl, sym, ◌∙◌, inl, inr, String, true, false, List, [], ◌∷◌, ◌++◌, beq_refl,
  Option, none, some, contains, Distinct, length, All, All-append, All-map, Pairwise,
  Pairwise-append, Pairwise-map, NoColon, arith, Option-cases, ℕ_eq,
}
use safe_cameroon.Domain.Ids.{Uuid, AlertId, ConsumerId, DeliveryId, DeliveryEventId}
use safe_cameroon.Domain.Alert.{Alert}
use safe_cameroon.Domain.Subscription.{ConsumerMatch}
use safe_cameroon.Domain.Subscription.Grouping.{consumers}
use safe_cameroon.Domain.Delivery.{
  ChannelType, ChannelType_eq, ChannelEndpoint, DeliveryStrategy, DeliveryPreference, RetryPolicy,
  Delivery, DeliveryEvent, DeliveryStatus, tiers_from, tiers, idempotency_key_new, plan_one,
  plan_tiers, plan_from, plan_deliveries,
}
use safe_cameroon.Domain.Delivery.Keys.{idempotency_key_new_injective}
use safe_cameroon.Domain.Delivery.Preferences.{OneEach}

module _ (uuid_text : Uuid → String) where
  -- A delivery of the alert to the consumer, with the key of what it delivers.
  pub record IsFor (alert_id : AlertId) (c : ConsumerId) (p : Delivery × DeliveryEvent)
      : Type 0 where
    pub alert : p.0.alert_id ≡ alert_id
    pub consumer : p.0.consumer_id ≡ c
    pub keyed :
        p.0.idempotency_key
        ≡ idempotency_key_new uuid_text c alert_id p.0.channel p.0.endpoint_address
    pub queued : (p.0.status ≡ DeliveryStatus.queued) × (p.0.attempt_count ≡ 0) × (p.0.version ≡ 1)
    pub announced : p.1.delivery_id ≡ p.0.id

  plan_tiers-IsFor :
      (mint : ℕ → DeliveryId × DeliveryEventId) (k : ℕ) (a : AlertId) (m : ConsumerMatch)
      (policy : RetryPolicy) (ts : List (ℕ × ChannelEndpoint))
      → All (IsFor a m.consumer_id) (plan_tiers uuid_text mint k a m policy ts)
  unfolding plan_tiers plan_one
  plan_tiers-IsFor mint k a m policy [] = tt
  plan_tiers-IsFor mint k a m policy ((tier, endpoint) ∷ rest) = (
    record {
      alert = refl;
      consumer = refl;
      keyed = refl;
      queued = (refl, refl, refl);
      announced = refl;
    },
    plan_tiers-IsFor mint (k + 1) a m policy rest,
  )

  -- A channel that the endpoints do not have is not the channel of a delivery to them.
  plan_tiers-channel :
      (mint : ℕ → DeliveryId × DeliveryEventId) (k : ℕ) (a : AlertId) (m : ConsumerMatch)
      (policy : RetryPolicy) (s : DeliveryStrategy) (i : ℕ) (es : List ChannelEndpoint)
      (c : ChannelType)
      → All (λ e. c ≢ e.channel) es
      → All (λ p. c ≢ p.0.channel) (plan_tiers uuid_text mint k a m policy (tiers_from s i es))
  unfolding plan_tiers plan_one tiers_from
  plan_tiers-channel mint k a m policy s i [] c h = tt
  plan_tiers-channel mint k a m policy s i (e ∷ es) c h =
      (h.0, plan_tiers-channel mint (k + 1) a m policy s (i + 1) es c h.1)

  plan_tiers-OneEach :
      (mint : ℕ → DeliveryId × DeliveryEventId) (k : ℕ) (a : AlertId) (m : ConsumerMatch)
      (policy : RetryPolicy) (s : DeliveryStrategy) (i : ℕ) (es : List ChannelEndpoint)
      → OneEach es
      → Pairwise
          (λ p q. p.0.channel ≢ q.0.channel)
          (plan_tiers uuid_text mint k a m policy (tiers_from s i es))
  unfolding plan_tiers plan_one tiers_from
  plan_tiers-OneEach mint k a m policy s i [] h = tt
  plan_tiers-OneEach mint k a m policy s i (e ∷ es) h = (
    plan_tiers-channel mint (k + 1) a m policy s (i + 1) es e.channel h.0,
    plan_tiers-OneEach mint (k + 1) a m policy s (i + 1) es h.1,
  )

  IsFor-same_consumer :
      (a : AlertId) (c : ConsumerId) (p : Delivery × DeliveryEvent)
      → IsFor a c p
      → IsFor a p.0.consumer_id p
  IsFor-same_consumer a c p f = record {
    alert = f.alert;
    consumer = refl;
    keyed = rw f.consumer f.keyed;
    queued = f.queued;
    announced = f.announced;
  }

  pub plan_from-nil :
      (mint : ℕ → DeliveryId × DeliveryEventId) (k : ℕ) (a : AlertId)
      (preferences : ConsumerId → Option DeliveryPreference) (policy : RetryPolicy)
      → plan_from uuid_text mint k a [] preferences policy ≡ []
  unfolding plan_from
  plan_from-nil mint k a preferences policy = refl

  pub plan_from-skip :
      (mint : ℕ → DeliveryId × DeliveryEventId) (k : ℕ) (a : AlertId) (m : ConsumerMatch)
      (ms : List ConsumerMatch) (preferences : ConsumerId → Option DeliveryPreference)
      (policy : RetryPolicy)
      → preferences m.consumer_id ≡ none
      → plan_from uuid_text mint k a (m ∷ ms) preferences policy
        ≡ plan_from uuid_text mint k a ms preferences policy
  unfolding plan_from
  plan_from-skip mint k a m ms preferences policy h = ground arith

  pub plan_from-join :
      (mint : ℕ → DeliveryId × DeliveryEventId) (k : ℕ) (a : AlertId) (m : ConsumerMatch)
      (ms : List ConsumerMatch) (preferences : ConsumerId → Option DeliveryPreference)
      (policy : RetryPolicy) (p : DeliveryPreference)
      → preferences m.consumer_id ≡ some p
      → plan_from uuid_text mint k a (m ∷ ms) preferences policy
        ≡ plan_tiers uuid_text mint k a m policy (tiers p)
          ++ plan_from uuid_text mint
              (k + length (plan_tiers uuid_text mint k a m policy (tiers p)))
              a
              ms
              preferences
              policy
  unfolding plan_from
  plan_from-join mint k a m ms preferences policy p h = ground arith

  -- Every planned delivery is for the alert and for a matched consumer.
  pub plan_from-IsFor :
      (mint : ℕ → DeliveryId × DeliveryEventId) (k : ℕ) (a : AlertId) (ms : List ConsumerMatch)
      (preferences : ConsumerId → Option DeliveryPreference) (policy : RetryPolicy)
      → All
          (λ p. IsFor a p.0.consumer_id p × (contains (consumers ms) p.0.consumer_id ≡ true))
          (plan_from uuid_text mint k a ms preferences policy)
  plan_from-IsFor mint k a [] preferences policy = rw (plan_from-nil mint k a preferences policy) tt
  plan_from-IsFor mint k a (m ∷ ms) preferences policy =
      elim (Option-cases (preferences m.consumer_id)) [
        | inl e ↦ rw (plan_from-skip mint k a m ms preferences policy e) (
            All-map
              (λ p. IsFor a p.0.consumer_id p × (contains (consumers ms) p.0.consumer_id ≡ true)) _
              (plan_from uuid_text mint k a ms preferences policy)
              (λ p (f, listed). (f, ground (arith, listed)))
              (plan_from-IsFor mint k a ms preferences policy))
        | inr (p, e) ↦
            let k' : ℕ = k + length (plan_tiers uuid_text mint k a m policy (tiers p)) in
            rw (plan_from-join mint k a m ms preferences policy p e) (
              All-append _ (plan_tiers uuid_text mint k a m policy (tiers p)) _
                (All-map (IsFor a m.consumer_id) _
                  (plan_tiers uuid_text mint k a m policy (tiers p))
                  (λ p f. (
                    IsFor-same_consumer a m.consumer_id p f,
                    rw f.consumer (ground (arith, beq_refl m.consumer_id)),
                  ))
                  (plan_tiers-IsFor mint k a m policy (tiers p)))
                (All-map
                  (λ p.
                    IsFor a p.0.consumer_id p × (contains (consumers ms) p.0.consumer_id ≡ true))
                  _ (plan_from uuid_text mint k' a ms preferences policy)
                  (λ p (f, listed). (f, ground (arith, listed)))
                  (plan_from-IsFor mint k' a ms preferences policy)))
      ]

  -- No two planned deliveries go to the same consumer on the same channel.
  abbrev pub Apart : Delivery × DeliveryEvent → Delivery × DeliveryEvent → Type 0
  Apart p q = p.0.consumer_id ≡ q.0.consumer_id → p.0.channel ≢ q.0.channel

  Apart-consumers :
      (a : AlertId) (c : ConsumerId) (cs : List ConsumerId) (p q : Delivery × DeliveryEvent)
      → IsFor a c p
      → contains cs q.0.consumer_id ≡ true
      → contains cs c ≡ false
      → Apart p q
  Apart-consumers a c cs p q f listed absent same = cc

  plan_from-Apart :
      (mint : ℕ → DeliveryId × DeliveryEventId) (k : ℕ) (a : AlertId) (ms : List ConsumerMatch)
      (preferences : ConsumerId → Option DeliveryPreference) (policy : RetryPolicy)
      → Distinct (consumers ms)
      → ((c : ConsumerId) (p : DeliveryPreference) → preferences c ≡ some p → OneEach p.channels)
      → Pairwise Apart (plan_from uuid_text mint k a ms preferences policy)
  unfolding tiers
  plan_from-Apart mint k a [] preferences policy d once =
      rw (plan_from-nil mint k a preferences policy) tt
  plan_from-Apart mint k a (m ∷ ms) preferences policy d once =
      elim (Option-cases (preferences m.consumer_id)) [
        | inl e ↦
            rw (plan_from-skip mint k a m ms preferences policy e)
              (plan_from-Apart mint k a ms preferences policy d.1 once)
        | inr (p, e) ↦ rw (plan_from-join mint k a m ms preferences policy p e) (
            Pairwise-append Apart (plan_tiers uuid_text mint k a m policy (tiers p)) _
              (Pairwise-map (λ _. Unit {0}) _ Apart
                (plan_tiers uuid_text mint k a m policy (tiers p)) (λ x y _ _ differ _. differ)
                (All-map (IsFor a m.consumer_id) _
                  (plan_tiers uuid_text mint k a m policy (tiers p)) (λ _ _. tt)
                  (plan_tiers-IsFor mint k a m policy (tiers p)))
                (plan_tiers-OneEach mint k a m policy p.strategy 0 p.channels
                  (once m.consumer_id p e)))
              (plan_from-Apart mint (k + length (plan_tiers uuid_text mint k a m policy (tiers p)))
                a ms preferences policy d.1 once)
              (All-map (IsFor a m.consumer_id) _ (plan_tiers uuid_text mint k a m policy (tiers p))
                (λ x f.
                  All-map _ (Apart x) _
                    (λ y (_, listed).
                      Apart-consumers a m.consumer_id (consumers ms) x y f listed d.0)
                    (plan_from-IsFor mint
                      (k + length (plan_tiers uuid_text mint k a m policy (tiers p))) a ms
                      preferences policy))
                (plan_tiers-IsFor mint k a m policy (tiers p))))
      ]

  module _ (no_colon : (u : Uuid) → NoColon (uuid_text u))
      (uuid_text_exact : (u v : Uuid) → uuid_text u ≡ uuid_text v → u ≡ v) where
    -- No two planned deliveries of an alert have the same idempotency key, when each consumer is
    -- matched once, each preference has each channel once, and the text of a UUID has no colon and
    -- is another for another UUID.
    pub plan_deliveries-keys :
        (mint : ℕ → DeliveryId × DeliveryEventId) (alert : Alert) (ms : List ConsumerMatch)
        (preferences : ConsumerId → Option DeliveryPreference) (policy : RetryPolicy)
        → Distinct (consumers ms)
        → ((c : ConsumerId) (p : DeliveryPreference)
            → preferences c ≡ some p
            → Pairwise (λ a b. a.channel ≢ b.channel) p.channels)
        → Pairwise
            (λ p q. p.0.idempotency_key ≢ q.0.idempotency_key)
            (plan_deliveries uuid_text mint alert ms preferences policy)
    unfolding plan_deliveries
    plan_deliveries-keys mint alert ms preferences policy distinct once =
        Pairwise-map _ Apart _ (plan_from uuid_text mint 0 alert.id ms preferences policy)
          (λ p q (f, _) (g, _) apart same.
            let (consumer, _, channel, _) =
              idempotency_key_new_injective uuid_text no_colon uuid_text_exact _ _ _ _ _ _ _ _
                (sym f.keyed ∙ same ∙ g.keyed) in
            apart consumer channel)
          (plan_from-IsFor mint 0 alert.id ms preferences policy)
          (plan_from-Apart mint 0 alert.id ms preferences policy distinct once)
