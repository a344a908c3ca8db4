-- ===== src/Worker/Matching/Preferred.antt =====
-- Proofs about the preferences and the planned rows of apps/worker/src/subscription_matching.rs.
use safe_cameroon.Common.{
  ℕ, ◌+◌, ◌≡◌, refl, sym, ◌∙◌, ap, inl, inr, String, Bool, true, false, ◌||◌, List, [], ◌∷◌, Option,
  none, some, Option-cases, Result, Result-cases, ok, err, is_ok, Memᴰ, All-mem, arith, Bool-cases,
  ◌==◌, ℕ_eq, List_eq, contains, nat_eq_iff, subst,
}
use mathlib.Core.List.Memᴰ
use safe_cameroon.Domain.Ids.{
  Uuid, ConsumerId, DeliveryId, DeliveryEventId, AuditEventId, OutboxEventId,
}
use safe_cameroon.Domain.Alert.{Alert}
use safe_cameroon.Domain.Subscription.{ConsumerMatch}
use safe_cameroon.Domain.Subscription.Grouping.{consumers}
use safe_cameroon.Domain.Delivery.{
  ChannelType, Delivery, DeliveryEvent, DeliveryPreference, ChannelEndpoint, RetryPolicy,
  idempotency_key_new,
}
use safe_cameroon.Domain.Delivery
use safe_cameroon.Domain.Delivery.Due.{due, due-skip, due-join, plan_deliveries-due}
use safe_cameroon.Domain.Delivery.Planning.{IsFor, plan_from-IsFor}
use safe_cameroon.Workflow.Case.{Actor}
use safe_cameroon.Workflow.Delivery.{PlannedDelivery, planned_from, plan_deliveries}
use safe_cameroon.Store.Deliveries.{Row, insert_delivery, create_planned}
use safe_cameroon.Worker.Matching.{
  Environment, Preferences, preference_of, insert_found, find_preferences, create_until,
}

-- The database answers every query and commits every transaction.
pub record Answers {SqlxError : Type 0} (env : Environment SqlxError) : Type 0 where
  pub preferences : (k : ℕ) (c : ConsumerId) → is_ok (env.find_by_consumer k c) ≡ true
  pub commits : (k j : ℕ) → env.commit_error k j ≡ none

-- The preference that the table has for a consumer.
abbrev pub stored_preference :
    {SqlxError : Type 0} → Result (Option DeliveryPreference) SqlxError → Option DeliveryPreference
stored_preference (ok found) = found
stored_preference (err e) = none

pub preference_of-other :
    (c key : ConsumerId) (found : Option DeliveryPreference) (rest : Preferences)
    → (key == c) ≡ false
    → preference_of (insert_found key found rest) c ≡ preference_of rest c
unfolding preference_of
preference_of-other c key none rest h = refl
preference_of-other c key (some p) rest h = rw h refl

-- For one consumer, the map agrees with the table where the consumer is matched, and has nothing
-- where it is not.
pub record IsCollected (ps : Preferences) (listed : Bool) (c : ConsumerId)
    (stored : Option DeliveryPreference) : Type 0 where
  pub there : listed ≡ true → preference_of ps c ≡ stored
  pub absent : listed ≡ false → preference_of ps c ≡ none

IsCollected-insert :
    (ps : Preferences) (listed : Bool) (c key : ConsumerId)
    (found stored : Option DeliveryPreference)
    → (key ≡ c → found ≡ stored)
    → IsCollected ps listed c stored
    → IsCollected (insert_found key found ps) (key == c || listed) c stored
unfolding preference_of
IsCollected-insert ps listed c key none stored same h = elim (Bool-cases (key == c)) [
  | inl own ↦ rw own (record {
    there = λ _. elim (Bool-cases listed) [
      | inl yes_listed ↦ h.there yes_listed
      | inr not_listed ↦ h.absent not_listed ∙ same (ground arith)
    ];
    absent = λ e. cc;
  })
  | inr other ↦ rw other h
]
IsCollected-insert ps listed c key (some p) stored same h = elim (Bool-cases (key == c)) [
  | inl own ↦ rw own (record { there = λ _. rw own (same (ground arith)); absent = λ e. cc })
  | inr other ↦
      rw other (record { there = λ e. rw other (h.there e); absent = λ e. rw other (h.absent e) })
]

module _ {SqlxError : Type 0} (env : Environment SqlxError) (answers : Answers env) (k : ℕ) where
  -- The map has for every matched consumer what the table has.
  pub find_preferences-IsCollected :
      (ms : List ConsumerMatch)
      → (ps : Preferences) × (find_preferences env k ms ≡ ok ps)
        × ((c : ConsumerId)
            → IsCollected ps
                (contains (consumers ms) c)
                c
                (stored_preference (env.find_by_consumer k c)))
  unfolding preference_of find_preferences
  find_preferences-IsCollected [] = ([], refl, λ c. record { there = λ e. cc; absent = λ e. refl })
  find_preferences-IsCollected (m ∷ ms) =
      let (ps, rest, get) = find_preferences-IsCollected ms in
      elim (Result-cases (env.find_by_consumer k m.consumer_id)) [
        | inr (e, failed) ↦ absurd (cc (answers.preferences k m.consumer_id, failed))
        | inl (found, here) ↦ (
          insert_found m.consumer_id found ps,
          rw (find_preferences, here, rest) refl,
          λ c.
              IsCollected-insert ps (contains (consumers ms) c) c m.consumer_id found _
                (λ same. rw (← same, here) refl) (get c),
        )
      ]

  pub create_until-all :
      (j : ℕ) (rows : List Row) (items : List PlannedDelivery)
      → create_until env k j rows items ≡ (create_planned rows items, ok tt)
  unfolding create_until create_planned
  create_until-all j rows [] = refl
  create_until-all j rows (item ∷ items) =
      ground
        (arith, answers.commits k j, create_until-all (j + 1) (insert_delivery rows item).0 items)

-- The keys of what is planned are those of the deliveries, and each of these has a place in the plan.
planned-hash :
    (sha256 : String → List ℕ) (mint : ℕ → AuditEventId × OutboxEventId) (actor : Actor)
    (request_id : Uuid) (k : ℕ) (ps : List (Delivery × DeliveryEvent))
    {p : Delivery × DeliveryEvent}
    → Memᴰ p ps
    → (item : PlannedDelivery) × Memᴰ item (planned_from sha256 mint actor request_id k ps)
      × (item.idempotency_key_hash ≡ sha256 p.0.idempotency_key.as_str)
unfolding planned_from
planned-hash sha256 mint actor request_id k [] {p = p} m = elim m [ ]
planned-hash sha256 mint actor request_id k (q ∷ ps) {p} (Memᴰ.head e) =
    (_, Memᴰ.head refl, ap (λ x. sha256 x.0.idempotency_key.as_str) (sym e))
planned-hash sha256 mint actor request_id k (q ∷ ps) (Memᴰ.tail m) =
    let (item, listed, same) = planned-hash sha256 mint actor request_id (k + 1) ps m in
    (item, Memᴰ.tail listed, same)

due-listed :
    (ms : List ConsumerMatch) (preferences : ConsumerId → Option DeliveryPreference)
    (c : ConsumerId) (p : DeliveryPreference) {e : ChannelEndpoint}
    → contains (consumers ms) c ≡ true
    → preferences c ≡ some p
    → Memᴰ e p.channels
    → Memᴰ (c, e.channel, e.address) (due ms preferences)
due-listed [] preferences c p listed found m = cc
due-listed (d ∷ ms) preferences c p {e} listed found m = elim (Bool-cases (d.consumer_id == c)) [
  | inl own ↦
      let same : d.consumer_id ≡ c = (nat_eq_iff d.consumer_id c).0 own in
      rw (due-join d ms preferences p (rw same found)) (
        Memᴰ.append_left (due ms preferences)
          (rw same (Memᴰ.map (λ x. (c, x.channel, x.address)) m)))
  | inr other ↦
      let later = due-listed ms preferences c p (rw other at listed) found m in
      elim (Option-cases (preferences d.consumer_id)) [
        | inl nothing ↦ rw (due-skip d ms preferences nothing) later
        | inr (q, one) ↦ rw (due-join d ms preferences q one) (Memᴰ.append_right _ later)
      ]
]

module _ (sha256 : String → List ℕ) (uuid_text : Uuid → String)
    (mint : ℕ → DeliveryId × DeliveryEventId) (mint_metadata : ℕ → AuditEventId × OutboxEventId)
    (alert : Alert) (ms : List ConsumerMatch) (preferences : ConsumerId → Option DeliveryPreference)
    (policy : RetryPolicy) (actor : Actor) (request_id : Uuid) where
  -- What is due to a matched consumer is planned under its key.
  pub due-planned :
      (c : ConsumerId) (p : DeliveryPreference) (e : ChannelEndpoint)
      → contains (consumers ms) c ≡ true
      → preferences c ≡ some p
      → Memᴰ e p.channels
      → (item : PlannedDelivery) × Memᴰ item (
          plan_deliveries sha256 uuid_text mint mint_metadata alert ms preferences policy actor
            request_id)
        × (item.idempotency_key_hash
            ≡ sha256 (idempotency_key_new uuid_text c alert.id e.channel e.address).as_str)
  unfolding plan_deliveries Delivery.plan_deliveries
  due-planned c p e listed found m =
      let plan = Delivery.plan_deliveries uuid_text mint alert ms preferences policy in
      let place =
        subst (λ l. Memᴰ (c, e.channel, e.address) l)
          (sym (plan_deliveries-due uuid_text mint alert ms preferences policy))
          (due-listed ms preferences c p listed found m) in
      let (q, planned, brings) =
        Memᴰ.of_map (λ x. (x.0.consumer_id, x.0.channel, x.0.endpoint_address)) plan place in
      let (item, there, hash) = planned-hash sha256 mint_metadata actor request_id 0 plan planned in
      let (for_alert, _) =
        All-mem
          (λ x.
            IsFor uuid_text alert.id x.0.consumer_id x
            × (contains (consumers ms) x.0.consumer_id ≡ true))
          planned (plan_from-IsFor uuid_text mint 0 alert.id ms preferences policy) in
      let key =
        for_alert.keyed ∙ ap (λ b. idempotency_key_new uuid_text b.0 alert.id b.1 b.2) brings in
      (item, there, hash ∙ ap (λ x. sha256 x.as_str) key)
