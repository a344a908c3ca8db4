-- ===== src/Worker/Matching/Reaching.antt =====
-- Proofs about `match_and_plan` of apps/worker/src/subscription_matching.rs: whom it reaches.
use safe_cameroon.Common.{
  ℕ, String, ◌≡◌, refl, sym, ◌∙◌, inl, inr, ap, mem_of_contains, NoColon, subst, true, false, List,
  [], ◌∷◌, some, ok, Memᴰ, All, All-mem, contains, is_empty, ℕ_eq, List_eq,
}
use mathlib.Core.List.Memᴰ
use safe_cameroon.Domain.Ids.{AlertId, ConsumerId, Uuid}
use safe_cameroon.Domain.Alert.{Alert}
use safe_cameroon.Domain.Subscription.{
  Subscription, ConsumerMatch, evaluate_subscriptions, deduplicate_by_consumer,
}
use safe_cameroon.Domain.Subscription.Grouping.{consumers}
use safe_cameroon.Domain.Subscription.Matching.{Satisfies}
use safe_cameroon.Domain.Subscription.Selection.{selected_iff}
use safe_cameroon.Domain.Delivery.{
  DeliveryPreference, ChannelEndpoint, idempotency_key_new, standard,
}
use safe_cameroon.Domain.Delivery.Keys.{idempotency_key_new_injective}
use safe_cameroon.Workflow.Case.{automated}
use safe_cameroon.Workflow.Delivery.{plan_deliveries}
use safe_cameroon.Store.Deliveries.{Row, create_planned}
use safe_cameroon.Store.Deliveries.Idempotence.{hashes, hash_of, create_planned-there}
use safe_cameroon.Worker.Matching.{Environment, preference_of, plan_matches, match_and_plan}
use safe_cameroon.Worker.Matching.Addressed.{match_and_plan-from}
use safe_cameroon.Worker.Matching.Provenance.{IsKeyed}
use safe_cameroon.Worker.Matching.Preferred.{
  Answers, find_preferences-IsCollected, create_until-all, due-planned, stored_preference,
}

listed-nonempty :
    (ms : List ConsumerMatch) (n : ℕ) → contains (consumers ms) n ≡ true → is_empty ms ≡ false
listed-nonempty [] n h = cc
listed-nonempty (m ∷ ms) n h = refl

module _ {SqlxError : Type 0} (env : Environment SqlxError) (answers : Answers env) (k : ℕ)
    (rows : List Row) (alert : Alert) where
  plan_matches-reaches :
      (ms : List ConsumerMatch) (c : ℕ) (p : DeliveryPreference) (e : ChannelEndpoint)
      → contains (consumers ms) c ≡ true
      → env.find_by_consumer k c ≡ ok (some p)
      → Memᴰ e p.channels
      → contains
          (hashes (plan_matches env k rows alert ms).0)
          (env.sha256 (idempotency_key_new env.uuid_text c alert.id e.channel e.address).as_str)
        ≡ true
  unfolding plan_matches
  plan_matches-reaches ms c p e listed found m =
      let (ps, collected, get) = find_preferences-IsCollected env answers k ms in
      let stored : preference_of ps c ≡ some p =
        (get c).there listed ∙ ap stored_preference found in
      let planned =
        plan_deliveries env.sha256 env.uuid_text (env.mint k) (env.mint_metadata k) alert ms
          (preference_of ps) standard automated (env.request_id k) in
      let (item, there, hash) =
        due-planned env.sha256 env.uuid_text (env.mint k) (env.mint_metadata k) alert ms
          (preference_of ps) standard automated (env.request_id k) c p e listed stored m in
      let kept =
        All-mem (λ h. contains (hashes (create_planned rows planned)) h ≡ true)
          (Memᴰ.map hash_of there) (create_planned-there planned rows) in
      rw
        (
          plan_matches,
          listed-nonempty ms c listed,
          collected,
          create_until-all env answers k 0 rows planned,
        )
        (subst (λ h. contains (hashes (create_planned rows planned)) h ≡ true) hash kept)

-- When the database answers and commits, the key is there.
reached-key :
    {SqlxError : Type 0} (env : Environment SqlxError) (k : ℕ) (rows : List Row)
    (alert_id : AlertId) (alert : Alert) (subscriptions : List Subscription) (s : Subscription)
    (p : DeliveryPreference) (e : ChannelEndpoint)
    → Answers env
    → env.find_alert k alert_id ≡ ok (some alert)
    → env.list_all k ≡ ok subscriptions
    → Memᴰ s subscriptions
    → All (Satisfies env.lower alert) s.rules
    → env.find_by_consumer k s.consumer_id ≡ ok (some p)
    → Memᴰ e p.channels
    → contains (hashes (match_and_plan env k rows alert_id).0) (
        env.sha256
          (idempotency_key_new env.uuid_text s.consumer_id alert.id e.channel e.address).as_str)
      ≡ true
unfolding match_and_plan
reached-key env k rows alert_id alert subscriptions s p e answers there all listed satisfied found
      m =
    let ms = deduplicate_by_consumer (evaluate_subscriptions env.lower alert subscriptions) in
    let selected =
      (selected_iff env.lower alert subscriptions s.consumer_id).1 (s, listed, refl, satisfied) in
    rw (match_and_plan, there, all)
      (plan_matches-reaches env answers k rows alert ms s.consumer_id p e selected found m)

filed_under :
    (rows : List Row) (h : List ℕ)
    → contains (hashes rows) h ≡ true
    → (r : Row) × Memᴰ r rows × (r.idempotency_key_hash ≡ h)
filed_under rows h there =
    let (r, listed, own) =
      Memᴰ.of_map (λ row. row.idempotency_key_hash) rows (mem_of_contains (hashes rows) h there) in
    (r, listed, own)

-- A row that has the key of a delivery is a row of this delivery.
IsKeyed-same :
    (sha256 : String → List ℕ) (uuid_text : Uuid → String)
    → ((u : Uuid) → NoColon (uuid_text u))
    → ((u v : Uuid) → uuid_text u ≡ uuid_text v → u ≡ v)
    → (r : Row) (c : ConsumerId) (a : AlertId) (e : ChannelEndpoint) → IsKeyed sha256 uuid_text r
    → r.delivery.idempotency_key.as_str
      ≡ (idempotency_key_new uuid_text c a e.channel e.address).as_str
    → (r.delivery.consumer_id ≡ c)
      × (r.delivery.alert_id ≡ a)
      × (r.delivery.channel ≡ e.channel)
      × (r.delivery.endpoint_address ≡ e.address)
IsKeyed-same sha256 uuid_text no_colon uuid_text_exact r c a e keyed same =
    idempotency_key_new_injective uuid_text no_colon uuid_text_exact r.delivery.consumer_id c
      r.delivery.alert_id a r.delivery.channel e.channel r.delivery.endpoint_address e.address
      (sym keyed.keyed ∙ ap (λ s. record { as_str = s }) same)

-- When the database answers and commits, each row from before is under the digest of the key made of
-- what it delivers, the text of a UUID has no colon and is another for another UUID, and no other key in
-- the table has the digest of the key in question: a consumer one of whose subscriptions has every rule
-- satisfied by the alert of the event, and who has a preference, has, once the event has been matched, a
-- delivery of that alert on each channel of the preference and to the address that it has there.
pub match_and_plan-reaches :
    {SqlxError : Type 0} (env : Environment SqlxError) (k : ℕ) (rows : List Row)
    (alert_id : AlertId) (alert : Alert) (subscriptions : List Subscription) (s : Subscription)
    (p : DeliveryPreference) (e : ChannelEndpoint)
    → Answers env
    → ((u : Uuid) → NoColon (env.uuid_text u))
    → ((u v : Uuid) → env.uuid_text u ≡ env.uuid_text v → u ≡ v)
    → ((r : Row) → Memᴰ r rows → IsKeyed env.sha256 env.uuid_text r)
    → ((r : Row)
        → Memᴰ r (match_and_plan env k rows alert_id).0
        → env.sha256 r.delivery.idempotency_key.as_str
          ≡ env.sha256
              (idempotency_key_new env.uuid_text s.consumer_id alert.id e.channel e.address).as_str
        → r.delivery.idempotency_key.as_str
          ≡ (idempotency_key_new env.uuid_text s.consumer_id alert.id e.channel e.address).as_str)
    → env.find_alert k alert_id ≡ ok (some alert)
    → env.list_all k ≡ ok subscriptions
    → Memᴰ s subscriptions
    → All (Satisfies env.lower alert) s.rules
    → env.find_by_consumer k s.consumer_id ≡ ok (some p)
    → Memᴰ e p.channels
    → (r : Row) × Memᴰ r (match_and_plan env k rows alert_id).0
      × (r.delivery.consumer_id ≡ s.consumer_id)
      × (r.delivery.alert_id ≡ alert.id)
      × (r.delivery.channel ≡ e.channel)
      × (r.delivery.endpoint_address ≡ e.address)
match_and_plan-reaches env k rows alert_id alert subscriptions s p e answers no_colon
      uuid_text_exact keyed no_collision there all listed satisfied found m =
    let (r, placed, hash) = filed_under (match_and_plan env k rows alert_id).0 _ (
      reached-key env k rows alert_id alert subscriptions s p e answers there all listed satisfied
        found m) in
    let own : IsKeyed env.sha256 env.uuid_text r =
      elim (match_and_plan-from env k rows alert_id r placed) [
        | inl before ↦ keyed r before
        | inr (a, ss, _, _, reason) ↦ reason.3
      ] in
    let (consumer, about, channel, address) =
      IsKeyed-same env.sha256 env.uuid_text no_colon uuid_text_exact r s.consumer_id alert.id e own
        (no_collision r placed (sym own.filed ∙ hash)) in
    (r, placed, consumer, about, channel, address)
