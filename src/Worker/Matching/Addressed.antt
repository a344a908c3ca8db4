-- ===== src/Worker/Matching/Addressed.antt =====
-- Proofs about `match_and_plan` of apps/worker/src/subscription_matching.rs: that it reaches nobody else.
use safe_cameroon.Common.{
  ℕ, ◌≡◌, ◌≢◌, ◌⊎◌, refl, ◌∙◌, ap, subst, true, inl, inr, List, map, none, some, Result-cases, ok,
  Memᴰ, All, contains, is_empty, Bool-cases, ℕ_eq, List_eq, All-mem, err, String,
}
use mathlib.Core.List.Memᴰ
use safe_cameroon.Domain.Ids.{AlertId}
use safe_cameroon.Domain.Delivery.{ChannelType, Delivery, DeliveryEvent, DeliveryPreference}
use safe_cameroon.Domain.Delivery.Due.{plan_deliveries-due}
use safe_cameroon.Domain.Delivery
use safe_cameroon.Domain.Delivery.{idempotency_key_new, standard}
use safe_cameroon.Domain.Delivery.Planning.{IsFor, plan_from-IsFor}
use safe_cameroon.Domain.Alert.{Alert}
use safe_cameroon.Domain.Subscription.{
  Subscription, ConsumerMatch, evaluate_subscriptions, deduplicate_by_consumer,
}
use safe_cameroon.Domain.Subscription.Matching.{Satisfies}
use safe_cameroon.Domain.Subscription.Selection.{selected_iff}
use safe_cameroon.Domain.Subscription.Grouping.{consumers}
use safe_cameroon.Workflow.Case.{automated}
use safe_cameroon.Workflow.Delivery.{planned_from, plan_deliveries}
use safe_cameroon.Store.Deliveries.{Row}
use safe_cameroon.Worker.Matching.{
  Environment, preference_of, find_preferences, plan_matches, match_and_plan,
}
use safe_cameroon.Worker.Matching.Provenance.{
  IsKeyed, find_preferences-found, due-from, planned_from-from, create_until-from,
}

-- A row that the planning added, with the reason that it is there.
abbrev pub Reason :
    {SqlxError : Type 0} → Environment SqlxError → ℕ → Alert → List Subscription → Row → Type 0
Reason env k alert subscriptions r =
    (s : Subscription) × (p : DeliveryPreference) × (r.delivery.alert_id ≡ alert.id)
    × IsKeyed env.sha256 env.uuid_text r
    × Memᴰ s subscriptions
    × All (Satisfies env.lower alert) s.rules
    × (s.consumer_id ≡ r.delivery.consumer_id)
    × (env.find_by_consumer k s.consumer_id ≡ ok (some p))
    × Memᴰ {A = ChannelType × String} (r.delivery.channel, r.delivery.endpoint_address)
        (map (λ e. (e.channel, e.address)) p.channels)

plan_matches-from :
    {SqlxError : Type 0} (env : Environment SqlxError) (k : ℕ) (rows : List Row) (alert : Alert)
    (ms : List ConsumerMatch) {r : Row}
    → Memᴰ r (plan_matches env k rows alert ms).0
    → Memᴰ r rows
      ⊎ ((r.delivery.alert_id ≡ alert.id)
          × IsKeyed env.sha256 env.uuid_text r
          × (contains (consumers ms) r.delivery.consumer_id ≡ true)
          × ((p : DeliveryPreference) × (env.find_by_consumer k r.delivery.consumer_id
                ≡ ok (some p))
              × Memᴰ {A = ChannelType × String}
                  (r.delivery.channel, r.delivery.endpoint_address)
                  (map (λ e. (e.channel, e.address)) p.channels)))
unfolding plan_matches plan_deliveries Delivery.plan_deliveries
plan_matches-from env k rows alert ms {r} m = elim (Bool-cases (is_empty ms)) [
  | inl nobody ↦ inl (rw (plan_matches, nobody) at m)
  | inr somebody ↦ elim (Result-cases (find_preferences env k ms)) [
    | inr (e, failed) ↦ inl (rw (plan_matches, somebody, failed) at m)
    | inl (ps, collected) ↦
        let plan =
          Delivery.plan_deliveries env.uuid_text (env.mint k) alert ms (preference_of ps)
            standard in
        elim (create_until-from env k 0 rows
          (planned_from env.sha256 (env.mint_metadata k) automated (env.request_id k) 0 plan)
          (rw (plan_matches, somebody, collected) at m)) [
            | inl before ↦ inl before
            | inr (item, listed, own) ↦
                let (q, there, same, filed) =
                  planned_from-from env.sha256 (env.mint_metadata k) automated (env.request_id k) 0
                    plan listed in
                let delivery : r.delivery ≡ q.0 = own.0 ∙ same in
                let place =
                  subst (λ l. Memᴰ (q.0.consumer_id, q.0.channel, q.0.endpoint_address) l)
                    (plan_deliveries-due env.uuid_text (env.mint k) alert ms (preference_of ps)
                      standard)
                    (Memᴰ.map (λ x. (x.0.consumer_id, x.0.channel, x.0.endpoint_address)) there) in
                let (wanted, (p, found, e)) = due-from ms (preference_of ps) place in
                let (for_alert, _) =
                  All-mem
                    (λ x.
                      IsFor env.uuid_text alert.id x.0.consumer_id x
                      × (contains (consumers ms) x.0.consumer_id ≡ true))
                    there
                    (plan_from-IsFor env.uuid_text (env.mint k) 0 alert.id ms (preference_of ps)
                      standard) in
                inr (
                  ap (λ x. x.alert_id) delivery ∙ for_alert.alert,
                  record {
                    keyed = rw delivery (rw for_alert.alert for_alert.keyed);
                    filed = rw delivery (own.1 ∙ filed);
                  },
                  rw delivery wanted,
                  (
                    p,
                    rw delivery (find_preferences-found env k ms q.0.consumer_id collected found),
                    rw delivery e,
                  ),
                )
          ]
  ]
]

-- When the alert and the subscriptions are found.
matched-from :
    {SqlxError : Type 0} (env : Environment SqlxError) (k : ℕ) (rows : List Row)
    (alert_id : AlertId) (alert : Alert) (subscriptions : List Subscription) (r : Row)
    → env.find_alert k alert_id ≡ ok (some alert)
    → env.list_all k ≡ ok subscriptions
    → Memᴰ r (match_and_plan env k rows alert_id).0
    → Memᴰ r rows ⊎ Reason env k alert subscriptions r
unfolding match_and_plan
matched-from env k rows alert_id alert subscriptions r there all m =
    let ms = deduplicate_by_consumer (evaluate_subscriptions env.lower alert subscriptions) in
    elim (plan_matches-from env k rows alert ms (rw (match_and_plan, there, all) at m)) [
      | inl before ↦ inl before
      | inr (about, keyed, wanted, (p, found, e)) ↦
          let (s, listed, own, satisfied) =
            (selected_iff env.lower alert subscriptions r.delivery.consumer_id).0 wanted in
          inr (s, p, about, keyed, listed, satisfied, own, rw own found, e)
    ]

match_and_plan-nothing :
    {SqlxError : Type 0} (env : Environment SqlxError) (k : ℕ) (rows : List Row)
    (alert_id : AlertId)
    → ((alert : Alert) → env.find_alert k alert_id ≢ ok (some alert))
    → (match_and_plan env k rows alert_id).0 ≡ rows
unfolding match_and_plan
match_and_plan-nothing env k rows alert_id gone = elim (Result-cases (env.find_alert k alert_id)) [
  | inr (e, failed) ↦ rw (match_and_plan, failed) refl
  | inl (none, answered) ↦ rw (match_and_plan, answered) refl
  | inl (some alert, answered) ↦ absurd (gone alert answered)
]

match_and_plan-unlisted :
    {SqlxError : Type 0} (env : Environment SqlxError) (k : ℕ) (rows : List Row)
    (alert_id : AlertId) (alert : Alert) (e : SqlxError)
    → env.find_alert k alert_id ≡ ok (some alert)
    → env.list_all k ≡ err e
    → (match_and_plan env k rows alert_id).0 ≡ rows
unfolding match_and_plan
match_and_plan-unlisted env k rows alert_id alert e there failed =
    rw (match_and_plan, there, failed) refl

-- Whatever the database answers to any query and whichever transactions fail: every row that is in the
-- table after an event has been matched was there before, or it is a delivery of the alert of the event,
-- which was found, to a consumer one of whose subscriptions, which were found, has every rule satisfied
-- by the alert; it goes to an address that the consumer's own preference has for that channel, under the
-- key that is made of what it delivers.
pub match_and_plan-from :
    {SqlxError : Type 0} (env : Environment SqlxError) (k : ℕ) (rows : List Row)
    (alert_id : AlertId) (r : Row)
    → Memᴰ r (match_and_plan env k rows alert_id).0
    → Memᴰ r rows
      ⊎ ((alert : Alert) × (subscriptions : List Subscription) × (env.find_alert k alert_id
            ≡ ok (some alert))
          × (env.list_all k ≡ ok subscriptions)
          × Reason env k alert subscriptions r)
match_and_plan-from env k rows alert_id r m = elim (Result-cases (env.find_alert k alert_id)) [
  | inr (e, failed) ↦ inl (
      subst (λ l. Memᴰ r l)
        (match_and_plan-nothing env k rows alert_id (λ a there. cc (there, failed))) m)
  | inl (none, gone) ↦ inl (
      subst (λ l. Memᴰ r l)
        (match_and_plan-nothing env k rows alert_id (λ a there. cc (there, gone))) m)
  | inl (some alert, there) ↦ elim (Result-cases (env.list_all k)) [
    | inr (e, failed) ↦
        inl (
          subst (λ l. Memᴰ r l) (match_and_plan-unlisted env k rows alert_id alert e there failed)
            m)
    | inl (subscriptions, all) ↦
        elim (matched-from env k rows alert_id alert subscriptions r there all m) [
          | inl before ↦ inl before
          | inr reason ↦ inr (alert, subscriptions, there, all, reason)
        ]
  ]
]
