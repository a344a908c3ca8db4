-- ===== src/Worker/Matching.antt =====
-- apps/worker/src/subscription_matching.rs: claim the events of new alerts, match each alert against
-- the subscriptions and plan the deliveries. The tables that it only reads, the errors of the database,
-- the digest and the identifiers are what the environment answers at the k-th event of a batch.
pub mod Preferred
pub mod Reaching
pub mod Provenance
pub mod Addressed
use safe_cameroon.Common.{
  ℕ, zero, suc, ◌+◌, String, Bool, true, false, List, [], ◌∷◌, length, Option, none, some, Result,
  ok, err, map_ok, is_empty, if◌then◌else◌, ◌==◌, ℕ_eq,
}
use safe_cameroon.Domain.Ids.{
  Uuid, AlertId, ConsumerId, DeliveryId, DeliveryEventId, AuditEventId, OutboxEventId,
}
use safe_cameroon.Domain.Alert.{Alert}
use safe_cameroon.Domain.Subscription.{
  Subscription, ConsumerMatch, evaluate_subscriptions, deduplicate_by_consumer,
}
use safe_cameroon.Domain.Delivery.{DeliveryPreference, standard}
use safe_cameroon.Workflow.Case.{automated}
use safe_cameroon.Workflow.Delivery.{PlannedDelivery, plan_deliveries}
use safe_cameroon.Store.Deliveries.{Row, insert_delivery}
use safe_cameroon.Store.Outbox.{OutboxRow, ClaimedOutboxEvent, claim_unpublished, mark_published}

pub record Environment (SqlxError : Type 0) : Type 0 where
  pub find_alert : ℕ → AlertId → Result (Option Alert) SqlxError
  pub list_all : ℕ → Result (List Subscription) SqlxError
  pub find_by_consumer : ℕ → ConsumerId → Result (Option DeliveryPreference) SqlxError
  pub commit_error : ℕ → ℕ → Option SqlxError
  pub publish_error : ℕ → Option SqlxError
  pub mint : ℕ → ℕ → DeliveryId × DeliveryEventId
  pub mint_metadata : ℕ → ℕ → AuditEventId × OutboxEventId
  pub request_id : ℕ → Uuid
  pub sha256 : String → List ℕ
  pub uuid_text : Uuid → String
  pub lower : String → String

abbrev pub Done : Type 0 → Type 0
Done SqlxError = Result {0, 0} Unit SqlxError

-- The map of preferences, as the pairs that were inserted, and its `get`.
abbrev pub Preferences : Type 0
Preferences = List (ConsumerId × DeliveryPreference)

abbrev pub insert_found : ConsumerId → Option DeliveryPreference → Preferences → Preferences
insert_found c none rest = rest
insert_found c (some p) rest = (c, p) ∷ rest

unfoldable pub preference_of : Preferences → ConsumerId → Option DeliveryPreference
preference_of [] c = none
preference_of ((key, p) ∷ rest) c =
    let later = preference_of rest c in if key == c then some p else later

module _ {SqlxError : Type 0} (env : Environment SqlxError) where
  unfoldable pub find_preferences : ℕ → List ConsumerMatch → Result Preferences SqlxError
  find_preferences k [] = ok []
  find_preferences k (m ∷ ms) =
      let rest = find_preferences k ms in
      elim (env.find_by_consumer k m.consumer_id) [
        | err e ↦ err e
        | ok found ↦ map_ok (insert_found m.consumer_id found) rest
      ]

  -- `create_planned`, one transaction for each delivery, until one fails.
  unfoldable pub create_until : ℕ → ℕ → List Row → List PlannedDelivery → List Row × Done SqlxError
  unfolding insert_delivery
  create_until k j rows [] = (rows, ok tt)
  create_until k j rows (item ∷ items) =
      let later = create_until k (j + 1) (insert_delivery rows item).0 items in
      elim (env.commit_error k j) [ some e ↦ (rows, err e) | none ↦ later ]

  unfoldable pub plan_matches :
      ℕ → List Row → Alert → List ConsumerMatch → List Row × Done SqlxError
  unfolding find_preferences create_until plan_deliveries standard preference_of
  plan_matches k rows alert consumer_matches =
      if is_empty consumer_matches
      then (rows, ok tt)
      else elim (find_preferences k consumer_matches) [
        | err e ↦ (rows, err e)
        | ok preferences ↦ create_until k 0 rows (
            plan_deliveries env.sha256 env.uuid_text (env.mint k) (env.mint_metadata k) alert
              consumer_matches (preference_of preferences) standard automated (env.request_id k))
      ]

  unfoldable pub match_and_plan : ℕ → List Row → AlertId → List Row × Done SqlxError
  unfolding plan_matches deduplicate_by_consumer evaluate_subscriptions
  match_and_plan k rows alert_id = elim (env.find_alert k alert_id) [
    | err e ↦ (rows, err e)
    | ok none ↦ (rows, ok tt)
    | ok (some alert) ↦ elim (env.list_all k) [
      | err e ↦ (rows, err e)
      | ok subscriptions ↦
          let decisions = evaluate_subscriptions env.lower alert subscriptions in
          plan_matches k rows alert (deduplicate_by_consumer decisions)
    ]
  ]

-- The outbox and the deliveries, which a batch changes.
pub record State : Type 0 where
  pub outbox : List OutboxRow
  pub rows : List Row

module _ {SqlxError : Type 0} (env : Environment SqlxError) where
  -- The loop: an event is published right after its own matching, and an error ends the batch.
  unfoldable pub match_all : ℕ → State → List ClaimedOutboxEvent → State × Done SqlxError
  unfolding match_and_plan mark_published
  match_all k s [] = (s, ok tt)
  match_all k s (event ∷ rest) =
      let (rows, result) = match_and_plan env k s.rows event.aggregate_id in
      let planned : State = record { outbox = s.outbox; rows = rows } in
      let published : State = record { outbox = mark_published s.outbox event.id; rows = rows } in
      let later = match_all (k + 1) published rest in
      elim result [
        | err e ↦ (planned, err e)
        | ok _ ↦ elim (env.publish_error k) [ some e ↦ (planned, err e) | none ↦ later ]
      ]

  unfoldable pub process_batch : (Uuid → Bool) → State → ℕ → State × Result ℕ SqlxError
  unfolding claim_unpublished match_all
  process_batch locked s batch_size =
      let (outbox, claimed) = claim_unpublished s.outbox locked "ALERT_CREATED" batch_size in
      let (s', result) = match_all 0 (record { outbox = outbox; rows = s.rows }) claimed in
      elim result [ err e ↦ (s', err e) | ok _ ↦ (s', ok (length claimed)) ]
