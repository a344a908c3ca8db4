-- ===== src/Store/Deliveries/Lookups.antt =====
-- The `delivery_attempts` table beside that of the deliveries, in
-- crates/infrastructure/src/postgres/deliveries.rs: what records an attempt, and what looks rows up.
use safe_cameroon.Common.{
  ℕ, String, Bool, false, List, [], ◌∷◌, ◌++◌, map, filter, Option, none, some, leb, if◌then◌else◌,
  ◌==◌, ℕ_eq, String_eq, Option_eq,
}
use safe_cameroon.Domain.Ids.{AlertId, DeliveryId}
use safe_cameroon.Domain.Delivery.{Delivery, DeliveryAttempt, DeliveryAttemptOutcome, sent, failed}
use safe_cameroon.Workflow.Delivery.{DeliveryAttemptTransition}
use safe_cameroon.Store.Deliveries.{
  Row, DeliveryTransitionOutcome, apply_transition, applied, conflict,
}
use safe_cameroon.Store.Deliveries.Claim.{find_by_id}

pub record Tables : Type 0 where
  pub rows : List Row
  pub attempts : List DeliveryAttempt

-- The attempt is inserted in the transaction that advances the delivery, or not at all.
unfoldable pub apply_attempt_transition :
    ℕ → Tables → Delivery → DeliveryAttemptTransition → Tables × DeliveryTransitionOutcome
unfolding apply_transition
apply_attempt_transition now tables d transition =
    let (rows, outcome) = apply_transition now tables.rows d in
    elim outcome [
      | conflict ↦ (tables, conflict)
      | applied ↦
          (record { rows = rows; attempts = tables.attempts ++ (transition.attempt ∷ []) }, applied)
    ]

unfoldable pub find_by_alert_id : List Row → AlertId → List Delivery
find_by_alert_id rows alert_id =
    map (λ row. row.delivery) (filter (λ row. row.delivery.alert_id == alert_id) rows)

-- `ORDER BY attempt_number`.
unfoldable pub insert_by_number : DeliveryAttempt → List DeliveryAttempt → List DeliveryAttempt
insert_by_number a [] = a ∷ []
insert_by_number a (b ∷ rest) =
    let later = insert_by_number a rest in
    if leb a.attempt_number b.attempt_number then a ∷ b ∷ rest else b ∷ later

unfoldable pub sort_by_number : List DeliveryAttempt → List DeliveryAttempt
unfolding insert_by_number
sort_by_number [] = []
sort_by_number (a ∷ rest) = insert_by_number a (sort_by_number rest)

unfoldable pub find_attempts : List DeliveryAttempt → DeliveryId → List DeliveryAttempt
unfolding sort_by_number
find_attempts attempts id = sort_by_number (filter (λ a. a.delivery_id == id) attempts)

abbrev pub is_sent_as : String → DeliveryAttemptOutcome → Bool
is_sent_as message (sent provider_message_id) = provider_message_id == some message
is_sent_as message (failed retryable reason) = false

-- `ORDER BY attempt_number DESC LIMIT 1`.
unfoldable pub last_by_number : List DeliveryAttempt → Option DeliveryAttempt
last_by_number [] = none
last_by_number (a ∷ rest) = elim (last_by_number rest) [
  | none ↦ some a
  | some b ↦ some (if leb b.attempt_number a.attempt_number then a else b)
]

unfoldable pub find_by_provider_message_id : Tables → String → Option Delivery
unfolding last_by_number find_by_id
find_by_provider_message_id tables message =
    elim (last_by_number (filter (λ a. is_sent_as message a.outcome) tables.attempts)) [
      | none ↦ none
      | some a ↦ find_by_id tables.rows a.delivery_id
    ]
