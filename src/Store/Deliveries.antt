-- ===== src/Store/Deliveries.antt =====
-- crates/infrastructure/src/postgres/deliveries.rs: the `deliveries` table, with the statements that
-- plan and advance rows. A row stands for the columns; the transaction of a statement is one step.
-- What a transaction also writes to the event, audit and outbox tables is not kept.
pub mod Claim
pub mod Lookups
pub mod Idempotence
pub mod Locking
use safe_cameroon.Common.{
  ℕ, ◌+◌, Bool, true, false, not, List, [], ◌∷◌, ◌++◌, map, filter, length, any, Option, none, some,
  ◌&&◌, ◌||◌, nat_eq, leb, if◌then◌else◌, ◌==◌, ℕ_eq, List_eq,
}
use safe_cameroon.Domain.Delivery.{Delivery, DeliveryStatus, DeliveryStatus_eq, retry_backoff}
use safe_cameroon.Workflow.Delivery.{PlannedDelivery}

pub record Row : Type 0 where
  pub delivery : Delivery
  pub idempotency_key_hash : List ℕ
  pub next_attempt_at : Option ℕ  -- seconds

-- `ON CONFLICT (idempotency_key_hash) DO NOTHING`: the rows, and whether one was inserted.
unfoldable pub insert_delivery : List Row → PlannedDelivery → List Row × Bool
insert_delivery rows item =
    if any (λ row. row.idempotency_key_hash == item.idempotency_key_hash) rows
    then (rows, false)
    else (
      rows
          ++ (record {
            delivery = item.delivery;
            idempotency_key_hash = item.idempotency_key_hash;
            next_attempt_at = none;
          }
              ∷ []),
      true,
    )

-- One transaction per planned delivery; a conflict rolls its transaction back.
unfoldable pub create_planned : List Row → List PlannedDelivery → List Row
unfolding insert_delivery
create_planned rows [] = rows
create_planned rows (item ∷ items) = create_planned (insert_delivery rows item).0 items

-- The `WHERE` of the update: the version is the one before the delivery's.
abbrev pub is_previous : Delivery → Row → Bool
is_previous d row = row.delivery.id == d.id && row.delivery.version + 1 == d.version

abbrev due_at : ℕ → Option ℕ → Option ℕ
due_at now none = none
due_at now (some backoff) = some (now + backoff)

unfoldable pub advance_row : ℕ → Delivery → Row → Row
unfolding retry_backoff
advance_row now d row =
    if is_previous d row
    then record row {
      delivery = record row.delivery {
        status = d.status;
        attempt_count = d.attempt_count;
        version = d.version;
      };
      next_attempt_at = due_at now (retry_backoff d);
    }
    else row

-- The rows after the update at the time `now`, and whether exactly one was affected.
unfoldable pub advance_delivery : ℕ → List Row → Delivery → List Row × Bool
unfolding advance_row
advance_delivery now rows d =
    (map (advance_row now d) rows, nat_eq (length (filter (is_previous d) rows)) 1)

pub data DeliveryTransitionOutcome : Type 0 where
  applied : DeliveryTransitionOutcome
  conflict : DeliveryTransitionOutcome

-- `apply_transition` and `apply_attempt_transition` advance alike; a conflict rolls back.
unfoldable pub apply_transition : ℕ → List Row → Delivery → List Row × DeliveryTransitionOutcome
unfolding advance_delivery
apply_transition now rows d =
    let (rows', advanced) = advance_delivery now rows d in
    if advanced then (rows', applied) else (rows, conflict)
