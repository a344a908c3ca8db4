-- ===== src/Store/Deliveries/Claim/Interleaving.antt =====
-- Workers and callbacks over the tables of crates/infrastructure/src/postgres/deliveries.rs,
-- interleaved: `claim_next`, `find_by_id` and the two `apply_` statements, with the transitions of
-- crates/application/src/delivery_workflow.rs. Each statement is one step, and a delivery in memory may
-- be stale when its transition is applied.
use safe_cameroon.Common.{ℕ, ◌≡◌, String, Bool, List, [], ◌∷◌, ◌++◌, Option, some, Memᴰ, ok}
use safe_cameroon.Domain.Ids.{Uuid, DeliveryId}
use safe_cameroon.Domain.Delivery.{Delivery}
use safe_cameroon.Workflow.Case.{Actor}
use safe_cameroon.Workflow.Delivery.{
  Minted, DeliveryTransition, DeliveryAttemptTransition, record_delivery_success,
  record_delivery_delivered, record_delivery_failure,
}
use safe_cameroon.Store.Deliveries.{Row, apply_transition}
use safe_cameroon.Store.Deliveries.Claim.{claim_next, find_by_id}
use safe_cameroon.Store.Deliveries.Lookups.{Tables, apply_attempt_transition}

-- The tables, and the deliveries that workers and handlers have in memory.
pub record World : Type 0 where
  pub tables : Tables
  pub held : List Delivery

pub data Step (w : World) : World → Type 0 where
  claim :
      (mint : ℕ → Minted × Uuid) (now : ℕ) (locked : DeliveryId → Bool) (limit : ℕ)
      {rows : List Row} {claimed : List Delivery}
      → claim_next mint now locked w.tables.rows limit ≡ some (rows, claimed)
      → Step w (record {
        tables = record { rows = rows; attempts = w.tables.attempts };
        held = claimed ++ w.held;
      })
  load :
      (id : DeliveryId) {d : Delivery}
      → find_by_id w.tables.rows id ≡ some d
      → Step w (record { tables = w.tables; held = d ∷ w.held })
  succeed :
      (now : ℕ) (d : Delivery) (ids : Minted) (message : Option String) (actor : Actor)
      (request_id : Uuid) {t : DeliveryAttemptTransition}
      → Memᴰ d w.held
      → (record_delivery_success ids d message actor request_id).1 ≡ ok t
      → Step w (record {
        tables =
            (apply_attempt_transition now w.tables
              (record_delivery_success ids d message actor request_id).0
              t).0;
        held = w.held;
      })
  deliver :
      (now : ℕ) (d : Delivery) (ids : Minted) (actor : Actor) (request_id : Uuid)
      {t : DeliveryTransition}
      → Memᴰ d w.held
      → (record_delivery_delivered ids d actor request_id).1 ≡ ok t
      → Step w (record {
        tables = record {
          rows =
              (apply_transition now w.tables.rows
                (record_delivery_delivered ids d actor request_id).0).0;
          attempts = w.tables.attempts;
        };
        held = w.held;
      })
  fail :
      (now : ℕ) (d : Delivery) (ids : Minted) (retryable : Bool) (reason : String) (actor : Actor)
      (request_id : Uuid) {t : DeliveryAttemptTransition}
      → Memᴰ d w.held
      → (record_delivery_failure ids d retryable reason actor request_id).1 ≡ ok t
      → Step w (record {
        tables =
            (apply_attempt_transition now w.tables
              (record_delivery_failure ids d retryable reason actor request_id).0
              t).0;
        held = w.held;
      })

-- From a table whose deliveries nobody has tried or has in memory yet.
pub data Reach (planned : List Row) : World → Type 0 where
  start : Reach planned (record { tables = record { rows = planned; attempts = [] }; held = [] })
  later : {w w' : World} → Reach planned w → Step w w' → Reach planned w'
