-- ===== src/Tests/Store.antt =====
-- The tables: crates/infrastructure/src/postgres.
use safe_cameroon.Common.{
  ℕ, ◌≡◌, refl, Bool, false, List, [], ◌∷◌, map, none, All, List_eq, ℕ_eq, contains,
}
use safe_cameroon.Domain.Ids.{Uuid}
use safe_cameroon.Domain.Delivery.{Delivery, DeliveryEventType, DeliveryStatus}
use safe_cameroon.Workflow.Case.{automated}
use safe_cameroon.Workflow.Delivery.{PlannedDelivery}
use safe_cameroon.Store.Deliveries.{
  Row, advance_delivery, apply_transition, conflict, create_planned,
}
use safe_cameroon.Store.Deliveries.Idempotence.{create_planned_idem}
use safe_cameroon.Store.Deliveries.Locking.{apply_transition_once}
use safe_cameroon.Store.Outbox.{OutboxRow, claim_unpublished}
use safe_cameroon.Store.Outbox.Claims.{publish, run, claim_unpublished_once}
use safe_cameroon.Tests.Samples.{planned_delivery}

abbrev planned : ℕ → PlannedDelivery
planned n = record {
  delivery = record planned_delivery { id = n };
  event = record {
    id = n;
    delivery_id = n;
    event_type = DeliveryEventType.delivery_requested;
    aggregate_version = 1;
  };
  idempotency_key_hash = 1 ∷ 2 ∷ [];
  actor = automated;
  audit_event_id = n;
  outbox_event_id = n;
  request_id = 9;
}

create_planned_idem_example :
    create_planned (create_planned [] (planned 30 ∷ [])) (planned 31 ∷ [])
    ≡ create_planned [] (planned 30 ∷ [])
create_planned_idem_example = create_planned_idem [] (planned 30 ∷ []) (planned 31 ∷ []) refl

abbrev stored : List Row
stored =
    record { delivery = planned_delivery; idempotency_key_hash = 1 ∷ []; next_attempt_at = none }
    ∷ []

abbrev started : Delivery
started = record planned_delivery {
  status = DeliveryStatus.sending;
  attempt_count = 1;
  version = 2;
}

apply_transition_once_example :
    apply_transition 101 (apply_transition 100 stored started).0 started
    ≡ ((apply_transition 100 stored started).0, conflict)
unfolding apply_transition advance_delivery
apply_transition_once_example = apply_transition_once 100 101 stored started started refl refl refl

abbrev queue : List OutboxRow
queue =
    record {
      id = 1;
      aggregate_id = 20;
      payload = "{}";
      event_type = "ALERT_CREATED";
      is_claimed = false;
      is_published = false;
    }
    ∷ []

abbrev unlocked : Uuid → Bool
unlocked id = false

claim_unpublished_once_example :
    All
      (λ e.
        contains (map (λ c. c.id) (claim_unpublished queue unlocked "ALERT_CREATED" 10).1) e.id
        ≡ false)
      (claim_unpublished
        (run (claim_unpublished queue unlocked "ALERT_CREATED" 10).0 (publish 1 ∷ []))
        unlocked
        "ALERT_CREATED"
        10).1
claim_unpublished_once_example =
    claim_unpublished_once queue unlocked "ALERT_CREATED" 10 (publish 1 ∷ []) unlocked
      "ALERT_CREATED" 10
