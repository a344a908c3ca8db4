-- ===== src/Workflow/Delivery/Callbacks.antt =====
-- Proofs about `apply_webhook_event` of crates/application/src/delivery_workflow.rs.
use safe_cameroon.Common.{◌≡◌, ◌↔◌, true, is_ok, arith}
use safe_cameroon.Domain.Ids.{Uuid}
use safe_cameroon.Domain.Delivery.{
  Delivery, DeliveryStatus, DeliveryStatus-discrete, DeliveryStatus_eq, record_delivered,
  record_failure,
}
use safe_cameroon.Workflow.Case.{Actor}
use safe_cameroon.Workflow.Delivery.{
  Minted, ProviderDeliveryStatus, WebhookEvent, apply_webhook_event, record_delivery_delivered,
  record_delivery_failure,
}

-- The status that a callback needs to find.
abbrev pub awaited : ProviderDeliveryStatus → DeliveryStatus
awaited ProviderDeliveryStatus.delivered = DeliveryStatus.sent
awaited (ProviderDeliveryStatus.failed _ _) = DeliveryStatus.sending

-- A callback is accepted exactly when the delivery is in the status that it awaits: sent for a
-- report of delivery, sending for a report of failure. The same callback, applied again, changes
-- nothing.
pub apply_webhook_event_lem :
    (ids again : Minted) (d : Delivery) (event : WebhookEvent) (actor : Actor) (request_id : Uuid)
    → ((is_ok (apply_webhook_event ids d event actor request_id).1 ≡ true)
        ↔ (d.status ≡ awaited event.status))
      × ((apply_webhook_event again
            (apply_webhook_event ids d event actor request_id).0
            event
            actor
            request_id).0
          ≡ (apply_webhook_event ids d event actor request_id).0)
unfolding apply_webhook_event record_delivery_delivered record_delivery_failure record_delivered
    record_failure DeliveryStatus-discrete
apply_webhook_event_lem ids again d event actor request_id =
    ((λ h. ground arith, λ h. ground arith), ground arith)
