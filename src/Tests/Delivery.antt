-- ===== src/Tests/Delivery.antt =====
-- Deliveries: crates/domain/src/delivery.rs, crates/application/src/delivery_workflow.rs.
use safe_cameroon.Common.{
  ℕ, ◌-◌, ◌*◌, ◌^◌, ◌≤◌, ◌≡◌, ◌↔◌, refl, min, true, List, [], ◌∷◌, some, arith, length, is_ok, map,
}
use safe_cameroon.Domain.Delivery.{Delivery, DeliveryStatus, backoff_after_attempt, is_terminal}
use safe_cameroon.Domain.Delivery.Attempts.{
  Command, Numbered, Run, deliver, fail, run, refusals, target, sends, sent_count, start, succeed,
}
use safe_cameroon.Domain.Delivery.Lifecycle.{run_bounded, terminal_absorbs}
use safe_cameroon.Domain.Delivery.Backoff.{backoff_after_attempt_lem}
use safe_cameroon.Workflow.Case.{automated}
use safe_cameroon.Workflow.Delivery.{
  Minted, ProviderDeliveryStatus, WebhookEvent, apply_webhook_event,
}
use safe_cameroon.Workflow.Delivery.Callbacks.{apply_webhook_event_lem, awaited}
use safe_cameroon.Tests.Samples.{planned_delivery, three_attempts}

abbrev commands : List Command
commands =
    start 1 ∷ fail 2 3 true "timeout" ∷ start 4 ∷ succeed 5 6 (some "m") ∷ start 7 ∷ deliver 8 ∷ []

run_bounded_example :
    (length (run (planned_delivery, []) commands).1 ≤ 3)
    × Numbered (run (planned_delivery, []) commands).0.id 0 (run (planned_delivery, []) commands).1
    × (sent_count (run (planned_delivery, []) commands).1 ≤ 1)
    × (sent_count (run (planned_delivery, []) commands).1
        ≡ sends (run (planned_delivery, []) commands).0.status)
run_bounded_example =
    run_bounded commands planned_delivery (omega arith) (omega arith)
      (record { queued = refl; untried = refl })

abbrev finished : Run
finished = (record planned_delivery { status = DeliveryStatus.delivered; version = 4 }, [])

terminal_absorbs_example :
    (run finished commands ≡ finished)
    × (refusals finished commands
        ≡ map (λ cmd. some (record { from = DeliveryStatus.delivered; to = target cmd })) commands)
unfolding is_terminal
terminal_absorbs_example = terminal_absorbs commands finished refl

backoff_after_attempt_lem_example :
    backoff_after_attempt three_attempts 3 ≡ min (30 * 2 ^ (3 - 1)) 1800
backoff_after_attempt_lem_example = backoff_after_attempt_lem three_attempts 3

abbrev minted : ℕ → Minted
minted n = record { event_id = n; attempt_id = n; audit_event_id = n; outbox_event_id = n }

abbrev on_its_way : Delivery
on_its_way = record planned_delivery {
  status = DeliveryStatus.sent;
  attempt_count = 1;
  version = 3;
}

abbrev callback : WebhookEvent
callback = record {
  provider_event_id = "e";
  provider_message_id = "m";
  status = ProviderDeliveryStatus.delivered;
}

apply_webhook_event_lem_example :
    ((is_ok (apply_webhook_event (minted 1) on_its_way callback automated 9).1 ≡ true)
      ↔ (on_its_way.status ≡ awaited callback.status))
    × ((apply_webhook_event
          (minted 2)
          (apply_webhook_event (minted 1) on_its_way callback automated 9).0
          callback
          automated
          9).0
        ≡ (apply_webhook_event (minted 1) on_its_way callback automated 9).0)
apply_webhook_event_lem_example =
    apply_webhook_event_lem (minted 1) (minted 2) on_its_way callback automated 9
