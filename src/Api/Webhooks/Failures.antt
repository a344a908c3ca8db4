-- ===== src/Api/Webhooks/Failures.antt =====
-- Proofs about callbacks that report a failure, in apps/api/src/webhooks.rs.
use safe_cameroon.Common.{
  ℕ, ◌<◌, ◌≡◌, ◌≢◌, refl, sym, ◌∙◌, ap, inl, inr, String, Bool, true, List, [], ◌∷◌, map, filter,
  some, Option-cases, Result-cases, ok, arith, Bool-cases, leb, Memᴰ, mem_of_filter, Distinct, ℕ_eq,
  subst, ◌==◌, nat_eq_iff,
}
use safe_cameroon.Domain.Ids.{Uuid}
use safe_cameroon.Domain.Delivery.{
  ChannelType, Delivery, DeliveryAttempt, DeliveryAttemptOutcome, DeliveryStatus,
  DeliveryStatus-discrete, record_failure, sent, failed,
}
use safe_cameroon.Domain.Delivery.Attempts.{is_send, sends}
use safe_cameroon.Workflow.Case.{automated}
use safe_cameroon.Workflow.Delivery.{
  WebhookEvent, ProviderDeliveryStatus, WebhookAppliedTransition, Minted, apply_webhook_event,
  record_delivery_failure,
}
use safe_cameroon.Store.Deliveries.{Row}
use safe_cameroon.Store.Deliveries.Claim.{find_by_id}
use safe_cameroon.Store.Deliveries.Claim.Claiming.{row_id}
use safe_cameroon.Store.Deliveries.Claim.Interleaving.{World, Reach}
use safe_cameroon.Store.Deliveries.Claim.Soundness.{IsSound, found-row}
use safe_cameroon.Store.Deliveries.Claim.Fallback.{reached-IsSound}
use safe_cameroon.Store.Deliveries.Lookups.{is_sent_as, last_by_number, find_by_provider_message_id}
use safe_cameroon.Api.Webhooks.{
  State, Environment, Callback, apply_event, guard_event, record_if_new, receive_webhook,
}
use safe_cameroon.Api.Webhooks.Replay.{verified, receive_webhook-verified}

last_by_number-listed :
    (attempts : List DeliveryAttempt) {a : DeliveryAttempt}
    → last_by_number attempts ≡ some a
    → Memᴰ a attempts
unfolding last_by_number
last_by_number-listed [] h = cc
last_by_number-listed (x ∷ rest) {a} h = elim (Option-cases (last_by_number rest)) [
  | inl alone ↦ Memᴰ.head (sym (some-eq x a (rw (last_by_number, alone) at h)))
  | inr (b, later) ↦ elim (Bool-cases (leb b.attempt_number x.attempt_number)) [
    | inl first ↦ Memᴰ.head (sym (some-eq x a (rw (last_by_number, later, first) at h)))
    | inr second ↦
        let e = some-eq b a (rw (last_by_number, later, second) at h) in
        Memᴰ.tail (rw (← e) (last_by_number-listed rest later))
  ]
]
  where
    some-eq : (y z : DeliveryAttempt) → some y ≡ some z → y ≡ z
    some-eq y z e = cc

is_sent_as-is_send :
    (message : String) (outcome : DeliveryAttemptOutcome)
    → is_sent_as message outcome ≡ true
    → is_send outcome ≡ 1
is_sent_as-is_send message (sent m) h = refl
is_sent_as-is_send message (failed retryable reason) h = cc

find_by_id-id : (rows : List Row) (id : ℕ) {d : Delivery} → find_by_id rows id ≡ some d → d.id ≡ id
unfolding find_by_id
find_by_id-id [] id h = cc
find_by_id-id (row ∷ rows) id {d} h = elim (Bool-cases (row.delivery.id == id)) [
  | inr there ↦ find_by_id-id rows id (rw there at h)
  | inl here ↦ (ap (λ x. x.id) (some-eq (rw here at h))) ∙ (nat_eq_iff row.delivery.id id).0 here
]
  where
    some-eq : some row.delivery ≡ some d → d ≡ row.delivery
    some-eq e = cc

-- A delivery that is found by the identifier that the provider gave its message has been sent.
found-sent :
    (w : World) (message : String) {d : Delivery}
    → IsSound w
    → find_by_provider_message_id w.tables message ≡ some d
    → sends d.status ≡ 1
unfolding find_by_provider_message_id
found-sent w message {d} s h =
    let matching = filter (λ a. is_sent_as message a.outcome) w.tables.attempts in
    elim (Option-cases (last_by_number matching)) [
      | inl nothing ↦ absurd (ground (arith, h, nothing))
      | inr (a, last) ↦
          let (logged, matches) =
            mem_of_filter (λ a. is_sent_as message a.outcome) w.tables.attempts
              (last_by_number-listed matching last) in
          let found : find_by_id w.tables.rows a.delivery_id ≡ some d = ground (arith, h, last) in
          let (r, m, e) = found-row w.tables.rows a.delivery_id found in
          let own =
            sym (find_by_id-id w.tables.rows a.delivery_id found) ∙ ap (λ x. x.id) (sym e) in
          rw (← e) (s.sent_stays a r logged m own (is_sent_as-is_send message a.outcome matches))
    ]

apply_webhook_event-refused :
    (ids : Minted) (d : Delivery) (event : WebhookEvent) (request_id : Uuid) (retryable : Bool)
    (reason : String) {t : WebhookAppliedTransition}
    → event.status ≡ ProviderDeliveryStatus.failed retryable reason
    → sends d.status ≡ 1
    → (apply_webhook_event ids d event automated request_id).1 ≢ ok t
unfolding apply_webhook_event record_delivery_failure record_failure DeliveryStatus-discrete
apply_webhook_event-refused ids d event request_id retryable reason e was_sent h = ground arith

apply_event-refused :
    (env : Environment) (s : State) (event : WebhookEvent) (request_id : Uuid)
    → ((d : Delivery) (t : WebhookAppliedTransition)
        → find_by_provider_message_id s.tables event.provider_message_id ≡ some d
        → (apply_webhook_event env.ids d event automated request_id).1 ≢ ok t)
    → (apply_event env s event request_id).0 ≡ s
unfolding apply_event
apply_event-refused env s event request_id refused =
    elim (Option-cases (find_by_provider_message_id s.tables event.provider_message_id)) [
      | inl unknown ↦ ground (arith, unknown)
      | inr (d, found) ↦
          elim (Result-cases (apply_webhook_event env.ids d event automated request_id).1) [
            | inl (t, h) ↦ absurd (refused d t found h)
            | inr (e, h) ↦ ground (arith, found, h)
          ]
    ]

guard_event-refused :
    (env : Environment) (s : State) (channel : ChannelType) (event : WebhookEvent)
    (request_id : Uuid)
    → ((s' : State) → s'.tables ≡ s.tables → (apply_event env s' event request_id).0 ≡ s')
    → (guard_event env s channel event request_id).0.tables ≡ s.tables
unfolding guard_event
guard_event-refused env s channel event request_id same =
    let s' : State = record {
      seen = (record_if_new s.seen channel event.provider_event_id).0;
      tables = s.tables;
    } in
    ground (arith, same s' refl)

-- A provider's report that a message was not delivered never reaches its delivery: in every state that
-- workers, callbacks and reports lead to from queued deliveries, the lookup finds only deliveries that
-- have been sent, and these accept no failure, so the callback leaves the deliveries and their attempts
-- as they were.
pub receive_webhook-failed :
    {planned : List Row} {w : World} (env : Environment) (s : State) (c : Callback)
    (channel : ChannelType) (event : WebhookEvent) (retryable : Bool) (reason : String)
    → Distinct (map row_id planned)
    → ((r : Row) → Memᴰ r planned → r.delivery.status ≡ DeliveryStatus.queued)
    → ((r : Row) → Memᴰ r planned → r.delivery.version < 18446744073709551616)
    → Reach planned w
    → s.tables ≡ w.tables
    → verified env c ≡ some (channel, event)
    → event.status ≡ ProviderDeliveryStatus.failed retryable reason
    → (receive_webhook env s c).0.tables ≡ s.tables
receive_webhook-failed {w} env s c channel event retryable reason distinct queued small r here h
      status =
    rw (receive_webhook-verified env s c channel event h) (
      guard_event-refused env s channel event c.request_id (λ s' same.
        apply_event-refused env s' event c.request_id (λ d t found.
          apply_webhook_event-refused env.ids d event c.request_id retryable reason status (
            found-sent w event.provider_message_id (reached-IsSound distinct queued small r) (
              subst
                (λ tables. find_by_provider_message_id tables event.provider_message_id ≡ some d)
                (same ∙ here) found)))))
