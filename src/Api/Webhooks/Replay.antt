-- ===== src/Api/Webhooks/Replay.antt =====
-- Proofs about callbacks that come again, in apps/api/src/webhooks.rs.
use safe_cameroon.Common.{
  ◌≡◌, refl, inl, inr, String, Bool, true, false, List, [], ◌∷◌, ◌∙◌, Option-cases, any, Option,
  none, some, ok, arith, Bool-cases, if◌then◌else◌, beq_refl, ◌==◌, ◌&&◌, String_eq,
}
use safe_cameroon.Domain.Ids.{Uuid}
use safe_cameroon.Domain.Delivery.{ChannelType, ChannelType_eq, channel_type_from_database_value}
use safe_cameroon.Workflow.Delivery.{WebhookEvent}
use safe_cameroon.Api.Webhooks.{
  State, Environment, Callback, record_if_new, apply_event, guard_event, receive_webhook,
}

abbrev pub is_seen : List (ChannelType × String) → ChannelType → String → Bool
is_seen seen channel id = any (λ e. e.0 == channel && e.1 == id) seen

apply_event-seen :
    (env : Environment) (s : State) (event : WebhookEvent) (request_id : Uuid)
    → (apply_event env s event request_id).0.seen ≡ s.seen
unfolding apply_event
apply_event-seen env s event request_id = ground arith

record_if_new-new :
    (seen : List (ChannelType × String)) (channel : ChannelType) (id : String)
    → is_seen seen channel id ≡ false
    → record_if_new seen channel id ≡ ((channel, id) ∷ seen, true)
unfolding record_if_new
record_if_new-new seen channel id h = rw h refl

guard_event-new :
    (env : Environment) (s : State) (channel : ChannelType) (event : WebhookEvent)
    (request_id : Uuid)
    → env.guard_fails ≡ false
    → is_seen s.seen channel event.provider_event_id ≡ false
    → guard_event env s channel event request_id
      ≡ apply_event env
          (record { seen = (channel, event.provider_event_id) ∷ s.seen; tables = s.tables })
          event
          request_id
unfolding guard_event
guard_event-new env s channel event request_id works new =
    ground (arith, works, record_if_new-new s.seen channel event.provider_event_id new)

guard_event-again :
    (env : Environment) (s : State) (channel : ChannelType) (event : WebhookEvent)
    (request_id : Uuid)
    → env.guard_fails ≡ false
    → is_seen s.seen channel event.provider_event_id ≡ true
    → guard_event env s channel event request_id ≡ (s, ok 200)
unfolding guard_event record_if_new
guard_event-again env s channel event request_id works old = rw (works, old) refl

guard_event-answers :
    (env : Environment) (s : State) (channel : ChannelType) (event : WebhookEvent)
    (request_id : Uuid)
    → env.guard_fails ≡ false
    → guard_event env s channel event request_id ≡ (
        if is_seen s.seen channel event.provider_event_id
        then (s, ok 200)
        else apply_event env
            (record { seen = (channel, event.provider_event_id) ∷ s.seen; tables = s.tables })
            event
            request_id)
guard_event-answers env s channel event request_id works =
    elim (Bool-cases (is_seen s.seen channel event.provider_event_id)) [
      | inl old ↦ rw old (guard_event-again env s channel event request_id works old)
      | inr new ↦ rw new (guard_event-new env s channel event request_id works new)
    ]

-- Past the guard, an event is seen.
guard_event-seen :
    (env : Environment) (s : State) (channel : ChannelType) (event : WebhookEvent)
    (request_id : Uuid)
    → env.guard_fails ≡ false
    → is_seen (guard_event env s channel event request_id).0.seen channel event.provider_event_id
      ≡ true
guard_event-seen env s channel event request_id works =
    elim (Bool-cases (is_seen s.seen channel event.provider_event_id)) [
      | inl old ↦ rw (guard_event-again env s channel event request_id works old) old
      | inr new ↦
          let s' : State = record {
            seen = (channel, event.provider_event_id) ∷ s.seen;
            tables = s.tables;
          } in
          rw
            (
              guard_event-new env s channel event request_id works new,
              apply_event-seen env s' event request_id,
              beq_refl channel,
              beq_refl event.provider_event_id,
            )
            refl
    ]

-- The channel and the event of a callback that the handler accepts.
unfoldable pub verified : Environment → Callback → Option (ChannelType × WebhookEvent)
unfolding channel_type_from_database_value
verified env c = elim (channel_type_from_database_value (env.upper c.channel_segment)) [
  | none ↦ none
  | some channel ↦ elim (env.verifier channel c.provider) [
    | none ↦ none
    | some verify_and_parse ↦ elim (verify_and_parse c.headers c.body) [
      | none ↦ none
      | some event ↦ some (channel, event)
    ]
  ]
]

pub receive_webhook-verified :
    (env : Environment) (s : State) (c : Callback) (channel : ChannelType) (event : WebhookEvent)
    → verified env c ≡ some (channel, event)
    → receive_webhook env s c ≡ guard_event env s channel event c.request_id
unfolding verified receive_webhook
receive_webhook-verified env s c channel event h = ground (arith, h)

receive_webhook-refused :
    (env : Environment) (s : State) (c : Callback)
    → verified env c ≡ none
    → (receive_webhook env s c).0 ≡ s
unfolding verified receive_webhook
receive_webhook-refused env s c h = ground (arith, h)

-- Callbacks one after another, each under what the environment answers it.
unfoldable pub receive_each : State → List (Environment × Callback) → State
unfolding receive_webhook
receive_each s [] = s
receive_each s ((env, c) ∷ later) = receive_each (receive_webhook env s c).0 later

-- What has been seen once stays seen.
record_if_new-kept :
    (seen : List (ChannelType × String)) (channel other : ChannelType) (id new : String)
    → is_seen seen channel id ≡ true
    → is_seen (record_if_new seen other new).0 channel id ≡ true
unfolding record_if_new
record_if_new-kept seen channel other id new h = elim (Bool-cases (is_seen seen other new)) [
  | inl old ↦ rw old h
  | inr fresh ↦ rw (fresh, h) (ground arith)
]

guard_event-kept :
    (env : Environment) (s : State) (other : ChannelType) (event : WebhookEvent) (request_id : Uuid)
    (channel : ChannelType) (id : String)
    → is_seen s.seen channel id ≡ true
    → is_seen (guard_event env s other event request_id).0.seen channel id ≡ true
unfolding guard_event
guard_event-kept env s other event request_id channel id h =
    let s' : State = record {
      seen = (record_if_new s.seen other event.provider_event_id).0;
      tables = s.tables;
    } in
    ground (
      arith,
      record_if_new-kept s.seen channel other id event.provider_event_id h,
      apply_event-seen env s' event request_id,
    )

receive_webhook-kept :
    (env : Environment) (s : State) (c : Callback) (channel : ChannelType) (id : String)
    → is_seen s.seen channel id ≡ true
    → is_seen (receive_webhook env s c).0.seen channel id ≡ true
receive_webhook-kept env s c channel id h = elim (Option-cases (verified env c)) [
  | inl refused ↦ rw (receive_webhook-refused env s c refused) h
  | inr ((other, event), accepted) ↦
      rw (receive_webhook-verified env s c other event accepted)
        (guard_event-kept env s other event c.request_id channel id h)
]

receive_each-kept :
    (later : List (Environment × Callback)) (s : State) (channel : ChannelType) (id : String)
    → is_seen s.seen channel id ≡ true
    → is_seen (receive_each s later).seen channel id ≡ true
unfolding receive_each
receive_each-kept [] s channel id h = h
receive_each-kept ((env, c) ∷ later) s channel id h =
    receive_each-kept later (receive_webhook env s c).0 channel id
      (receive_webhook-kept env s c channel id h)

-- An event is looked up and applied by the first callback that brings it, and by no other: when the
-- replay guard answers, a callback whose event has not been seen goes on with the event marked as seen,
-- and however much later, whatever callbacks are received in between, another callback with the event's
-- identifier on the same channel changes nothing and is answered with 200, even if the first was
-- answered with an error because its lookup or its write failed.
pub receive_webhook_once :
    (env again : Environment) (s : State) (c c' : Callback) (channel : ChannelType)
    (event event' : WebhookEvent) (between : List (Environment × Callback))
    → verified env c ≡ some (channel, event)
    → verified again c' ≡ some (channel, event')
    → event'.provider_event_id ≡ event.provider_event_id
    → env.guard_fails ≡ false
    → again.guard_fails ≡ false
    → (receive_webhook env s c ≡ (
        if is_seen s.seen channel event.provider_event_id
        then (s, ok 200)
        else apply_event env
            (record { seen = (channel, event.provider_event_id) ∷ s.seen; tables = s.tables })
            event
            c.request_id))
      × (receive_webhook again (receive_each (receive_webhook env s c).0 between) c'
          ≡ (receive_each (receive_webhook env s c).0 between, ok 200))
receive_webhook_once env again s c c' channel event event' between first second same works works' =
    let first_seen : is_seen (receive_webhook env s c).0.seen channel event'.provider_event_id
        ≡ true =
      rw (same, receive_webhook-verified env s c channel event first)
        (guard_event-seen env s channel event c.request_id works) in
    let after = receive_each (receive_webhook env s c).0 between in
    let old : is_seen after.seen channel event'.provider_event_id ≡ true =
      receive_each-kept between (receive_webhook env s c).0 channel event'.provider_event_id
        first_seen in
    (
      receive_webhook-verified env s c channel event first
          ∙ guard_event-answers env s channel event c.request_id works,
      receive_webhook-verified again after c' channel event' second
          ∙ guard_event-again again after channel event' c'.request_id works' old,
    )
