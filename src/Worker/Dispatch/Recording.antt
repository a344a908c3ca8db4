-- ===== src/Worker/Dispatch/Recording.antt =====
-- Proofs about `dispatch_one` of apps/worker/src/dispatch.rs when the database answers.
use safe_cameroon.Common.{
  ℕ, ◌+◌, ◌<◌, ◌≡◌, ◌≢◌, ◌∙◌, inl, inr, String, Bool, true, false, List, [], ◌∷◌, ◌++◌, map, none,
  some, Result, Result-cases, ok, is_ok, Option-cases, Memᴰ, arith, ℕ_eq, Distinct,
}
use safe_cameroon.Domain.Ids.{AlertId, ConsumerId}
use safe_cameroon.Domain.Delivery.{
  Delivery, DeliveryAttempt, DeliveryStatus, DeliveryStatus-discrete, DeliveryStatus_eq,
  record_success, record_failure,
}
use safe_cameroon.Workflow.Case.{automated}
use safe_cameroon.Workflow.Delivery.{
  DeliveryAttemptTransition, record_delivery_success, record_delivery_failure,
}
use safe_cameroon.Workflow.Message.{OutboundMessage, build_outbound_message}
use safe_cameroon.Store.Deliveries.{
  Row, advance_row, advance_delivery, apply_transition, is_previous,
}
use safe_cameroon.Store.Deliveries.Claim.Claiming.{row_id, one_previous}
use safe_cameroon.Store.Deliveries.Lookups.{Tables, apply_attempt_transition}
use safe_cameroon.Worker.Dispatch.{
  Environment, Done, ChannelSendOutcome, ChannelError, write_attempt, fail, record_sent,
  send_and_record, dispatch_one, locale_of,
}

-- The environment answers every query and commits every transaction.
pub record Answers {SqlxError : Type 0} (env : Environment SqlxError) : Type 0 where
  pub alerts : (k : ℕ) (id : AlertId) → is_ok (env.find_alert k id) ≡ true
  pub consumers : (k : ℕ) (id : ConsumerId) → is_ok (env.find_consumer k id) ≡ true
  pub commits : (k : ℕ) → env.commit_error k ≡ none

-- A delivery as the worker got it from the table: being sent, with a next version.
pub record IsUnderway (rows : List Row) (d : Delivery) : Type 0 where
  pub row : Row
  pub listed : Memᴰ row rows
  pub own : row.delivery ≡ d
  pub sending : d.status ≡ DeliveryStatus.sending
  pub fits : d.version + 1 < 18446744073709551616

-- An outcome is in the tables: the row has the next version of the delivery, which is no longer being
-- sent, and there is one more attempt, with the delivery's identifier and number.
pub record IsRecorded {SqlxError : Type 0} (now : ℕ) (tables : Tables) (d : Delivery)
    (out : Tables × Done SqlxError) : Type 0 where
  pub next : Delivery
  pub same : next.id ≡ d.id
  pub advanced : next.version ≡ d.version + 1
  pub ended : next.status ≢ DeliveryStatus.sending
  pub attempt : DeliveryAttempt
  pub attempt_own : attempt.delivery_id ≡ d.id
  pub attempt_counted : attempt.attempt_number ≡ d.attempt_count
  pub result : out ≡ (
    record {
      rows = map (advance_row now next) tables.rows;
      attempts = tables.attempts ++ (attempt ∷ []);
    },
    ok tt,
  )

module _ {SqlxError : Type 0} (env : Environment SqlxError) (answers : Answers env) (k : ℕ)
    (tables : Tables) (d : Delivery) (distinct : Distinct (map row_id tables.rows))
    (u : IsUnderway tables.rows d) where
  write_attempt-recorded :
      (next : Delivery) (transition : DeliveryAttemptTransition)
      → next.id ≡ d.id
      → next.version ≡ d.version + 1
      → write_attempt env k tables next transition ≡ (
        record {
          rows = map (advance_row (env.clock k) next) tables.rows;
          attempts = tables.attempts ++ (transition.attempt ∷ []);
        },
        ok tt,
      )
  unfolding write_attempt apply_attempt_transition apply_transition advance_delivery
  write_attempt-recorded next transition same advanced =
      let here : is_previous next u.row ≡ true = rw u.own (ground (arith, same, advanced)) in
      let one = one_previous next tables.rows distinct u.listed here in
      ground (arith, answers.commits k, one)

  -- What a method that succeeds made of the delivery is recorded.
  write-IsRecorded :
      (next : Delivery) (transition : DeliveryAttemptTransition) (out : Tables × Done SqlxError)
      → next.id ≡ d.id
      → next.version ≡ d.version + 1
      → next.status ≢ DeliveryStatus.sending
      → transition.attempt.delivery_id ≡ d.id
      → transition.attempt.attempt_number ≡ d.attempt_count
      → out ≡ write_attempt env k tables next transition
      → IsRecorded (env.clock k) tables d out
  write-IsRecorded next transition out same advanced ended own counted e = record {
    next = next;
    same = same;
    advanced = advanced;
    ended = ended;
    attempt = transition.attempt;
    attempt_own = own;
    attempt_counted = counted;
    result = e ∙ write_attempt-recorded next transition same advanced;
  }

  fail-IsRecorded :
      (retryable : Bool) (reason : String)
      → IsRecorded (env.clock k) tables d (fail env k tables d retryable reason)
  unfolding fail record_delivery_failure record_failure DeliveryStatus-discrete
  fail-IsRecorded retryable reason =
      let sending = u.sending in
      let fits = u.fits in
      let (ids, rid) = env.mint k in
      let made = record_delivery_failure ids d retryable reason automated rid in
      elim (Result-cases made.1) [
        | inl (t, e) ↦
            write-IsRecorded made.0 t (fail env k tables d retryable reason) (ground arith)
              (ground arith) (ground arith) (ground arith) (ground arith) (ground arith)
        | inr (e, refused) ↦ absurd (ground arith)
      ]

  record_sent-IsRecorded :
      (outcome : ChannelSendOutcome)
      → IsRecorded (env.clock k) tables d (record_sent env k tables d outcome)
  unfolding record_sent record_delivery_success record_success DeliveryStatus-discrete
  record_sent-IsRecorded outcome =
      let sending = u.sending in
      let fits = u.fits in
      let (ids, rid) = env.mint k in
      let made = record_delivery_success ids d outcome.provider_message_id automated rid in
      elim (Result-cases made.1) [
        | inl (t, e) ↦
            write-IsRecorded made.0 t (record_sent env k tables d outcome) (ground arith)
              (ground arith) (ground arith) (ground arith) (ground arith) (ground arith)
        | inr (e, refused) ↦ absurd (ground arith)
      ]

  send_and_record-IsRecorded :
      (send : ℕ → OutboundMessage → Result ChannelSendOutcome ChannelError)
      (message : OutboundMessage)
      → IsRecorded (env.clock k) tables d (send_and_record env k tables d send message)
  unfolding send_and_record
  send_and_record-IsRecorded send message = elim (Result-cases (send k message)) [
    | inl (outcome, e) ↦ rw (send_and_record, e) (record_sent-IsRecorded outcome)
    | inr (error, e) ↦ rw (send_and_record, e) (fail-IsRecorded error.retryable error.message)
  ]

  -- Whatever the registry, the alerts and the channel answer, one outcome is recorded.
  pub dispatch_one-IsRecorded : IsRecorded (env.clock k) tables d (dispatch_one env k tables d)
  unfolding dispatch_one
  dispatch_one-IsRecorded = elim (Option-cases (env.registry d.channel)) [
    | inl unknown ↦ rw (dispatch_one, unknown) (fail-IsRecorded false _)
    | inr (send, known) ↦ elim (Result-cases (env.find_alert k d.alert_id)) [
      | inr (e, failed) ↦ absurd (cc (answers.alerts k d.alert_id, failed))
      | inl (none, found) ↦ rw (dispatch_one, known, found) (fail-IsRecorded false _)
      | inl (some alert, found) ↦ elim (Result-cases (env.find_consumer k d.consumer_id)) [
        | inr (e, failed) ↦ absurd (cc (answers.consumers k d.consumer_id, failed))
        | inl (consumer, asked) ↦
            rw (dispatch_one, known, found, asked)
              (send_and_record-IsRecorded send
                (build_outbound_message env.lower alert d (locale_of consumer)))
      ]
    ]
  ]
