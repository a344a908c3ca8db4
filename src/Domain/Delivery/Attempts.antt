-- ===== src/Domain/Delivery/Attempts.antt =====
-- Sequences of the methods of `Delivery`, crates/domain/src/delivery.rs, with the attempts recorded.
use safe_cameroon.Common.{
  ℕ, ◌+◌, ◌≤◌, ◌<◌, ◌≡◌, String, Bool, List, [], ◌∷◌, ◌++◌, Option, none, some, Result, ok, err,
  length,
}
use safe_cameroon.Domain.Ids.{DeliveryId, DeliveryEventId, DeliveryAttemptId}
use safe_cameroon.Domain.Delivery.{
  Delivery, DeliveryStatus, DeliveryEvent, DeliveryTransitionError, DeliveryAttempt,
  DeliveryAttemptOutcome, sent, failed, start_attempt, record_success, record_delivered,
  record_failure,
}

-- What may be asked of a delivery, with the identifiers for the event and the attempt.
pub data Command : Type 0 where
  start : DeliveryEventId → Command
  succeed : DeliveryEventId → DeliveryAttemptId → Option String → Command
  deliver : DeliveryEventId → Command
  fail : DeliveryEventId → DeliveryAttemptId → Bool → String → Command

-- The state of a run: the delivery and the attempts recorded so far, oldest first.
abbrev pub Run : Type 0
Run = Delivery × List DeliveryAttempt

abbrev without_attempt {ℓ κ} :
    {A : Type ℓ} {E : Type κ} → List DeliveryAttempt → Delivery × Result A E → Run
without_attempt log (d, r) = (d, log)

abbrev with_attempt {κ} :
    {E : Type κ}
    → List DeliveryAttempt
    → Delivery × Result (DeliveryEvent × DeliveryAttempt) E
    → Run
with_attempt log (d, ok (e, a)) = (d, log ++ (a ∷ []))
with_attempt log (d, err e) = (d, log)

unfoldable pub perform : Run → Command → Run
unfolding start_attempt record_success record_delivered record_failure
perform (d, log) (start event_id) = without_attempt log (start_attempt event_id d)
perform (d, log) (succeed event_id attempt_id message) =
    with_attempt log (record_success event_id attempt_id d message)
perform (d, log) (deliver event_id) = without_attempt log (record_delivered event_id d)
perform (d, log) (fail event_id attempt_id retryable reason) =
    with_attempt log (record_failure event_id attempt_id d retryable reason)

unfoldable pub run : Run → List Command → Run
unfolding perform
run r [] = r
run r (cmd ∷ cmds) = run (perform r cmd) cmds

abbrev refusal {ℓ κ} : {A : Type ℓ} {E : Type κ} → Delivery × Result A E → Option E
refusal (d, ok a) = none
refusal (d, err e) = some e

-- What a command is answered where it is refused.
unfoldable pub refusal_of : Run → Command → Option DeliveryTransitionError
unfolding start_attempt record_success record_delivered record_failure
refusal_of (d, log) (start event_id) = refusal (start_attempt event_id d)
refusal_of (d, log) (succeed event_id attempt_id message) =
    refusal (record_success event_id attempt_id d message)
refusal_of (d, log) (deliver event_id) = refusal (record_delivered event_id d)
refusal_of (d, log) (fail event_id attempt_id retryable reason) =
    refusal (record_failure event_id attempt_id d retryable reason)

-- The answers in the course of a run.
unfoldable pub refusals : Run → List Command → List (Option DeliveryTransitionError)
unfolding perform refusal_of
refusals r [] = []
refusals r (cmd ∷ cmds) = refusal_of r cmd ∷ refusals (perform r cmd) cmds

-- The status that a command is for, where a failure is for the last one.
abbrev pub target : Command → DeliveryStatus
target (start event_id) = DeliveryStatus.sending
target (succeed event_id attempt_id message) = DeliveryStatus.sent
target (deliver event_id) = DeliveryStatus.delivered
target (fail event_id attempt_id retryable reason) = DeliveryStatus.failed_permanently

-- An attempt is under way while the delivery is being sent.
abbrev pub in_flight : DeliveryStatus → ℕ
in_flight DeliveryStatus.sending = 1
in_flight _ = 0

-- The sends that have succeeded, by the status and by the history.
abbrev pub sends : DeliveryStatus → ℕ
sends DeliveryStatus.sent = 1
sends DeliveryStatus.delivered = 1
sends _ = 0

abbrev pub is_send : DeliveryAttemptOutcome → ℕ
is_send (sent message) = 1
is_send (failed retryable reason) = 0

abbrev pub sent_count : List DeliveryAttempt → ℕ
sent_count [] = 0
sent_count (a ∷ rest) = is_send a.outcome + sent_count rest

-- The attempts of one delivery, numbered on from `n` without a gap.
abbrev pub Numbered : DeliveryId → ℕ → List DeliveryAttempt → Type 0
Numbered id n [] = Unit
Numbered id n (a ∷ rest) =
    (a.delivery_id ≡ id) × (a.attempt_number ≡ n + 1) × Numbered id (n + 1) rest

-- What ties a delivery to its history of attempts.
pub record IsHistory (r : Run) : Type 0 where
  pub some_attempt : 0 < r.0.retry_policy.max_attempts
  pub policy_fits : r.0.retry_policy.max_attempts < 4294967296
  pub capped : r.0.attempt_count ≤ r.0.retry_policy.max_attempts
  pub room :
      r.0.status ≡ DeliveryStatus.retrying → r.0.attempt_count < r.0.retry_policy.max_attempts
  pub untried : r.0.status ≡ DeliveryStatus.queued → r.0.attempt_count ≡ 0
  pub counted : length r.1 + in_flight r.0.status ≡ r.0.attempt_count
  pub numbered : Numbered r.0.id 0 r.1
  pub sent_once : sent_count r.1 ≡ sends r.0.status
