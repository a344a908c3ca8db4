-- ===== src/Domain/Delivery/Lifecycle.antt =====
-- Proofs about a delivery of crates/domain/src/delivery.rs under sequences of its methods.
use safe_cameroon.Common.{
  ℕ, ◌+◌, ◌≤◌, ◌<◌, ◌≡◌, refl, String, Bool, true, List, [], ◌∷◌, ◌++◌, Option, length,
  length-append, arith, ◌∙◌, ap, map, some,
}
use mathlib.Core.Path.{ap₂}
use safe_cameroon.Domain.Ids.{DeliveryId, DeliveryEventId, DeliveryAttemptId}
use safe_cameroon.Domain.Delivery.{
  Delivery, DeliveryStatus, DeliveryStatus-discrete, DeliveryAttempt, sent, failed, is_terminal,
  DeliveryTransitionError,
}
use safe_cameroon.Domain.Delivery.Attempts.{
  Command, start, succeed, deliver, fail, Run, perform, run, refusal_of, refusals, target, sends,
  sent_count, Numbered, IsHistory,
}

sent_count-append :
    (xs ys : List DeliveryAttempt) → sent_count (xs ++ ys) ≡ sent_count xs + sent_count ys
sent_count-append [] ys = omega arith
sent_count-append (x ∷ xs) ys = omega (arith, sent_count-append xs ys)

Numbered-snoc :
    (id : DeliveryId) (n : ℕ) (log : List DeliveryAttempt) (a : DeliveryAttempt)
    → Numbered id n log
    → a.delivery_id ≡ id
    → a.attempt_number ≡ n + length log + 1
    → Numbered id n (log ++ (a ∷ []))
Numbered-snoc id n [] a h own next = (own, omega arith, tt)
Numbered-snoc id n (x ∷ log) a h own next =
    (h.0, h.1, Numbered-snoc id (n + 1) log a h.2 own (omega arith))

start-IsHistory :
    (d : Delivery) (log : List DeliveryAttempt) (event_id : DeliveryEventId)
    → IsHistory (d, log)
    → IsHistory (perform (d, log) (start event_id))
unfolding perform
start-IsHistory d log event_id h = ground arith

deliver-IsHistory :
    (d : Delivery) (log : List DeliveryAttempt) (event_id : DeliveryEventId)
    → IsHistory (d, log)
    → IsHistory (perform (d, log) (deliver event_id))
unfolding perform DeliveryStatus-discrete
deliver-IsHistory d log event_id h = ground arith

succeed-IsHistory :
    (d : Delivery) (log : List DeliveryAttempt) (event_id : DeliveryEventId)
    (attempt_id : DeliveryAttemptId) (message : Option String)
    → IsHistory (d, log)
    → IsHistory (perform (d, log) (succeed event_id attempt_id message))
unfolding perform DeliveryStatus-discrete
succeed-IsHistory d log event_id attempt_id message h =
    let a : DeliveryAttempt = record {
      id = attempt_id;
      delivery_id = d.id;
      attempt_number = d.attempt_count;
      outcome = sent message;
    } in
    ground (
      arith,
      length-append log (a ∷ []),
      sent_count-append log (a ∷ []),
      Numbered-snoc d.id 0 log a,
    )

fail-IsHistory :
    (d : Delivery) (log : List DeliveryAttempt) (event_id : DeliveryEventId)
    (attempt_id : DeliveryAttemptId) (retryable : Bool) (reason : String)
    → IsHistory (d, log)
    → IsHistory (perform (d, log) (fail event_id attempt_id retryable reason))
unfolding perform DeliveryStatus-discrete
fail-IsHistory d log event_id attempt_id retryable reason h =
    let a : DeliveryAttempt = record {
      id = attempt_id;
      delivery_id = d.id;
      attempt_number = d.attempt_count;
      outcome = failed retryable reason;
    } in
    ground (
      arith,
      length-append log (a ∷ []),
      sent_count-append log (a ∷ []),
      Numbered-snoc d.id 0 log a,
    )

perform-IsHistory : (r : Run) (cmd : Command) → IsHistory r → IsHistory (perform r cmd)
perform-IsHistory (d, log) (start event_id) h = start-IsHistory d log event_id h
perform-IsHistory (d, log) (succeed event_id attempt_id message) h =
    succeed-IsHistory d log event_id attempt_id message h
perform-IsHistory (d, log) (deliver event_id) h = deliver-IsHistory d log event_id h
perform-IsHistory (d, log) (fail event_id attempt_id retryable reason) h =
    fail-IsHistory d log event_id attempt_id retryable reason h

run-IsHistory : (cmds : List Command) (r : Run) → IsHistory r → IsHistory (run r cmds)
unfolding run
run-IsHistory [] r h = h
run-IsHistory (cmd ∷ cmds) r h = run-IsHistory cmds (perform r cmd) (perform-IsHistory r cmd h)

perform-policy : (r : Run) (cmd : Command) → (perform r cmd).0.retry_policy ≡ r.0.retry_policy
unfolding perform
perform-policy (d, log) (start event_id) = ground arith
perform-policy (d, log) (succeed event_id attempt_id message) = ground arith
perform-policy (d, log) (deliver event_id) = ground arith
perform-policy (d, log) (fail event_id attempt_id retryable reason) = ground arith

run-policy : (cmds : List Command) (r : Run) → (run r cmds).0.retry_policy ≡ r.0.retry_policy
unfolding run
run-policy [] r = refl
run-policy (cmd ∷ cmds) r = run-policy cmds (perform r cmd) ∙ perform-policy r cmd

-- A delivery as planning leaves it.
pub record IsPlanned (d : Delivery) : Type 0 where
  pub queued : d.status ≡ DeliveryStatus.queued
  pub untried : d.attempt_count ≡ 0

planned-IsHistory :
    (d : Delivery)
    → 0 < d.retry_policy.max_attempts
    → d.retry_policy.max_attempts < 4294967296
    → IsPlanned d
    → IsHistory (d, [])
planned-IsHistory d some_attempt fits p = ground arith

sends-le-one : (s : DeliveryStatus) → sends s ≤ 1
sends-le-one s = ground arith

-- Whatever is asked of a planned delivery, and in whatever order, under a policy of at least one
-- attempt whose number is a `u32`: it is attempted at most `max_attempts` times, the attempts are
-- numbered from 1 without a gap, at most one of them is a success, and one is exactly when the
-- delivery is sent or delivered.
pub run_bounded :
    (cmds : List Command) (d : Delivery)
    → 0 < d.retry_policy.max_attempts
    → d.retry_policy.max_attempts < 4294967296
    → IsPlanned d
    → (length (run (d, []) cmds).1 ≤ d.retry_policy.max_attempts)
      × Numbered (run (d, []) cmds).0.id 0 (run (d, []) cmds).1
      × (sent_count (run (d, []) cmds).1 ≤ 1)
      × (sent_count (run (d, []) cmds).1 ≡ sends (run (d, []) cmds).0.status)
run_bounded cmds d some_attempt fits p =
    let h = run-IsHistory cmds (d, []) (planned-IsHistory d some_attempt fits p) in
    (
      omega (arith, h.counted, h.capped, ap (λ q. q.max_attempts) (run-policy cmds (d, []))),
      h.numbered,
      rw h.sent_once (sends-le-one (run (d, []) cmds).0.status),
      h.sent_once,
    )

perform-terminal : (r : Run) (cmd : Command) → is_terminal r.0.status ≡ true → perform r cmd ≡ r
unfolding perform is_terminal DeliveryStatus-discrete
perform-terminal (d, log) (start event_id) h = ground arith
perform-terminal (d, log) (succeed event_id attempt_id message) h = ground arith
perform-terminal (d, log) (deliver event_id) h = ground arith
perform-terminal (d, log) (fail event_id attempt_id retryable reason) h = ground arith

abbrev refused : Run → Command → Option DeliveryTransitionError
refused r cmd = some (record { from = r.0.status; to = target cmd })

refusal_of-terminal :
    (r : Run) (cmd : Command) → is_terminal r.0.status ≡ true → refusal_of r cmd ≡ refused r cmd
unfolding refusal_of is_terminal DeliveryStatus-discrete
refusal_of-terminal (d, log) (start event_id) h = ground arith
refusal_of-terminal (d, log) (succeed event_id attempt_id message) h = ground arith
refusal_of-terminal (d, log) (deliver event_id) h = ground arith
refusal_of-terminal (d, log) (fail event_id attempt_id retryable reason) h = ground arith

-- A delivered or permanently failed delivery stays as it is, and so does its history, whatever
-- sequence of commands it is given: each of them is answered with an error that names the delivery's
-- status and the status that the command is for.
pub terminal_absorbs :
    (cmds : List Command) (r : Run)
    → is_terminal r.0.status ≡ true
    → (run r cmds ≡ r)
      × (refusals r cmds ≡ map (λ cmd. some (record { from = r.0.status; to = target cmd })) cmds)
unfolding run refusals
terminal_absorbs [] r h = (refl, refl)
terminal_absorbs (cmd ∷ cmds) r h =
    let same = perform-terminal r cmd h in
    let (stays, answers) = terminal_absorbs cmds r h in
    (rw same stays, ap₂ (λ a rest. a ∷ rest) (refusal_of-terminal r cmd h) (rw same answers))
