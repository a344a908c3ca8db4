-- ===== src/Store/Deliveries/Claim/Reporting.antt =====
-- Reports on deliveries over the tables of crates/infrastructure/src/postgres/deliveries.rs keep what
-- the interleaved steps keep.
use safe_cameroon.Common.{
  ℕ, ◌≡◌, refl, inl, inr, Bool, true, false, List, [], ◌∷◌, ◌++◌, map, filter, Option, Memᴰ, arith,
  Bool-cases, ℕ_eq, subst, ok, append-nil, length, nat_eq, String,
}
use safe_cameroon.Domain.Ids.{Uuid}
use safe_cameroon.Domain.Delivery.{
  Delivery, DeliveryStatus-discrete, record_success, record_delivered, record_failure,
}
use safe_cameroon.Workflow.Delivery.{
  record_delivery_success, record_delivery_delivered, record_delivery_failure,
}
use safe_cameroon.Store.Deliveries.{
  Row, advance_row, advance_delivery, is_previous, apply_transition, applied, conflict,
}
use safe_cameroon.Store.Deliveries.Claim.Interleaving.{World}
use safe_cameroon.Store.Deliveries.Claim.Soundness.{
  IsSound, IsNext, advanced-IsSound, some_previous,
}
use safe_cameroon.Store.Deliveries.Lookups.{Tables, apply_attempt_transition}
use safe_cameroon.Workflow.Case.{Actor}
use safe_cameroon.Workflow.Delivery.{Minted, DeliveryTransition, DeliveryAttemptTransition}

pub success-IsNext :
    (d : Delivery) (ids : Minted) (message : Option String) (actor : Actor) (request_id : Uuid)
    (t : DeliveryAttemptTransition)
    → (record_delivery_success ids d message actor request_id).1 ≡ ok t
    → IsNext d (record_delivery_success ids d message actor request_id).0 (t.attempt ∷ [])
unfolding record_delivery_success record_success DeliveryStatus-discrete
success-IsNext d ids message actor request_id t h = ground arith

pub delivered-IsNext :
    (d : Delivery) (ids : Minted) (actor : Actor) (request_id : Uuid) (t : DeliveryTransition)
    → (record_delivery_delivered ids d actor request_id).1 ≡ ok t
    → IsNext d (record_delivery_delivered ids d actor request_id).0 []
unfolding record_delivery_delivered record_delivered DeliveryStatus-discrete
delivered-IsNext d ids actor request_id t h = ground arith

pub failure-IsNext :
    (d : Delivery) (ids : Minted) (retryable : Bool) (reason : String) (actor : Actor)
    (request_id : Uuid) (t : DeliveryAttemptTransition)
    → (record_delivery_failure ids d retryable reason actor request_id).1 ≡ ok t
    → IsNext d (record_delivery_failure ids d retryable reason actor request_id).0 (t.attempt ∷ [])
unfolding record_delivery_failure record_failure DeliveryStatus-discrete
failure-IsNext d ids retryable reason actor request_id t h = ground arith

apply_transition-one :
    (now : ℕ) (rows : List Row) (d : Delivery)
    → nat_eq (length (filter (is_previous d) rows)) 1 ≡ true
    → apply_transition now rows d ≡ (map (advance_row now d) rows, applied)
unfolding apply_transition advance_delivery
apply_transition-one now rows d h = rw h refl

apply_transition-none :
    (now : ℕ) (rows : List Row) (d : Delivery)
    → nat_eq (length (filter (is_previous d) rows)) 1 ≡ false
    → apply_transition now rows d ≡ (rows, conflict)
unfolding apply_transition advance_delivery
apply_transition-none now rows d h = rw h refl

attempt-one :
    (now : ℕ) (tables : Tables) (d : Delivery) (t : DeliveryAttemptTransition)
    → nat_eq (length (filter (is_previous d) tables.rows)) 1 ≡ true
    → (apply_attempt_transition now tables d t).0 ≡ record {
      rows = map (advance_row now d) tables.rows;
      attempts = tables.attempts ++ (t.attempt ∷ []);
    }
unfolding apply_attempt_transition
attempt-one now tables d t h = ground (arith, apply_transition-one now tables.rows d h)

attempt-none :
    (now : ℕ) (tables : Tables) (d : Delivery) (t : DeliveryAttemptTransition)
    → nat_eq (length (filter (is_previous d) tables.rows)) 1 ≡ false
    → (apply_attempt_transition now tables d t).0 ≡ tables
unfolding apply_attempt_transition
attempt-none now tables d t h = ground (arith, apply_transition-none now tables.rows d h)

pub attempt-IsSound :
    (now : ℕ) (w : World) (d d' : Delivery) (t : DeliveryAttemptTransition)
    → IsSound w
    → Memᴰ d w.held
    → IsNext d d' (t.attempt ∷ [])
    → IsSound (record { tables = (apply_attempt_transition now w.tables d' t).0; held = w.held })
attempt-IsSound now w d d' t s m n =
    elim (Bool-cases (nat_eq (length (filter (is_previous d') w.tables.rows)) 1)) [
      | inl one ↦
          let (written, there, previous) = some_previous d' w.tables.rows one in
          rw (attempt-one now w.tables d' t one)
            (advanced-IsSound now w d d' (t.attempt ∷ []) written s m n there previous)
      | inr other ↦ rw (attempt-none now w.tables d' t other) s
    ]

pub transition-IsSound :
    (now : ℕ) (w : World) (d d' : Delivery)
    → IsSound w
    → Memᴰ d w.held
    → IsNext d d' []
    → IsSound (record {
      tables = record {
        rows = (apply_transition now w.tables.rows d').0;
        attempts = w.tables.attempts;
      };
      held = w.held;
    })
transition-IsSound now w d d' s m n =
    elim (Bool-cases (nat_eq (length (filter (is_previous d') w.tables.rows)) 1)) [
      | inl one ↦
          let (written, there, previous) = some_previous d' w.tables.rows one in
          rw (apply_transition-one now w.tables.rows d' one) (
            subst
              (λ attempts. IsSound (record {
                tables = record {
                  rows = map (advance_row now d') w.tables.rows;
                  attempts = attempts;
                };
                held = w.held;
              }))
              (append-nil w.tables.attempts)
              (advanced-IsSound now w d d' [] written s m n there previous))
      | inr other ↦ rw (apply_transition-none now w.tables.rows d' other) s
    ]
