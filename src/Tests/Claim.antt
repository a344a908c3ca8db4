-- ===== src/Tests/Claim.antt =====
-- Claims of deliveries: crates/infrastructure/src/postgres/deliveries.rs.
use safe_cameroon.Common.{
  ℕ, ◌+◌, ◌<◌, ◌≡◌, refl, Bool, false, List, [], ◌∷◌, map, none, some, Memᴰ, All-mem, arith,
}
use safe_cameroon.Domain.Ids.{Uuid, DeliveryId}
use safe_cameroon.Domain.Delivery.{
  Delivery, DeliveryAttempt, DeliveryAttemptOutcome, DeliveryStatus, DeliveryStatus-discrete,
  start_attempt, record_failure, record_success, retry_backoff,
}
use safe_cameroon.Workflow.Case.{automated}
use safe_cameroon.Workflow.Delivery.{
  Minted, start_delivery_attempt, record_delivery_failure, record_delivery_success,
}
use safe_cameroon.Store.Deliveries.{Row, advance_row, advance_delivery, apply_transition}
use safe_cameroon.Store.Deliveries.Claim.{claim_next, claim_each, is_claimable}
use safe_cameroon.Store.Deliveries.Claim.Claiming.{started}
use safe_cameroon.Store.Deliveries.Claim.Selection.{selected, after_claim, claim_next-selected}
use safe_cameroon.Store.Deliveries.Claim.Interleaving.{
  World, Reach, start, later, claim, fail, succeed,
}
use safe_cameroon.Store.Deliveries.Claim.Fallback.{fallback_waits}
use safe_cameroon.Store.Deliveries.Lookups.{apply_attempt_transition}
use safe_cameroon.Tests.Samples.{planned_delivery}

-- A primary and its fallback.
abbrev pub row_of_tier : ℕ → ℕ → Row
row_of_tier id tier = record {
  delivery = record planned_delivery { id = id; tier = tier };
  idempotency_key_hash = id ∷ [];
  next_attempt_at = none;
}

abbrev pub two_tiers : List Row
two_tiers = row_of_tier 30 0 ∷ row_of_tier 31 1 ∷ []

abbrev pub made : Minted
made = record { event_id = 1; attempt_id = 2; audit_event_id = 3; outbox_event_id = 4 }

abbrev pub mint : ℕ → Minted × Uuid
mint k = (made, 9)

abbrev pub nobody : DeliveryId → Bool
nobody id = false

pub two_tiers-queued : (r : Row) → Memᴰ r two_tiers → r.delivery.status ≡ DeliveryStatus.queued
two_tiers-queued r m = All-mem (λ x. x.delivery.status ≡ DeliveryStatus.queued) m (refl, (refl, tt))

pub two_tiers-small : (r : Row) → Memᴰ r two_tiers → r.delivery.version < 18446744073709551616
two_tiers-small r m =
    All-mem (λ x. x.delivery.version < 18446744073709551616) m (omega arith, (omega arith, tt))

pub two_tiers-next : (r : Row) → Memᴰ r two_tiers → r.delivery.version + 1 < 18446744073709551616
two_tiers-next r m =
    All-mem (λ x. x.delivery.version + 1 < 18446744073709551616) m (omega arith, (omega arith, tt))

claim_next-selected_example :
    claim_next mint 100 nobody two_tiers 10
    ≡ some (
      map (after_claim (selected 100 nobody two_tiers 10)) two_tiers,
      map started (selected 100 nobody two_tiers 10),
    )
claim_next-selected_example =
    claim_next-selected mint 100 nobody two_tiers 10 (refl, (refl, tt)) two_tiers-next

-- The primary is claimed, fails for good, and then the fallback is claimed.
abbrev sending : Delivery
sending = record planned_delivery {
  status = DeliveryStatus.sending;
  attempt_count = 1;
  version = 2;
}

abbrev first_claimed : World
first_claimed = record {
  tables = record {
    rows =
        record { delivery = sending; idempotency_key_hash = 30 ∷ []; next_attempt_at = none }
        ∷ row_of_tier 31 1
        ∷ [];
    attempts = [];
  };
  held = sending ∷ [];
}

abbrev failed_primary : Row
failed_primary = record {
  delivery = record planned_delivery {
    status = DeliveryStatus.failed_permanently;
    attempt_count = 1;
    version = 3;
  };
  idempotency_key_hash = 30 ∷ [];
  next_attempt_at = none;
}

abbrev one_attempt : List DeliveryAttempt
one_attempt =
    record {
      id = 2;
      delivery_id = 30;
      attempt_number = 1;
      outcome = DeliveryAttemptOutcome.failed false "blocked";
    }
    ∷ []

abbrev first_failed : World
first_failed = record {
  tables = record { rows = failed_primary ∷ row_of_tier 31 1 ∷ []; attempts = one_attempt };
  held = sending ∷ [];
}

abbrev fallback_sending : Delivery
fallback_sending = record planned_delivery {
  id = 31;
  tier = 1;
  status = DeliveryStatus.sending;
  attempt_count = 1;
  version = 2;
}

abbrev fallback_row : Row
fallback_row = record {
  delivery = fallback_sending;
  idempotency_key_hash = 31 ∷ [];
  next_attempt_at = none;
}

abbrev second_claimed : World
second_claimed = record {
  tables = record { rows = failed_primary ∷ fallback_row ∷ []; attempts = one_attempt };
  held = fallback_sending ∷ sending ∷ [];
}

after_first : Reach two_tiers first_claimed
unfolding claim_next claim_each is_claimable start_delivery_attempt start_attempt advance_delivery
    advance_row retry_backoff DeliveryStatus-discrete
after_first = later start (claim mint 100 nobody 10 refl)

after_failure : Reach two_tiers first_failed
unfolding record_delivery_failure record_failure DeliveryStatus-discrete apply_attempt_transition
    apply_transition advance_delivery advance_row retry_backoff
after_failure =
    later after_first (fail 101 sending made false "blocked" automated 9 (Memᴰ.head refl) refl)

after_second : Reach two_tiers second_claimed
unfolding claim_next claim_each is_claimable start_delivery_attempt start_attempt advance_delivery
    advance_row retry_backoff DeliveryStatus-discrete
after_second = later after_failure (claim mint 102 nobody 10 refl)

-- The primary is claimed and sent.
abbrev pub first_sent : World
first_sent = record {
  tables = record {
    rows =
        record {
          delivery = record planned_delivery {
            status = DeliveryStatus.sent;
            attempt_count = 1;
            version = 3;
          };
          idempotency_key_hash = 30 ∷ [];
          next_attempt_at = none;
        }
        ∷ row_of_tier 31 1
        ∷ [];
    attempts =
        record {
          id = 2;
          delivery_id = 30;
          attempt_number = 1;
          outcome = DeliveryAttemptOutcome.sent (some "sms-1");
        }
        ∷ [];
  };
  held = sending ∷ [];
}

pub after_success : Reach two_tiers first_sent
unfolding record_delivery_success record_success DeliveryStatus-discrete apply_attempt_transition
    apply_transition advance_delivery advance_row retry_backoff
after_success =
    later after_first (succeed 101 sending made (some "sms-1") automated 9 (Memᴰ.head refl) refl)

fallback_waits_example : failed_primary.delivery.status ≡ DeliveryStatus.failed_permanently
fallback_waits_example =
    fallback_waits failed_primary fallback_row (refl, (refl, tt)) two_tiers-queued two_tiers-small
      after_second (Memᴰ.head refl) (Memᴰ.tail (Memᴰ.head refl)) refl (λ e. cc)
