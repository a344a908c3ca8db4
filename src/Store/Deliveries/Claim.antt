-- ===== src/Store/Deliveries/Claim.antt =====
-- `claim_next` and `find_by_id` of crates/infrastructure/src/postgres/deliveries.rs. `now` is the
-- database's clock, `locked` the rows that `SKIP LOCKED` skips, and `mint` gives the k-th claimed row
-- its identifiers and its request. Rows stand in the order of `created_at`.
pub mod Claiming
pub mod Selection
pub mod Claimed
pub mod Gating
pub mod Interleaving
pub mod Soundness
pub mod Reporting
pub mod Fallback
use safe_cameroon.Common.{
  ℕ, ◌+◌, Bool, true, not, ◌&&◌, ◌||◌, List, [], ◌∷◌, map, filter, find, take, any, Option, none,
  some, ok, err, ltb, leb, if◌then◌else◌, ◌==◌, ℕ_eq,
}
use safe_cameroon.Domain.Ids.{Uuid, DeliveryId}
use safe_cameroon.Domain.Delivery.{Delivery, DeliveryStatus, DeliveryStatus_eq}
use safe_cameroon.Workflow.Case.{automated}
use safe_cameroon.Workflow.Delivery.{Minted, start_delivery_attempt}
use safe_cameroon.Store.Deliveries.{Row, advance_delivery}

-- `delivery_from_row` of a row is the delivery that the row stands for.
unfoldable pub find_by_id : List Row → DeliveryId → Option Delivery
find_by_id [] id = none
find_by_id (row ∷ rows) id = if row.delivery.id == id then some row.delivery else find_by_id rows id

-- The `lower` of the subquery, its status aside: a lower tier for the same alert and consumer.
abbrev pub is_lower : Delivery → Delivery → Bool
is_lower lower d =
    lower.alert_id == d.alert_id && lower.consumer_id == d.consumer_id && ltb lower.tier d.tier

abbrev pub holds_back : Row → Row → Bool
holds_back row lower =
    is_lower lower.delivery row.delivery
    && not (lower.delivery.status == DeliveryStatus.failed_permanently)

abbrev pub is_due : ℕ → Option ℕ → Bool
is_due now none = true
is_due now (some at) = leb at now

unfoldable pub is_claimable : ℕ → (DeliveryId → Bool) → List Row → Row → Bool
is_claimable now locked rows row =
    (row.delivery.status == DeliveryStatus.queued || row.delivery.status == DeliveryStatus.retrying)
    && is_due now row.next_attempt_at
    && (row.delivery.tier == 0 || not (any (holds_back row) rows))
    && not (locked row.delivery.id)

abbrev pub claimed_first :
    Delivery → Option (List Row × List Delivery) → Option (List Row × List Delivery)
claimed_first d none = none
claimed_first d (some (rows, claimed)) = some (rows, d ∷ claimed)

-- The loop over the selected rows; `none` where an `expect` panics.
unfoldable pub claim_each :
    (ℕ → Minted × Uuid) → ℕ → ℕ → List Row → List Row → Option (List Row × List Delivery)
unfolding start_delivery_attempt advance_delivery
claim_each mint k now rows [] = some (rows, [])
claim_each mint k now rows (row ∷ rest) =
    let (d, transition) = start_delivery_attempt (mint k).0 row.delivery automated (mint k).1 in
    let (rows', advanced) = advance_delivery now rows d in
    let claimed = claim_each mint (k + 1) now rows' rest in
    elim transition [ err e ↦ none | ok t ↦ if advanced then claimed_first d claimed else none ]

-- The rows after the transaction and the deliveries claimed.
unfoldable pub claim_next :
    (ℕ → Minted × Uuid) → ℕ → (DeliveryId → Bool) → List Row → ℕ → Option (List Row × List Delivery)
unfolding claim_each is_claimable
claim_next mint now locked rows limit =
    claim_each mint 0 now rows (take limit (filter (is_claimable now locked rows) rows))
