-- ===== src/Store/Outbox.antt =====
-- crates/infrastructure/src/postgres/outbox.rs: the `outbox_events` table as a queue. A row has the
-- columns that the queue reads, the times of claim and publication as whether they are set; rows
-- stand in the order of `created_at`, and `locked` are those that `SKIP LOCKED` skips.
pub mod Claims
use safe_cameroon.Common.{
  ℕ, String, Bool, true, false, not, ◌&&◌, List, [], ◌∷◌, map, filter, take, contains,
  if◌then◌else◌, ◌==◌, ℕ_eq, String_eq,
}
use safe_cameroon.Domain.Ids.{Uuid}

pub record OutboxRow : Type 0 where
  pub id : Uuid
  pub aggregate_id : Uuid
  pub payload : String
  pub event_type : String
  pub is_claimed : Bool
  pub is_published : Bool

pub record ClaimedOutboxEvent : Type 0 where
  pub id : Uuid
  pub aggregate_id : Uuid
  pub payload : String

abbrev pub is_claimable : String → (Uuid → Bool) → OutboxRow → Bool
is_claimable event_type locked row =
    row.event_type == event_type
    && not row.is_published
    && not row.is_claimed
    && not (locked row.id)

abbrev pub claim_row : List Uuid → OutboxRow → OutboxRow
claim_row ids row = if contains ids row.id then record row { is_claimed = true } else row

unfoldable pub mark_claimed : List OutboxRow → List Uuid → List OutboxRow
mark_claimed rows ids = map (claim_row ids) rows

abbrev pub claimed_event : OutboxRow → ClaimedOutboxEvent
claimed_event row = record { id = row.id; aggregate_id = row.aggregate_id; payload = row.payload }

unfoldable pub claim_unpublished :
    List OutboxRow → (Uuid → Bool) → String → ℕ → List OutboxRow × List ClaimedOutboxEvent
unfolding mark_claimed
claim_unpublished rows locked event_type limit =
    let chosen = take limit (filter (is_claimable event_type locked) rows) in
    (mark_claimed rows (map (λ row. row.id) chosen), map claimed_event chosen)

unfoldable pub mark_published : List OutboxRow → Uuid → List OutboxRow
mark_published rows id =
    map (λ row. if row.id == id then record row { is_published = true } else row) rows
