-- ===== src/Store/Outbox/Claims.antt =====
-- Proofs about `claim_unpublished` of crates/infrastructure/src/postgres/outbox.rs.
use safe_cameroon.Common.{
  ℕ, zero, suc, ◌≡◌, refl, ap, inl, inr, String, Bool, true, false, List, [], ◌∷◌, map, filter,
  take, contains, All, arith, Bool-cases, ℕ_eq, ◌==◌,
}
use safe_cameroon.Domain.Ids.{Uuid}
use safe_cameroon.Store.Outbox.{
  OutboxRow, claimed_event, is_claimable, claim_unpublished, mark_claimed, mark_published,
}

-- The events of a queue that are claimed.
abbrev pub AllClaimed : List Uuid → List OutboxRow → Type 0
AllClaimed ids = All (λ row. contains ids row.id ≡ true → row.is_claimed ≡ true)

-- What may happen to the queue after a claim, with the rows that others have locked.
pub data Op : Type 0 where
  claim : (Uuid → Bool) → String → ℕ → Op
  publish : Uuid → Op

unfoldable pub perform : List OutboxRow → Op → List OutboxRow
unfolding claim_unpublished mark_published
perform rows (claim locked event_type limit) = (claim_unpublished rows locked event_type limit).0
perform rows (publish id) = mark_published rows id

unfoldable pub run : List OutboxRow → List Op → List OutboxRow
unfolding perform
run rows [] = rows
run rows (op ∷ ops) = run (perform rows op) ops

mark_claimed-AllClaimed :
    (ids : List Uuid) (rows : List OutboxRow) → AllClaimed ids (mark_claimed rows ids)
unfolding mark_claimed
mark_claimed-AllClaimed ids [] = tt
mark_claimed-AllClaimed ids (row ∷ rows) = elim (Bool-cases (contains ids row.id)) [
  | inl listed ↦ (rw listed (λ _. refl), mark_claimed-AllClaimed ids rows)
  | inr other ↦ (rw other (λ h. cc), mark_claimed-AllClaimed ids rows)
]

mark_claimed-kept :
    (ids marked : List Uuid) (rows : List OutboxRow)
    → AllClaimed ids rows
    → AllClaimed ids (mark_claimed rows marked)
unfolding mark_claimed
mark_claimed-kept ids marked [] h = tt
mark_claimed-kept ids marked (row ∷ rows) h = elim (Bool-cases (contains marked row.id)) [
  | inl listed ↦ (rw listed (λ _. refl), mark_claimed-kept ids marked rows h.1)
  | inr other ↦ (rw other h.0, mark_claimed-kept ids marked rows h.1)
]

mark_published-kept :
    (ids : List Uuid) (id : Uuid) (rows : List OutboxRow)
    → AllClaimed ids rows
    → AllClaimed ids (mark_published rows id)
unfolding mark_published
mark_published-kept ids id [] h = tt
mark_published-kept ids id (row ∷ rows) h = elim (Bool-cases (row.id == id)) [
  | inl same ↦ (rw same h.0, mark_published-kept ids id rows h.1)
  | inr other ↦ (rw other h.0, mark_published-kept ids id rows h.1)
]

run-kept :
    (ids : List Uuid) (ops : List Op) (rows : List OutboxRow)
    → AllClaimed ids rows
    → AllClaimed ids (run rows ops)
unfolding run perform claim_unpublished
run-kept ids [] rows h = h
run-kept ids (claim locked event_type limit ∷ ops) rows h =
    run-kept ids ops _ (mark_claimed-kept ids _ rows h)
run-kept ids (publish id ∷ ops) rows h = run-kept ids ops _ (mark_published-kept ids id rows h)

filter-fresh :
    (ids : List Uuid) (event_type : String) (locked : Uuid → Bool) (rows : List OutboxRow)
    → AllClaimed ids rows
    → All (λ row. contains ids row.id ≡ false) (filter (is_claimable event_type locked) rows)
filter-fresh ids event_type locked [] h = tt
filter-fresh ids event_type locked (row ∷ rows) h =
    elim (Bool-cases (is_claimable event_type locked row)) [
      | inl free ↦ rw free (ground (arith, h.0), filter-fresh ids event_type locked rows h.1)
      | inr held ↦ rw held (filter-fresh ids event_type locked rows h.1)
    ]

take-fresh :
    (ids : List Uuid) (n : ℕ) (rows : List OutboxRow)
    → All (λ row. contains ids row.id ≡ false) rows
    → All (λ e. contains ids e.id ≡ false) (map claimed_event (take n rows))
take-fresh ids zero rows h = tt
take-fresh ids (suc n) [] h = tt
take-fresh ids (suc n) (row ∷ rows) h = (h.0, take-fresh ids n rows h.1)

event_ids :
    (rows : List OutboxRow) → map (λ e. e.id) (map claimed_event rows) ≡ map (λ row. row.id) rows
event_ids [] = refl
event_ids (row ∷ rows) = ap (λ ids. row.id ∷ ids) (event_ids rows)

-- Once a claim has handed some events out, no later claim, by whichever consumer and whatever is
-- claimed or published in between, hands out one of them again.
pub claim_unpublished_once :
    (rows : List OutboxRow) (first : Uuid → Bool) (first_type : String) (first_limit : ℕ)
    (ops : List Op) (locked : Uuid → Bool) (event_type : String) (limit : ℕ)
    → All
        (λ e.
          contains (map (λ c. c.id) (claim_unpublished rows first first_type first_limit).1) e.id
          ≡ false)
        (claim_unpublished
          (run (claim_unpublished rows first first_type first_limit).0 ops)
          locked
          event_type
          limit).1
unfolding claim_unpublished
claim_unpublished_once rows first first_type first_limit ops locked event_type limit =
    let chosen = take first_limit (filter (is_claimable first_type first) rows) in
    let ids = map (λ row. row.id) chosen in
    rw (event_ids chosen) (
      take-fresh ids limit _ (
        filter-fresh ids event_type locked (run (mark_claimed rows ids) ops)
          (run-kept ids ops (mark_claimed rows ids) (mark_claimed-AllClaimed ids rows))))
