-- ===== src/Store/Deliveries/Claim/Selection.antt =====
-- Proofs about the rows that `claim_next` of crates/infrastructure/src/postgres/deliveries.rs selects.
use safe_cameroon.Common.{
  ℕ, ◌+◌, ◌<◌, ◌≡◌, ◌≢◌, refl, sym, ◌∙◌, ap, inl, inr, Bool, true, false, List, [], ◌∷◌, map,
  filter, take, none, some, Memᴰ, All, arith, Bool-cases, ℕ_eq, ◌==◌, Distinct, contains,
  contains_of_mem, if◌then◌else◌, All-mem, All-members, mem_of_filter, mem_of_take, Distinct-filter,
  Distinct-take, map_of_mem,
}
use mathlib.Core.List.Memᴰ
use mathlib.Core.List.{map-map, map-id}
use safe_cameroon.Domain.Ids.{Uuid, DeliveryId}
use safe_cameroon.Domain.Delivery.{Delivery, DeliveryStatus-discrete, may_start, retry_backoff}
use safe_cameroon.Workflow.Delivery.{Minted}
use safe_cameroon.Store.Deliveries.{Row, advance_row}
use safe_cameroon.Store.Deliveries.Claim.{is_claimable, claim_next}
use safe_cameroon.Store.Deliveries.Claim.Claiming.{
  row_id, started, started-previous, advance_all, advance_row-other, IsStartable, claim_each_lem,
  claim_each-fits,
}

-- Rows of a table with the same identifier are one row.
pub row_of_id :
    (rows : List Row) {a b : Row}
    → Distinct (map row_id rows)
    → Memᴰ a rows
    → Memᴰ b rows
    → a.delivery.id ≡ b.delivery.id
    → a ≡ b
row_of_id [] {a = a} {b = b} distinct m n same = elim m [ ]
row_of_id (r ∷ rows) {a} {b} distinct (Memᴰ.head e) (Memᴰ.head f) same = e ∙ sym f
row_of_id (r ∷ rows) {a} {b} distinct (Memᴰ.head e) (Memᴰ.tail n) same =
    let listed = contains_of_mem (Memᴰ.map row_id n) in absurd (ground (arith, distinct.0))
row_of_id (r ∷ rows) {a} {b} distinct (Memᴰ.tail m) (Memᴰ.head f) same =
    let listed = contains_of_mem (Memᴰ.map row_id m) in absurd (ground (arith, distinct.0))
row_of_id (r ∷ rows) {a} {b} distinct (Memᴰ.tail m) (Memᴰ.tail n) same =
    row_of_id rows distinct.1 m n same

-- A row after the transaction that claimed `chosen`: a claimed one is being sent, its version the
-- next one, with no time of a next attempt; the others are as they were.
unfoldable pub after_claim : List Row → Row → Row
unfolding started
after_claim chosen row =
    if contains (map row_id chosen) row.delivery.id
    then record {
      delivery = started row;
      idempotency_key_hash = row.idempotency_key_hash;
      next_attempt_at = none;
    }
    else row

advance_row-started :
    (now : ℕ) (rows : List Row) (row : Row)
    → IsStartable rows row
    → advance_row now (started row) row ≡ record {
      delivery = started row;
      idempotency_key_hash = row.idempotency_key_hash;
      next_attempt_at = none;
    }
unfolding advance_row started retry_backoff DeliveryStatus-discrete
advance_row-started now rows row h = rw (started-previous rows row h) refl

-- A row after the starts of `chosen`, one after the other.
advance_by : ℕ → List Row → Row → Row
unfolding started
advance_by now [] row = row
advance_by now (c ∷ chosen) row = advance_by now chosen (advance_row now (started c) row)

advance_all-map :
    (now : ℕ) (rows chosen : List Row)
    → advance_all now rows chosen ≡ map (advance_by now chosen) rows
unfolding advance_all advance_by
advance_all-map now rows [] = sym (map-id rows)
advance_all-map now rows (c ∷ chosen) =
    advance_all-map now (map (advance_row now (started c)) rows) chosen
    ∙ map-map (advance_by now chosen) (advance_row now (started c)) rows

advance_by-other :
    (now : ℕ) (chosen : List Row) (row : Row)
    → contains (map row_id chosen) row.delivery.id ≡ false
    → advance_by now chosen row ≡ row
unfolding advance_by
advance_by-other now [] row h = refl
advance_by-other now (c ∷ chosen) row h =
    rw (advance_row-other now c row (λ same. ground (arith, h)))
      (advance_by-other now chosen row (ground (arith, h)))

-- A row of the table after all the starts, one of which may be its own.
advance_by-row :
    (now : ℕ) (rows chosen : List Row) (row : Row)
    → Distinct (map row_id rows)
    → Distinct (map row_id chosen)
    → All (IsStartable rows) chosen
    → Memᴰ row rows
    → advance_by now chosen row ≡ after_claim chosen row
unfolding advance_by after_claim
advance_by-row now rows [] row distinct apart h m = refl
advance_by-row now rows (c ∷ chosen) row distinct apart h m =
    elim (Bool-cases (c.delivery.id == row.delivery.id)) [
      | inl same ↦
          let e : c ≡ row = row_of_id rows distinct h.0.listed m (ground arith) in
          let fresh : contains (map row_id chosen) row.delivery.id ≡ false =
            ground (arith, apart.0) in
          rw (same, e, advance_row-started now rows row (rw e at h.0))
            (advance_by-other now chosen _ fresh)
      | inr other ↦
          rw (other, advance_row-other now c row (λ same. ground arith))
            (advance_by-row now rows chosen row distinct apart.1 h.1 m)
    ]

abbrev pub selected : ℕ → (DeliveryId → Bool) → List Row → ℕ → List Row
selected now locked rows limit = take limit (filter (is_claimable now locked rows) rows)

claimable-waits :
    (now : ℕ) (locked : DeliveryId → Bool) (rows : List Row) (row : Row)
    → is_claimable now locked rows row ≡ true
    → may_start row.delivery.status ≡ true
unfolding is_claimable DeliveryStatus-discrete
claimable-waits now locked rows row h = ground arith

selected-waits :
    (now : ℕ) (locked : DeliveryId → Bool) (rows : List Row) (limit : ℕ)
    → All (λ row. may_start row.delivery.status ≡ true) (selected now locked rows limit)
selected-waits now locked rows limit = All-members (selected now locked rows limit) (λ row m.
    claimable-waits now locked rows row
      (mem_of_filter (is_claimable now locked rows) rows (mem_of_take limit _ m)).1)

selected-IsStartable :
    (now : ℕ) (locked : DeliveryId → Bool) (rows : List Row) (limit : ℕ)
    → ((row : Row)
        → Memᴰ row (selected now locked rows limit)
        → row.delivery.version + 1 < 18446744073709551616)
    → All (IsStartable rows) (selected now locked rows limit)
selected-IsStartable now locked rows limit fits =
    All-members (selected now locked rows limit) (λ row m.
      let (listed, claimable) =
        mem_of_filter (is_claimable now locked rows) rows (mem_of_take limit _ m) in
      record {
        listed = listed;
        waits = claimable-waits now locked rows row claimable;
        fits = fits row m;
      })

selected-claimed :
    (mint : ℕ → Minted × Uuid) (now : ℕ) (locked : DeliveryId → Bool) (rows : List Row) (limit : ℕ)
    → Distinct (map row_id rows)
    → ((row : Row)
        → Memᴰ row (selected now locked rows limit)
        → row.delivery.version + 1 < 18446744073709551616)
    → claim_next mint now locked rows limit
      ≡ some (
        map (after_claim (selected now locked rows limit)) rows,
        map started (selected now locked rows limit),
      )
unfolding claim_next
selected-claimed mint now locked rows limit distinct fits =
    let chosen = selected now locked rows limit in
    let startable = selected-IsStartable now locked rows limit fits in
    let apart =
      Distinct-take row_id limit _
        (Distinct-filter row_id (is_claimable now locked rows) rows distinct) in
    claim_each_lem mint 0 now rows chosen distinct apart startable
    ∙ ap (λ rows'. some (rows', map started chosen))
        (advance_all-map now rows chosen
          ∙ map_of_mem (advance_by now chosen) (after_claim chosen) rows
              (λ row m. advance_by-row now rows chosen row distinct apart startable m))

-- When the identifiers of the table are different and no version is the last `u64`, `claim_next`
-- panics at no `expect`: it claims the first `limit` claimable rows, in order and each once, every one
-- of them is being sent under its next version, and every other row is as it was.
pub claim_next-selected :
    (mint : ℕ → Minted × Uuid) (now : ℕ) (locked : DeliveryId → Bool) (rows : List Row) (limit : ℕ)
    → Distinct (map row_id rows)
    → ((row : Row) → Memᴰ row rows → row.delivery.version + 1 < 18446744073709551616)
    → claim_next mint now locked rows limit
      ≡ some (
        map (after_claim (selected now locked rows limit)) rows,
        map started (selected now locked rows limit),
      )
claim_next-selected mint now locked rows limit distinct fits =
    selected-claimed mint now locked rows limit distinct (λ row m.
      fits row (mem_of_filter (is_claimable now locked rows) rows (mem_of_take limit _ m)).0)

-- A claim that returns has returned these rows and deliveries.
pub claim_next-returned :
    (mint : ℕ → Minted × Uuid) (now : ℕ) (locked : DeliveryId → Bool) (rows : List Row) (limit : ℕ)
    {rows' : List Row} {claimed : List Delivery}
    → Distinct (map row_id rows)
    → ((row : Row) → Memᴰ row rows → row.delivery.version < 18446744073709551616)
    → claim_next mint now locked rows limit ≡ some (rows', claimed)
    → (rows' ≡ map (after_claim (selected now locked rows limit)) rows)
      × (claimed ≡ map started (selected now locked rows limit))
      × ((row : Row)
          → Memᴰ row (selected now locked rows limit)
          → row.delivery.version + 1 < 18446744073709551616)
unfolding claim_next
claim_next-returned mint now locked rows limit {rows'} {claimed} distinct small h =
    let chosen = selected now locked rows limit in
    let fits = claim_each-fits mint 0 now rows chosen (selected-waits now locked rows limit) h in
    let next : (row : Row) → Memᴰ row chosen → row.delivery.version + 1 < 18446744073709551616 =
      λ row m.
        let below =
          small row (mem_of_filter (is_claimable now locked rows) rows (mem_of_take limit _ m)).0 in
        omega (arith, All-mem (λ r. r.delivery.version ≢ 18446744073709551615) m fits, below) in
    let e = selected-claimed mint now locked rows limit distinct next in
    (cc (e, h), cc (e, h), next)
