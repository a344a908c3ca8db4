-- ===== src/Store/Deliveries/Claim/Claimed.antt =====
-- The rows that a claim of crates/infrastructure/src/postgres/deliveries.rs leaves, and the deliveries
-- that it hands out.
use safe_cameroon.Common.{
  ℕ, ◌≡◌, refl, sym, Bool, true, List, [], ◌∷◌, map, Memᴰ, arith, ℕ_eq, contains, contains_of_mem,
  mem_of_contains, mem_of_filter, mem_of_take, Distinct,
}
use mathlib.Core.List.Memᴰ
use safe_cameroon.Domain.Ids.{DeliveryId}
use safe_cameroon.Domain.Delivery.{Delivery}
use safe_cameroon.Store.Deliveries.{Row}
use safe_cameroon.Store.Deliveries.Claim.{is_claimable}
use safe_cameroon.Store.Deliveries.Claim.Claiming.{row_id, started}
use safe_cameroon.Store.Deliveries.Claim.Selection.{after_claim, selected, row_of_id}

pub after_claim-id :
    (chosen : List Row) (r : Row) → (after_claim chosen r).delivery.id ≡ r.delivery.id
unfolding after_claim started
after_claim-id chosen r = ground arith

pub ids-claim :
    (chosen rows : List Row) → map row_id (map (after_claim chosen) rows) ≡ map row_id rows
ids-claim chosen [] = refl
ids-claim chosen (r ∷ rows) = rw (after_claim-id chosen r, ids-claim chosen rows) refl

module _ (now : ℕ) (locked : DeliveryId → Bool) (rows : List Row) (limit : ℕ)
    (distinct : Distinct (map row_id rows)) where
  -- What is claimed is in the table afterwards, as it was claimed.
  pub started-listed :
      {d : Delivery}
      → Memᴰ d (map started (selected now locked rows limit))
      → (r : Row) × Memᴰ r (map (after_claim (selected now locked rows limit)) rows)
        × (r.delivery ≡ d)
  unfolding after_claim
  started-listed {d} m =
      let chosen = selected now locked rows limit in
      let (c, n, e) = Memᴰ.of_map started chosen m in
      let there = (mem_of_filter (is_claimable now locked rows) rows (mem_of_take limit _ n)).0 in
      let here = contains_of_mem (Memᴰ.map row_id n) in
      (after_claim chosen c, Memᴰ.map (after_claim chosen) there, rw here e)

  -- A row whose identifier is among those of the selected rows is one of them.
  pub selected-row :
      (r : Row)
      → Memᴰ r rows
      → contains (map row_id (selected now locked rows limit)) r.delivery.id ≡ true
      → Memᴰ r (selected now locked rows limit)
  selected-row r m listed =
      let chosen = selected now locked rows limit in
      let (c, n, same) =
        Memᴰ.of_map row_id chosen (mem_of_contains (map row_id chosen) r.delivery.id listed) in
      let there = (mem_of_filter (is_claimable now locked rows) rows (mem_of_take limit _ n)).0 in
      Memᴰ.cast (sym (row_of_id rows distinct there m same)) n
