-- ===== src/Store/Deliveries/Claim/Gating.antt =====
-- Fallback tiers in crates/infrastructure/src/postgres/deliveries.rs: what keeps a delivery of a higher
-- tier waiting, and the operations of the table that keep it.
use safe_cameroon.Common.{
  ℕ, ◌≡◌, ◌≢◌, ◌⊎◌, refl, sym, ◌∙◌, inl, inr, Bool, true, false, List, map, any, any-none, Memᴰ,
  arith, Bool-cases, ℕ_eq, contains, mem_of_filter, mem_of_take, mem_of_contains, Distinct,
}
use mathlib.Core.List.Memᴰ
use safe_cameroon.Domain.Ids.{DeliveryId}
use safe_cameroon.Domain.Delivery.{
  Delivery, DeliveryStatus, DeliveryStatus-discrete, DeliveryStatus_eq,
}
use safe_cameroon.Store.Deliveries.{Row, advance_row, is_previous}
use safe_cameroon.Store.Deliveries.Claim.{is_claimable, is_lower, holds_back}
use safe_cameroon.Store.Deliveries.Claim.Claiming.{row_id, started}
use safe_cameroon.Store.Deliveries.Claim.Selection.{after_claim, selected, row_of_id}

-- A delivery that has left the queue has every lower tier behind it permanently failed.
abbrev pub IsGated : List Row → Type 0
IsGated rows =
    (a b : Row)
    → Memᴰ a rows
    → Memᴰ b rows
    → is_lower a.delivery b.delivery ≡ true
    → b.delivery.status ≢ DeliveryStatus.queued
    → a.delivery.status ≡ DeliveryStatus.failed_permanently

-- A change of the rows that moves none between alerts, consumers or tiers, leaves failed rows failed,
-- and takes a row from the queue only when the lower tiers have failed.
pub record IsGuarded (f : Row → Row) (rows : List Row) : Type 0 where
  pub placed : (a b : Row) → is_lower (f a).delivery (f b).delivery ≡ is_lower a.delivery b.delivery
  pub final :
      (r : Row)
      → Memᴰ r rows
      → r.delivery.status ≡ DeliveryStatus.failed_permanently
      → (f r).delivery.status ≡ DeliveryStatus.failed_permanently
  pub gate :
      (a b : Row)
      → Memᴰ a rows
      → Memᴰ b rows
      → is_lower a.delivery b.delivery ≡ true
      → b.delivery.status ≡ DeliveryStatus.queued
      → (f b).delivery.status ≢ DeliveryStatus.queued
      → a.delivery.status ≡ DeliveryStatus.failed_permanently

status-cases : (s : DeliveryStatus) → (s ≡ DeliveryStatus.queued) ⊎ (s ≢ DeliveryStatus.queued)
unfolding DeliveryStatus-discrete
status-cases s = elim (DeliveryStatus-discrete s DeliveryStatus.queued) [
  | yes e ↦ inl e
  | no n ↦ inr n
]

pub map-IsGated :
    (f : Row → Row) (rows : List Row) → IsGuarded f rows → IsGated rows → IsGated (map f rows)
map-IsGated f rows g h a b m n lower moved =
    let (a0, m0, ea) = Memᴰ.of_map f rows m in
    let (b0, n0, eb) = Memᴰ.of_map f rows n in
    let below : is_lower a0.delivery b0.delivery ≡ true =
      sym (g.placed a0 b0) ∙ rw (ea, eb) lower in
    let left : (f b0).delivery.status ≢ DeliveryStatus.queued = rw eb moved in
    let failed : a0.delivery.status ≡ DeliveryStatus.failed_permanently =
      elim (status-cases b0.delivery.status) [
        | inl queued ↦ g.gate a0 b0 m0 n0 below queued left
        | inr gone ↦ h a0 b0 m0 n0 below gone
      ] in
    rw (← ea) (g.final a0 m0 failed)

-- A row whose identifier is among the claimed ones was claimable.
pub claimed-claimable :
    (now : ℕ) (locked : DeliveryId → Bool) (rows : List Row) (limit : ℕ) (r : Row)
    → Distinct (map row_id rows)
    → Memᴰ r rows
    → contains (map row_id (selected now locked rows limit)) r.delivery.id ≡ true
    → is_claimable now locked rows r ≡ true
claimed-claimable now locked rows limit r distinct m listed =
    let chosen = selected now locked rows limit in
    let (c, n, same) =
      Memᴰ.of_map row_id chosen (mem_of_contains (map row_id chosen) r.delivery.id listed) in
    let (there, claimable) =
      mem_of_filter (is_claimable now locked rows) rows (mem_of_take limit _ n) in
    rw (← row_of_id rows distinct there m same) claimable

claimable-waits :
    (now : ℕ) (locked : DeliveryId → Bool) (rows : List Row) (r : Row)
    → is_claimable now locked rows r ≡ true
    → r.delivery.status ≢ DeliveryStatus.failed_permanently
unfolding is_claimable DeliveryStatus-discrete
claimable-waits now locked rows r h = ground arith

claimable-gate :
    (now : ℕ) (locked : DeliveryId → Bool) (rows : List Row) (a b : Row)
    → Memᴰ a rows
    → is_lower a.delivery b.delivery ≡ true
    → is_claimable now locked rows b ≡ true
    → a.delivery.status ≡ DeliveryStatus.failed_permanently
unfolding is_claimable DeliveryStatus-discrete
claimable-gate now locked rows a b m lower claimable =
    let free : any (holds_back b) rows ≡ false = ground arith in
    let open_to : holds_back b a ≡ false = any-none (holds_back b) free m in ground arith

after_claim-placed :
    (chosen : List Row) (a b : Row)
    → is_lower (after_claim chosen a).delivery (after_claim chosen b).delivery
      ≡ is_lower a.delivery b.delivery
unfolding after_claim started
after_claim-placed chosen a b = ground arith

pub after_claim-other :
    (chosen : List Row) (r : Row)
    → contains (map row_id chosen) r.delivery.id ≡ false
    → after_claim chosen r ≡ r
unfolding after_claim
after_claim-other chosen r h = rw h refl

pub claim-IsGuarded :
    (now : ℕ) (locked : DeliveryId → Bool) (rows : List Row) (limit : ℕ)
    → Distinct (map row_id rows)
    → IsGuarded (after_claim (selected now locked rows limit)) rows
claim-IsGuarded now locked rows limit distinct =
    let chosen = selected now locked rows limit in
    record {
      placed = after_claim-placed chosen;
      final = λ r m failed. elim (Bool-cases (contains (map row_id chosen) r.delivery.id)) [
        | inl listed ↦ absurd (
            claimable-waits now locked rows r
              (claimed-claimable now locked rows limit r distinct m listed) failed)
        | inr other ↦ rw (after_claim-other chosen r other) failed
      ];
      gate = λ a b m n lower queued left.
          elim (Bool-cases (contains (map row_id chosen) b.delivery.id)) [
            | inl listed ↦
                claimable-gate now locked rows a b m lower
                  (claimed-claimable now locked rows limit b distinct n listed)
            | inr other ↦ absurd (left (rw (after_claim-other chosen b other) queued))
          ];
    }

advance_row-placed :
    (now : ℕ) (d : Delivery) (a b : Row)
    → is_lower (advance_row now d a).delivery (advance_row now d b).delivery
      ≡ is_lower a.delivery b.delivery
unfolding advance_row
advance_row-placed now d a b = ground arith

-- Writing a delivery over the row of its previous version, which neither waited nor had failed.
pub advance-IsGuarded :
    (now : ℕ) (d : Delivery) (rows : List Row)
    → ((r : Row)
        → Memᴰ r rows
        → is_previous d r ≡ true
        → (r.delivery.status ≢ DeliveryStatus.queued)
          × (r.delivery.status ≢ DeliveryStatus.failed_permanently))
    → IsGuarded (advance_row now d) rows
unfolding advance_row
advance-IsGuarded now d rows under_way = record {
  placed = advance_row-placed now d;
  final = λ r m failed. elim (Bool-cases (is_previous d r)) [
    | inl here ↦ absurd ((under_way r m here).1 failed)
    | inr away ↦ rw away failed
  ];
  gate = λ a b m n lower queued left. elim (Bool-cases (is_previous d b)) [
    | inl here ↦ absurd ((under_way b n here).0 queued)
    | inr away ↦ absurd (left (rw away queued))
  ];
}
