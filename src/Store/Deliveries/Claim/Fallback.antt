-- ===== src/Store/Deliveries/Claim/Fallback.antt =====
-- Proofs about interleaved claims, loads and reports over the `deliveries` table of
-- crates/infrastructure/src/postgres/deliveries.rs.
use safe_cameroon.Common.{
  ℕ, ◌+◌, ◌<◌, ◌≡◌, ◌≢◌, sym, ◌∙◌, ap, inl, inr, Bool, true, List, [], ◌++◌, map, Memᴰ, arith,
  Bool-cases, ℕ_eq, contains, u64, Distinct, subst,
}
use mathlib.Core.List.Memᴰ
use safe_cameroon.Domain.Ids.{DeliveryId}
use safe_cameroon.Domain.Delivery.{Delivery, DeliveryStatus, DeliveryStatus-discrete}
use safe_cameroon.Store.Deliveries.{Row}
use safe_cameroon.Store.Deliveries.Claim.{is_lower, is_claimable}
use safe_cameroon.Store.Deliveries.Claim.Claiming.{row_id, started}
use safe_cameroon.Store.Deliveries.Claim.Selection.{after_claim, selected, claim_next-returned}
use safe_cameroon.Store.Deliveries.Claim.Claimed.{
  after_claim-id, ids-claim, started-listed, selected-row,
}
use safe_cameroon.Store.Deliveries.Claim.Gating.{
  map-IsGated, claim-IsGuarded, claimed-claimable, after_claim-other,
}
use safe_cameroon.Store.Deliveries.Claim.Interleaving.{
  World, Step, claim, load, succeed, deliver, fail, Reach, start, later,
}
use safe_cameroon.Domain.Delivery.Attempts.{sends}
use safe_cameroon.Store.Deliveries.Claim.Reporting.{
  success-IsNext, delivered-IsNext, failure-IsNext, attempt-IsSound, transition-IsSound,
}
use safe_cameroon.Store.Deliveries.Claim.Soundness.{
  IsCoherent, IsSound, load-IsSound, listed-IsCoherent,
}

after_claim-small :
    (chosen : List Row) (r : Row)
    → r.delivery.version < 18446744073709551616
    → (after_claim chosen r).delivery.version < 18446744073709551616
unfolding after_claim started
after_claim-small chosen r h = ground (arith, h)

-- A claimed row is one version ahead of what was in memory before.
IsCoherent-claim :
    (chosen : List Row) (d : Delivery) (r : Row)
    → (contains (map row_id chosen) r.delivery.id ≡ true
        → r.delivery.version + 1 < 18446744073709551616)
    → IsCoherent d r
    → IsCoherent d (after_claim chosen r)
unfolding after_claim started
IsCoherent-claim chosen d r fits h =
    elim (Bool-cases (contains (map row_id chosen) r.delivery.id)) [
      | inl listed ↦
          let small = fits listed in
          let next : u64 (r.delivery.version + 1) ≡ r.delivery.version + 1 =
            ground (arith, small) in
          rw listed (record {
            past = λ same. omega (arith, h.past same, next);
            current = λ same e. absurd (omega (arith, h.past same, next, e));
          })
      | inr other ↦ rw other h
    ]

claimable-unsent :
    (now : ℕ) (locked : DeliveryId → Bool) (rows : List Row) (r : Row)
    → is_claimable now locked rows r ≡ true
    → sends r.delivery.status ≢ 1
unfolding is_claimable DeliveryStatus-discrete
claimable-unsent now locked rows r h = ground arith

selected-IsSound :
    (now : ℕ) (locked : DeliveryId → Bool) (limit : ℕ) (w : World)
    → IsSound w
    → ((row : Row)
        → Memᴰ row (selected now locked w.tables.rows limit)
        → row.delivery.version + 1 < 18446744073709551616)
    → IsSound (record {
      tables = record {
        rows = map (after_claim (selected now locked w.tables.rows limit)) w.tables.rows;
        attempts = w.tables.attempts;
      };
      held = map started (selected now locked w.tables.rows limit) ++ w.held;
    })
selected-IsSound now locked limit w s fits =
    let chosen = selected now locked w.tables.rows limit in
    let distinct' = subst (λ ids. Distinct ids) (sym (ids-claim chosen w.tables.rows)) s.distinct in
    let small : (r : Row)
        → Memᴰ r (map (after_claim chosen) w.tables.rows)
        → r.delivery.version < 18446744073709551616 =
      λ r listed.
        let (r0, m0, e) = Memᴰ.of_map (after_claim chosen) w.tables.rows listed in
        rw (← e) (after_claim-small chosen r0 (s.row_small r0 m0)) in
    record {
      distinct = distinct';
      row_small = small;
      held_small = λ d held. elim (Memᴰ.append_cases (map started chosen) held) [
        | inl claimed ↦
            let (r, m, e) = started-listed now locked w.tables.rows limit s.distinct claimed in
            rw (← e) (small r m)
        | inr before ↦ s.held_small d before
      ];
      coherent = λ d r held listed. elim (Memᴰ.append_cases (map started chosen) held) [
        | inl claimed ↦
            let (own, m, e) = started-listed now locked w.tables.rows limit s.distinct claimed in
            rw (← e) (listed-IsCoherent _ own distinct' m r listed)
        | inr before ↦
            let (r0, m0, e) = Memᴰ.of_map (after_claim chosen) w.tables.rows listed in
            rw (← e) (
              IsCoherent-claim chosen d r0
                (λ here.
                  fits r0 (selected-row now locked w.tables.rows limit s.distinct r0 m0 here))
                (s.coherent d r0 before m0))
      ];
      gated =
          map-IsGated (after_claim chosen) w.tables.rows
            (claim-IsGuarded now locked w.tables.rows limit s.distinct) s.gated;
      sent_stays = λ a r logged listed own success.
          let (r0, m0, e) = Memᴰ.of_map (after_claim chosen) w.tables.rows listed in
          let before =
            s.sent_stays a r0 logged m0
              (own ∙ ap (λ x. x.delivery.id) (sym e) ∙ after_claim-id chosen r0) success in
          elim (Bool-cases (contains (map row_id chosen) r0.delivery.id)) [
            | inl here ↦ absurd (
                claimable-unsent now locked w.tables.rows r0
                  (claimed-claimable now locked w.tables.rows limit r0 s.distinct m0 here) before)
            | inr other ↦ rw (← e) (rw (after_claim-other chosen r0 other) before)
          ];
    }

step-IsSound : {w w' : World} → Step w w' → IsSound w → IsSound w'
step-IsSound {w} (claim mint now locked limit h) s =
    let (rows, claimed, fits) =
      claim_next-returned mint now locked w.tables.rows limit s.distinct s.row_small h in
    rw (rows, claimed) (selected-IsSound now locked limit w s fits)
step-IsSound {w} (load id h) s = load-IsSound w id s h
step-IsSound {w} (succeed now d ids message actor request_id {t = t} m h) s =
    attempt-IsSound now w d _ t s m (success-IsNext d ids message actor request_id t h)
step-IsSound {w} (deliver now d ids actor request_id {t = t} m h) s =
    transition-IsSound now w d _ s m (delivered-IsNext d ids actor request_id t h)
step-IsSound {w} (fail now d ids retryable reason actor request_id {t = t} m h) s =
    attempt-IsSound now w d _ t s m (failure-IsNext d ids retryable reason actor request_id t h)

Reach-IsSound :
    {planned : List Row} {w : World}
    → IsSound (record { tables = record { rows = planned; attempts = [] }; held = [] })
    → Reach planned w
    → IsSound w
Reach-IsSound h start = h
Reach-IsSound h (later r step) = step-IsSound step (Reach-IsSound h r)

planned-IsSound :
    (planned : List Row)
    → Distinct (map row_id planned)
    → ((r : Row) → Memᴰ r planned → r.delivery.status ≡ DeliveryStatus.queued)
    → ((r : Row) → Memᴰ r planned → r.delivery.version < 18446744073709551616)
    → IsSound (record { tables = record { rows = planned; attempts = [] }; held = [] })
planned-IsSound planned distinct queued small = record {
  distinct = distinct;
  row_small = small;
  held_small = λ d m. elim m [ ];
  coherent = λ d r m n. elim m [ ];
  gated = λ a b m n lower moved. absurd (moved (queued b n));
  sent_stays = λ a r m n own success. elim m [ ];
}

-- What holds of every state that is reached from queued deliveries.
pub reached-IsSound :
    {planned : List Row} {w : World}
    → Distinct (map row_id planned)
    → ((r : Row) → Memᴰ r planned → r.delivery.status ≡ DeliveryStatus.queued)
    → ((r : Row) → Memᴰ r planned → r.delivery.version < 18446744073709551616)
    → Reach planned w
    → IsSound w
reached-IsSound {planned} distinct queued small r =
    Reach-IsSound (planned-IsSound planned distinct queued small) r

-- Whatever the workers and callbacks do to queued deliveries, in whatever order and with whatever
-- stale copies: a delivery has left the queue only if every delivery of a lower tier for the same
-- alert and consumer has failed permanently, so that no fallback is sent while its primary may
-- still succeed or has succeeded.
pub fallback_waits :
    {planned : List Row} {w : World} (a b : Row)
    → Distinct (map row_id planned)
    → ((r : Row) → Memᴰ r planned → r.delivery.status ≡ DeliveryStatus.queued)
    → ((r : Row) → Memᴰ r planned → r.delivery.version < 18446744073709551616)
    → Reach planned w
    → Memᴰ a w.tables.rows
    → Memᴰ b w.tables.rows
    → is_lower a.delivery b.delivery ≡ true
    → b.delivery.status ≢ DeliveryStatus.queued
    → a.delivery.status ≡ DeliveryStatus.failed_permanently
fallback_waits a b distinct queued small r = (reached-IsSound distinct queued small r).gated a b
