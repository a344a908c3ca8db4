-- ===== src/Store/Deliveries/Claim/Soundness.antt =====
-- The invariant of interleaved claims, loads and reports over the `deliveries` table of
-- crates/infrastructure/src/postgres/deliveries.rs, and that loads and reports keep it.
use safe_cameroon.Common.{
  ℕ, ◌+◌, ◌<◌, ◌≤◌, ◌≡◌, ◌≢◌, refl, sym, ◌∙◌, ap, inl, inr, true, false, List, [], ◌∷◌, ◌++◌, map,
  filter, some, Memᴰ, All, All-mem, arith, Bool-cases, ℕ_eq, ◌==◌, mem_of_filter, u64, Distinct,
  subst, length, nat_eq,
}
use mathlib.Core.List.Memᴰ
use safe_cameroon.Domain.Ids.{DeliveryId}
use safe_cameroon.Domain.Delivery.{Delivery, DeliveryAttempt, DeliveryStatus}
use safe_cameroon.Domain.Delivery.Attempts.{is_send, sends}
use safe_cameroon.Store.Deliveries.{Row, advance_row, is_previous}
use safe_cameroon.Store.Deliveries.Claim.{find_by_id}
use safe_cameroon.Store.Deliveries.Claim.Claiming.{row_id, ids-advance}
use safe_cameroon.Store.Deliveries.Claim.Selection.{row_of_id}
use safe_cameroon.Store.Deliveries.Claim.Gating.{IsGated, map-IsGated, advance-IsGuarded}
use safe_cameroon.Store.Deliveries.Claim.Interleaving.{World}

-- A delivery in memory is the row's, or of an earlier version of it.
pub record IsCoherent (d : Delivery) (r : Row) : Type 0 where
  pub past : d.id ≡ r.delivery.id → d.version ≤ r.delivery.version
  pub current : d.id ≡ r.delivery.id → d.version ≡ r.delivery.version → d.status ≡ r.delivery.status

pub record IsSound (w : World) : Type 0 where
  pub distinct : Distinct (map row_id w.tables.rows)
  pub row_small : (r : Row) → Memᴰ r w.tables.rows → r.delivery.version < 18446744073709551616
  pub held_small : (d : Delivery) → Memᴰ d w.held → d.version < 18446744073709551616
  pub coherent : (d : Delivery) (r : Row) → Memᴰ d w.held → Memᴰ r w.tables.rows → IsCoherent d r
  pub gated : IsGated w.tables.rows
  pub sent_stays :
      (a : DeliveryAttempt) (r : Row)
      → Memᴰ a w.tables.attempts
      → Memᴰ r w.tables.rows
      → a.delivery_id ≡ r.delivery.id
      → is_send a.outcome ≡ 1
      → sends r.delivery.status ≡ 1

-- What a transition makes of a delivery that was being sent or was sent: its next version. A sent one
-- stays sent, and a success that it logs is its own.
pub record IsNext (d d' : Delivery) (log : List DeliveryAttempt) : Type 0 where
  pub same : d'.id ≡ d.id
  pub next : d'.version ≡ u64 (d.version + 1)
  pub left : d.status ≢ DeliveryStatus.queued
  pub open_still : d.status ≢ DeliveryStatus.failed_permanently
  pub stays : sends d.status ≡ 1 → sends d'.status ≡ 1
  pub own : All (λ a. (a.delivery_id ≡ d.id) × (is_send a.outcome ≡ 1 → sends d'.status ≡ 1)) log

IsCoherent-advance :
    (now : ℕ) (written d : Delivery) (r : Row)
    → IsCoherent d r
    → IsCoherent d (advance_row now written r)
unfolding advance_row
IsCoherent-advance now written d r h = elim (Bool-cases (is_previous written r)) [
  | inl here ↦
      let next : r.delivery.version + 1 ≡ written.version = ground arith in
      rw here (record {
        past = λ same. omega (arith, h.past same, next);
        current = λ same e. absurd (omega (arith, h.past same, next, e));
      })
  | inr away ↦ rw away h
]

advance-small :
    (now : ℕ) (written : Delivery) (r : Row)
    → written.version < 18446744073709551616
    → r.delivery.version < 18446744073709551616
    → (advance_row now written r).delivery.version < 18446744073709551616
unfolding advance_row
advance-small now written r h k = ground (arith, h, k)

advance_row-id :
    (now : ℕ) (d : Delivery) (r : Row) → (advance_row now d r).delivery.id ≡ r.delivery.id
unfolding advance_row
advance_row-id now d r = ground arith

-- The rows that a write of the next version of a held delivery meets have its status.
write-current :
    (w : World) (d d' : Delivery) (log : List DeliveryAttempt)
    → IsSound w
    → Memᴰ d w.held
    → IsNext d d' log
    → (r : Row) → Memᴰ r w.tables.rows
    → is_previous d' r ≡ true
    → d.status ≡ r.delivery.status
write-current w d d' log s m n r listed here =
    let same : d.id ≡ r.delivery.id = ground (arith, n.same) in
    let small = s.held_small d m in
    let now_version : d.version ≡ r.delivery.version = ground (arith, n.next) in
    (s.coherent d r m listed).current same now_version

write-under_way :
    (w : World) (d d' : Delivery) (log : List DeliveryAttempt)
    → IsSound w
    → Memᴰ d w.held
    → IsNext d d' log
    → (r : Row) → Memᴰ r w.tables.rows
    → is_previous d' r ≡ true
    → (r.delivery.status ≢ DeliveryStatus.queued)
      × (r.delivery.status ≢ DeliveryStatus.failed_permanently)
write-under_way w d d' log s m n r listed here =
    let status = write-current w d d' log s m n r listed here in
    (rw (← status) n.left, rw (← status) n.open_still)

advance_row-status :
    (now : ℕ) (d : Delivery) (r : Row)
    → is_previous d r ≡ true
    → (advance_row now d r).delivery.status ≡ d.status
unfolding advance_row
advance_row-status now d r h = rw h refl

advance_row-away :
    (now : ℕ) (d : Delivery) (r : Row) → is_previous d r ≡ false → advance_row now d r ≡ r
unfolding advance_row
advance_row-away now d r h = rw h refl

-- A row with a success stays sent, and the row that a success is written over becomes sent.
advanced-sent :
    (now : ℕ) (w : World) (d d' : Delivery) (log : List DeliveryAttempt) (s : IsSound w)
    (m : Memᴰ d w.held) (n : IsNext d d' log) (written : Row)
    → Memᴰ written w.tables.rows
    → is_previous d' written ≡ true
    → (a : DeliveryAttempt) (r : Row) → Memᴰ a (w.tables.attempts ++ log)
    → Memᴰ r w.tables.rows
    → a.delivery_id ≡ r.delivery.id
    → is_send a.outcome ≡ 1
    → sends (advance_row now d' r).delivery.status ≡ 1
advanced-sent now w d d' log s m n written there previous a r logged listed own success =
    elim (Memᴰ.append_cases w.tables.attempts logged) [
      | inl old ↦
          let before = s.sent_stays a r old listed own success in
          elim (Bool-cases (is_previous d' r)) [
            | inl here ↦
                rw (advance_row-status now d' r here)
                  (n.stays (rw (write-current w d d' log s m n r listed here) before))
            | inr away ↦ rw (advance_row-away now d' r away) before
          ]
      | inr new ↦
          let (of_d, ends) = All-mem _ new n.own in
          let same : written.delivery.id ≡ r.delivery.id = ground (arith, n.same, own, of_d) in
          let e = row_of_id w.tables.rows s.distinct there listed same in
          rw (advance_row-status now d' r (rw (← e) previous)) (ends success)
    ]

pub advanced-IsSound :
    (now : ℕ) (w : World) (d d' : Delivery) (log : List DeliveryAttempt) (written : Row)
    → IsSound w
    → Memᴰ d w.held
    → IsNext d d' log
    → Memᴰ written w.tables.rows
    → is_previous d' written ≡ true
    → IsSound (record {
      tables = record {
        rows = map (advance_row now d') w.tables.rows;
        attempts = w.tables.attempts ++ log;
      };
      held = w.held;
    })
advanced-IsSound now w d d' log written s m n there previous = record {
  distinct = subst (λ ids. Distinct ids) (sym (ids-advance now d' w.tables.rows)) s.distinct;
  row_small = λ r listed.
      let (r0, m0, e) = Memᴰ.of_map (advance_row now d') w.tables.rows listed in
      rw (← e) (advance-small now d' r0 (rw n.next (ground arith)) (s.row_small r0 m0));
  held_small = s.held_small;
  coherent = λ e r held listed.
      let (r0, m0, same) = Memᴰ.of_map (advance_row now d') w.tables.rows listed in
      rw (← same) (IsCoherent-advance now d' e r0 (s.coherent e r0 held m0));
  gated =
      map-IsGated (advance_row now d') w.tables.rows
        (advance-IsGuarded now d' w.tables.rows (write-under_way w d d' log s m n)) s.gated;
  sent_stays = λ a r logged listed own success.
      let (r0, m0, e) = Memᴰ.of_map (advance_row now d') w.tables.rows listed in
      rw (← e) (
        advanced-sent now w d d' log s m n written there previous a r0 logged m0
          (own ∙ ap (λ x. x.delivery.id) (sym e) ∙ advance_row-id now d' r0) success);
}

pub some_previous :
    (d : Delivery) (rows : List Row)
    → nat_eq (length (filter (is_previous d) rows)) 1 ≡ true
    → (r : Row) × Memᴰ r rows × (is_previous d r ≡ true)
some_previous d rows h =
    first (filter (is_previous d) rows) (λ r m. mem_of_filter (is_previous d) rows m) h
  where
    first :
        (found : List Row)
        → ((r : Row) → Memᴰ r found → Memᴰ r rows × (is_previous d r ≡ true))
        → nat_eq (length found) 1 ≡ true
        → (r : Row) × Memᴰ r rows × (is_previous d r ≡ true)
    first [] from one = cc
    first (r ∷ found) from one = let (m, here) = from r (Memᴰ.head refl) in (r, m, here)

pub found-row :
    (rows : List Row) (id : DeliveryId) {d : Delivery}
    → find_by_id rows id ≡ some d
    → (r : Row) × Memᴰ r rows × (r.delivery ≡ d)
unfolding find_by_id
found-row [] id h = cc
found-row (row ∷ rows) id {d} h = elim (Bool-cases (row.delivery.id == id)) [
  | inl here ↦ (row, Memᴰ.head refl, some-eq (rw here at h))
  | inr there ↦ let (r, m, e) = found-row rows id (rw there at h) in (r, Memᴰ.tail m, e)
]
  where
    some-eq : some row.delivery ≡ some d → row.delivery ≡ d
    some-eq e = cc

-- A delivery that equals a row of the table agrees with the table.
pub listed-IsCoherent :
    (rows : List Row) (r : Row)
    → Distinct (map row_id rows)
    → Memᴰ r rows
    → (other : Row) → Memᴰ other rows
    → IsCoherent r.delivery other
listed-IsCoherent rows r distinct m other n = record {
  past = λ same. let e = row_of_id rows distinct m n same in rw e (omega arith);
  current = λ same _. let e = row_of_id rows distinct m n same in rw e refl;
}

pub load-IsSound :
    (w : World) (id : DeliveryId) {d : Delivery}
    → IsSound w
    → find_by_id w.tables.rows id ≡ some d
    → IsSound (record { tables = w.tables; held = d ∷ w.held })
load-IsSound w id {d} s h =
    let (r, m, e) = found-row w.tables.rows id h in
    record {
      distinct = s.distinct;
      row_small = s.row_small;
      held_small = λ x held. elim (Memᴰ.cases_cons held) [
        | inl here ↦ rw (here, ← e) (s.row_small r m)
        | inr there ↦ s.held_small x there
      ];
      coherent = λ x other held listed. elim (Memᴰ.cases_cons held) [
        | inl here ↦ rw (here, ← e) (listed-IsCoherent w.tables.rows r s.distinct m other listed)
        | inr there ↦ s.coherent x other there listed
      ];
      gated = s.gated;
      sent_stays = s.sent_stays;
    }
