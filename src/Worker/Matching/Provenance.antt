-- ===== src/Worker/Matching/Provenance.antt =====
-- Proofs about where the rows come from that apps/worker/src/subscription_matching.rs plans.
use safe_cameroon.Common.{
  ℕ, ◌+◌, ◌≡◌, ◌⊎◌, refl, sym, ◌∙◌, ap, true, inl, inr, List, [], ◌∷◌, map, Option, none, some,
  Result-cases, ok, Memᴰ, contains, Bool-cases, Option-cases, any, arith, ◌==◌, ℕ_eq, List_eq,
  nat_eq_iff, beq_refl, String,
}
use mathlib.Core.List.Memᴰ
use safe_cameroon.Domain.Ids.{ConsumerId, Uuid, AuditEventId, OutboxEventId}
use safe_cameroon.Domain.Delivery.{ChannelType, Delivery, DeliveryEvent, DeliveryPreference}
use safe_cameroon.Domain.Delivery.Due.{due, due-skip, due-join}
use safe_cameroon.Domain.Delivery.{idempotency_key_new}
use safe_cameroon.Domain.Subscription.{ConsumerMatch}
use safe_cameroon.Domain.Subscription.Grouping.{consumers}
use safe_cameroon.Workflow.Case.{Actor}
use safe_cameroon.Workflow.Delivery.{PlannedDelivery, planned_from}
use safe_cameroon.Store.Deliveries.{Row, insert_delivery}
use safe_cameroon.Worker.Matching.Preferred.{preference_of-other}
use safe_cameroon.Worker.Matching.{
  Environment, Preferences, preference_of, insert_found, find_preferences, create_until,
}

-- A row that stands for a planned delivery.
abbrev IsRowOf : PlannedDelivery → Row → Type 0
IsRowOf item r = (r.delivery ≡ item.delivery) × (r.idempotency_key_hash ≡ item.idempotency_key_hash)

-- The row's key is made of what it delivers, and it is filed under the digest of its key.
pub record IsKeyed (sha256 : String → List ℕ) (uuid_text : Uuid → String) (r : Row) : Type 0 where
  pub keyed :
      r.delivery.idempotency_key
      ≡ idempotency_key_new uuid_text r.delivery.consumer_id r.delivery.alert_id r.delivery.channel
          r.delivery.endpoint_address
  pub filed : r.idempotency_key_hash ≡ sha256 r.delivery.idempotency_key.as_str

-- A row is an old one or stands for a planned delivery.
insert_delivery-from :
    (rows : List Row) (item : PlannedDelivery) {r : Row}
    → Memᴰ r (insert_delivery rows item).0
    → Memᴰ r rows ⊎ IsRowOf item r
unfolding insert_delivery
insert_delivery-from rows item {r} m =
    elim (Bool-cases (any (λ row. row.idempotency_key_hash == item.idempotency_key_hash) rows)) [
      | inl old ↦ inl (rw old at m)
      | inr new ↦ elim (Memᴰ.append_cases rows (rw new at m)) [
        | inl before ↦ inl before
        | inr last ↦
            let same = Memᴰ.eq_of_singleton last in
            inr (ap (λ x. x.delivery) same, ap (λ x. x.idempotency_key_hash) same)
      ]
    ]

inserted-found :
    {SqlxError : Type 0} (env : Environment SqlxError) (k : ℕ) (ms : List ConsumerMatch)
    (c key : ConsumerId) (found : Option DeliveryPreference) (rest : Preferences)
    {p : DeliveryPreference}
    → (key == c) ≡ true
    → env.find_by_consumer k key ≡ ok found
    → preference_of (insert_found key found rest) c ≡ some p
    → (preference_of rest c ≡ some p → env.find_by_consumer k c ≡ ok (some p))
    → env.find_by_consumer k c ≡ ok (some p)
unfolding preference_of
inserted-found env k ms c key none rest own asked here later = later here
inserted-found env k ms c key (some q) rest {p} own asked here later =
    let same : key ≡ c = (nat_eq_iff key c).0 own in
    let equal : some q ≡ some p = rw own at here in
    ap (env.find_by_consumer k) (sym same) ∙ asked ∙ ap (λ o. ok o) equal

-- The preference that the map has is the one that the table answered.
pub find_preferences-found :
    {SqlxError : Type 0} (env : Environment SqlxError) (k : ℕ) (ms : List ConsumerMatch)
    {ps : Preferences} (c : ConsumerId) {p : DeliveryPreference}
    → find_preferences env k ms ≡ ok ps
    → preference_of ps c ≡ some p
    → env.find_by_consumer k c ≡ ok (some p)
unfolding find_preferences preference_of
find_preferences-found env k [] {ps} c {p} h found =
    let none_there : ps ≡ [] = cc in absurd (cc (ap (λ x. preference_of x c) none_there, found))
find_preferences-found env k (m ∷ ms) {ps} c {p} h found =
    elim (Result-cases (env.find_by_consumer k m.consumer_id)) [
      | inr (e, failed) ↦ absurd (ground (arith, h, failed))
      | inl (x, asked) ↦ elim (Result-cases (find_preferences env k ms)) [
        | inr (e, failed) ↦ absurd (ground (arith, h, failed, asked))
        | inl (rest, collected) ↦
            let made : ps ≡ insert_found m.consumer_id x rest =
              ground (arith, h, collected, asked) in
            let here : preference_of (insert_found m.consumer_id x rest) c ≡ some p =
              rw (← made) found in
            elim (Bool-cases (m.consumer_id == c)) [
              | inr other ↦
                  find_preferences-found env k ms c collected
                    (sym (preference_of-other c m.consumer_id x rest other) ∙ here)
              | inl own ↦
                  inserted-found env k ms c m.consumer_id x rest own asked here
                    (λ later. find_preferences-found env k ms c collected later)
            ]
      ]
    ]

pub due-from :
    (ms : List ConsumerMatch) (preferences : ConsumerId → Option DeliveryPreference)
    {t : ConsumerId × ChannelType × String}
    → Memᴰ t (due ms preferences)
    → (contains (consumers ms) t.0 ≡ true)
      × ((p : DeliveryPreference) × (preferences t.0 ≡ some p)
          × Memᴰ {A = ChannelType × String}
              (t.1, t.2)
              (map (λ e. (e.channel, e.address)) p.channels))
due-from [] preferences {t = t} m = elim m [ ]
due-from (d ∷ ms) preferences {t} m = elim (Option-cases (preferences d.consumer_id)) [
  | inl nothing ↦
      let (listed, rest) = due-from ms preferences (rw (due-skip d ms preferences nothing) at m) in
      (ground (arith, listed), rest)
  | inr (q, one) ↦ elim (Memᴰ.append_cases _ (rw (due-join d ms preferences q one) at m)) [
    | inl here ↦
        let (e, n, same) =
          Memᴰ.of_map (λ e. (d.consumer_id, e.channel, e.address)) q.channels here in
        rw (← same) (
          ground (arith, beq_refl d.consumer_id),
          (q, one, Memᴰ.map (λ e. (e.channel, e.address)) n),
        )
    | inr later ↦
        let (listed, rest) = due-from ms preferences later in (ground (arith, listed), rest)
  ]
]

pub planned_from-from :
    (sha256 : String → List ℕ) (mint : ℕ → AuditEventId × OutboxEventId) (actor : Actor)
    (request_id : Uuid) (k : ℕ) (ps : List (Delivery × DeliveryEvent)) {item : PlannedDelivery}
    → Memᴰ item (planned_from sha256 mint actor request_id k ps)
    → (p : Delivery × DeliveryEvent) × Memᴰ p ps
      × (item.delivery ≡ p.0)
      × (item.idempotency_key_hash ≡ sha256 p.0.idempotency_key.as_str)
unfolding planned_from
planned_from-from sha256 mint actor request_id k [] {item = item} m = elim m [ ]
planned_from-from sha256 mint actor request_id k (q ∷ ps) (Memᴰ.head e) =
    (q, Memᴰ.head refl, ap (λ x. x.delivery) e, ap (λ x. x.idempotency_key_hash) e)
planned_from-from sha256 mint actor request_id k (q ∷ ps) (Memᴰ.tail m) =
    let (p, listed, same, filed) = planned_from-from sha256 mint actor request_id (k + 1) ps m in
    (p, Memᴰ.tail listed, same, filed)

pub create_until-from :
    {SqlxError : Type 0} (env : Environment SqlxError) (k j : ℕ) (rows : List Row)
    (items : List PlannedDelivery) {r : Row}
    → Memᴰ r (create_until env k j rows items).0
    → Memᴰ r rows ⊎ ((item : PlannedDelivery) × Memᴰ item items × IsRowOf item r)
unfolding create_until
create_until-from env k j rows [] m = inl m
create_until-from env k j rows (item ∷ items) {r} m = elim (Option-cases (env.commit_error k j)) [
  | inr (e, failed) ↦ inl (rw (create_until, failed) at m)
  | inl fine ↦
      let after = (insert_delivery rows item).0 in
      let later : Memᴰ r (create_until env k (j + 1) after items).0 =
        rw (create_until, fine) at m in
      elim (create_until-from env k (j + 1) after items later) [
        | inr (x, listed, same) ↦ inr (x, Memᴰ.tail listed, same)
        | inl there ↦ elim (insert_delivery-from rows item there) [
          | inl before ↦ inl before
          | inr same ↦ inr (item, Memᴰ.head refl, same)
        ]
      ]
]
