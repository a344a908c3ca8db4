-- ===== src/Store/Deliveries/Idempotence.antt =====
-- Proofs about `create_planned` of crates/infrastructure/src/postgres/deliveries.rs.
use safe_cameroon.Common.{
  ℕ, ◌≡◌, refl, sym, ◌∙◌, ap, inl, inr, true, false, ◌||◌, List, [], ◌∷◌, ◌++◌, any, none, arith,
  Bool-cases, map, map-append, contains, Distinct, Distinct-snoc, contains-append, ◌==◌, List_eq,
  ℕ_eq, beq_refl, subst, All,
}
use safe_cameroon.Workflow.Delivery.{PlannedDelivery}
use safe_cameroon.Store.Deliveries.{Row, insert_delivery, create_planned}

abbrev pub hashes : List Row → List (List ℕ)
hashes = map (λ row. row.idempotency_key_hash)

hashes-find :
    (rows : List Row) (h : List ℕ)
    → any (λ row. row.idempotency_key_hash == h) rows ≡ contains (hashes rows) h
hashes-find [] h = refl
hashes-find (row ∷ rows) h = ap (λ b. (row.idempotency_key_hash == h) || b) (hashes-find rows h)

abbrev pub hash_of : PlannedDelivery → List ℕ
hash_of item = item.idempotency_key_hash

abbrev row_of : PlannedDelivery → Row
row_of item = record {
  delivery = item.delivery;
  idempotency_key_hash = item.idempotency_key_hash;
  next_attempt_at = none;
}

insert_delivery-old :
    (rows : List Row) (item : PlannedDelivery)
    → contains (hashes rows) (hash_of item) ≡ true
    → (insert_delivery rows item).0 ≡ rows
unfolding insert_delivery
insert_delivery-old rows item h = rw (hashes-find rows (hash_of item), h) refl

insert_delivery-new :
    (rows : List Row) (item : PlannedDelivery)
    → contains (hashes rows) (hash_of item) ≡ false
    → (insert_delivery rows item).0 ≡ rows ++ (row_of item ∷ [])
unfolding insert_delivery
insert_delivery-new rows item h = rw (hashes-find rows (hash_of item), h) refl

-- What holds of the rows, and of the rows with a new one at the end, holds after an insertion.
after_insert :
    (P : List Row → Type 0) (rows : List Row) (item : PlannedDelivery)
    → (contains (hashes rows) (hash_of item) ≡ true → P rows)
    → (contains (hashes rows) (hash_of item) ≡ false → P (rows ++ (row_of item ∷ [])))
    → P (insert_delivery rows item).0
after_insert P rows item old new = elim (Bool-cases (contains (hashes rows) (hash_of item))) [
  | inl h ↦ subst P (sym (insert_delivery-old rows item h)) (old h)
  | inr h ↦ subst P (sym (insert_delivery-new rows item h)) (new h)
]

contains-snoc :
    (rows : List Row) (item : PlannedDelivery) (h : List ℕ)
    → contains (hashes (rows ++ (row_of item ∷ []))) h
      ≡ (contains (hashes rows) h || (hash_of item == h || false))
contains-snoc rows item h =
    ap (λ hs. contains hs h) (map-append (λ row. row.idempotency_key_hash) rows (row_of item ∷ []))
    ∙ contains-append (hashes rows) (hash_of item ∷ []) h

insert_delivery-kept :
    (rows : List Row) (item : PlannedDelivery) (h : List ℕ)
    → contains (hashes rows) h ≡ true
    → contains (hashes (insert_delivery rows item).0) h ≡ true
insert_delivery-kept rows item h k =
    after_insert (λ rows'. contains (hashes rows') h ≡ true) rows item (λ _. k)
      (λ _. contains-snoc rows item h ∙ ground arith)

insert_delivery-there :
    (rows : List Row) (item : PlannedDelivery)
    → contains (hashes (insert_delivery rows item).0) (hash_of item) ≡ true
insert_delivery-there rows item =
    after_insert (λ rows'. contains (hashes rows') (hash_of item) ≡ true) rows item (λ k. k)
      (λ _. contains-snoc rows item (hash_of item) ∙ ground (arith, beq_refl (hash_of item)))

create_planned-kept :
    (items : List PlannedDelivery) (rows : List Row) (h : List ℕ)
    → contains (hashes rows) h ≡ true
    → contains (hashes (create_planned rows items)) h ≡ true
unfolding create_planned
create_planned-kept [] rows h k = k
create_planned-kept (item ∷ items) rows h k =
    create_planned-kept items (insert_delivery rows item).0 h (insert_delivery-kept rows item h k)

pub create_planned-there :
    (items : List PlannedDelivery) (rows : List Row)
    → All (λ h. contains (hashes (create_planned rows items)) h ≡ true) (map hash_of items)
unfolding create_planned
create_planned-there [] rows = tt
create_planned-there (item ∷ items) rows = (
  create_planned-kept items (insert_delivery rows item).0 (hash_of item)
      (insert_delivery-there rows item),
  create_planned-there items (insert_delivery rows item).0,
)

create_planned-nothing :
    (items : List PlannedDelivery) (rows : List Row)
    → All (λ h. contains (hashes rows) h ≡ true) (map hash_of items)
    → create_planned rows items ≡ rows
unfolding create_planned
create_planned-nothing [] rows h = refl
create_planned-nothing (item ∷ items) rows h =
    ap (λ rows'. create_planned rows' items) (insert_delivery-old rows item h.0)
    ∙ create_planned-nothing items rows h.1

-- Planning again for the same keys, with whatever fresh identifiers, changes no row and adds none.
pub create_planned_idem :
    (rows : List Row) (items again : List PlannedDelivery)
    → map (λ item. item.idempotency_key_hash) again ≡ map (λ item. item.idempotency_key_hash) items
    → create_planned (create_planned rows items) again ≡ create_planned rows items
create_planned_idem rows items again same =
    create_planned-nothing again (create_planned rows items) (
      subst (λ hs. All (λ h. contains (hashes (create_planned rows items)) h ≡ true) hs) (sym same)
        (create_planned-there items rows))

-- When the keys of the rows are pairwise different, they still are after planning more deliveries.
pub create_planned-Distinct :
    (items : List PlannedDelivery) (rows : List Row)
    → Distinct (hashes rows)
    → Distinct (hashes (create_planned rows items))
unfolding create_planned
create_planned-Distinct [] rows d = d
create_planned-Distinct (item ∷ items) rows d =
    create_planned-Distinct items (insert_delivery rows item).0 (
      after_insert (λ rows'. Distinct (hashes rows')) rows item (λ _. d)
        (λ new.
          subst (λ hs. Distinct hs)
            (sym (map-append (λ row. row.idempotency_key_hash) rows (row_of item ∷ [])))
            (Distinct-snoc (hashes rows) (hash_of item) d new)))
