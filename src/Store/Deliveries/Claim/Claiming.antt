-- ===== src/Store/Deliveries/Claim/Claiming.antt =====
-- Proofs about `claim_next` of crates/infrastructure/src/postgres/deliveries.rs.
use safe_cameroon.Common.{
  ℕ, suc, ◌+◌, ◌<◌, ◌≡◌, refl, sym, ◌∙◌, ap, inl, inr, true, false, List, [], ◌∷◌, map, filter,
  length, Option, none, some, Memᴰ, All, arith, ℕ_eq, Distinct, contains, contains_of_mem, u32, u64,
  subst, ◌≢◌, ◌⊎◌,
}
use mathlib.Core.List.Memᴰ
use native.Mathlib.Decide.{ℕ_discrete}
use safe_cameroon.Domain.Ids.{Uuid, DeliveryId}
use safe_cameroon.Domain.Delivery.{Delivery, DeliveryStatus, start_attempt, may_start}
use safe_cameroon.Workflow.Delivery.{Minted, start_delivery_attempt}
use safe_cameroon.Store.Deliveries.{Row, is_previous, advance_row, advance_delivery}
use safe_cameroon.Store.Deliveries.Claim.{claim_each, claimed_first}

abbrev pub row_id : Row → DeliveryId
row_id row = row.delivery.id

advance_row-id :
    (now : ℕ) (d : Delivery) (row : Row) → (advance_row now d row).delivery.id ≡ row.delivery.id
unfolding advance_row
advance_row-id now d row = ground arith

-- Advancing a row keeps the identifiers of the table.
pub ids-advance :
    (now : ℕ) (d : Delivery) (rows : List Row)
    → map row_id (map (advance_row now d) rows) ≡ map row_id rows
ids-advance now d [] = refl
ids-advance now d (row ∷ rows) = rw (advance_row-id now d row, ids-advance now d rows) refl

-- A row of another identifier is not previous to the delivery.
none_previous :
    (d : Delivery) (rows : List Row)
    → contains (map row_id rows) d.id ≡ false
    → length (filter (is_previous d) rows) ≡ 0
none_previous d [] h = refl
none_previous d (row ∷ rows) h = ground (arith, none_previous d rows)

-- Identifiers are a key: one row at most is previous to a delivery, and one is.
pub one_previous :
    (d : Delivery) (rows : List Row) {row : Row}
    → Distinct (map row_id rows)
    → Memᴰ row rows
    → is_previous d row ≡ true
    → length (filter (is_previous d) rows) ≡ 1
one_previous d [] {row = row} distinct m here = elim m [ ]
one_previous d (r ∷ rows) {row} distinct (Memᴰ.head e) here =
    let fresh : contains (map row_id rows) d.id ≡ false = ground (arith, distinct.0, e) in
    rw (← e) (rw here (ap suc (none_previous d rows fresh)))
one_previous d (r ∷ rows) {row} distinct (Memᴰ.tail m) here =
    let listed = contains_of_mem (Memᴰ.map row_id m) in
    ground (arith, distinct.0, listed, one_previous d rows distinct.1 m here)

-- What a claimed row becomes.
unfoldable pub started : Row → Delivery
started row = record row.delivery {
  status = DeliveryStatus.sending;
  attempt_count = u32 (row.delivery.attempt_count + 1);
  version = u64 (row.delivery.version + 1);
}

unfoldable pub advance_all : ℕ → List Row → List Row → List Row
unfolding started
advance_all now rows [] = rows
advance_all now rows (row ∷ rest) = advance_all now (map (advance_row now (started row)) rows) rest

-- A row that a claim may start: it is in the table, waits, and its version has a successor.
pub record IsStartable (rows : List Row) (row : Row) : Type 0 where
  pub listed : Memᴰ row rows
  pub waits : may_start row.delivery.status ≡ true
  pub fits : row.delivery.version + 1 < 18446744073709551616

pub started-previous :
    (rows : List Row) (row : Row) → IsStartable rows row → is_previous (started row) row ≡ true
unfolding started
started-previous rows row h = ground (arith, h.fits)

pub advance_row-other :
    (now : ℕ) (row other : Row)
    → row.delivery.id ≢ other.delivery.id
    → advance_row now (started row) other ≡ other
unfolding advance_row started
advance_row-other now row other differ = ground arith

-- Starting one row leaves the others startable.
IsStartable-rest :
    (now : ℕ) (rows : List Row) (row : Row) (rest : List Row)
    → contains (map row_id rest) row.delivery.id ≡ false
    → All (IsStartable rows) rest
    → All (IsStartable (map (advance_row now (started row)) rows)) rest
IsStartable-rest now rows row [] fresh h = tt
IsStartable-rest now rows row (other ∷ rest) fresh h = (
  record {
    listed =
        Memᴰ.cast (sym (advance_row-other now row other (λ same. ground (arith, fresh))))
          (Memᴰ.map (advance_row now (started row)) h.0.listed);
    waits = h.0.waits;
    fits = h.0.fits;
  },
  IsStartable-rest now rows row rest (ground (arith, fresh)) h.1,
)

claim_each-step :
    (mint : ℕ → Minted × Uuid) (k now : ℕ) (rows : List Row) (row : Row) (rest : List Row)
    → may_start row.delivery.status ≡ true
    → length (filter (is_previous (started row)) rows) ≡ 1
    → claim_each mint k now rows (row ∷ rest)
      ≡ claimed_first
          (started row)
          (claim_each mint (k + 1) now (map (advance_row now (started row)) rows) rest)
unfolding claim_each start_delivery_attempt start_attempt advance_delivery started
claim_each-step mint k now rows row rest waits one = ground (arith, waits, one)

-- On startable rows no `expect` panics: every one of them is started and claimed.
pub claim_each_lem :
    (mint : ℕ → Minted × Uuid) (k now : ℕ) (rows chosen : List Row)
    → Distinct (map row_id rows)
    → Distinct (map row_id chosen)
    → All (IsStartable rows) chosen
    → claim_each mint k now rows chosen ≡ some (advance_all now rows chosen, map started chosen)
unfolding claim_each advance_all
claim_each_lem mint k now rows [] distinct apart h = refl
claim_each_lem mint k now rows (row ∷ rest) distinct apart h =
    let rows' = map (advance_row now (started row)) rows in
    let one = one_previous (started row) rows distinct h.0.listed (started-previous rows row h.0) in
    claim_each-step mint k now rows row rest h.0.waits one
    ∙ ap (claimed_first (started row)) (
        claim_each_lem mint (k + 1) now rows' rest
          (subst (λ ids. Distinct ids) (sym (ids-advance now (started row) rows)) distinct) apart.1
          (IsStartable-rest now rows row rest apart.0 h.1))

never_previous :
    (d : Delivery) (rows : List Row) → d.version ≡ 0 → length (filter (is_previous d) rows) ≡ 0
never_previous d [] h = refl
never_previous d (row ∷ rows) h = ground (arith, never_previous d rows h)

claim_each-panics :
    (mint : ℕ → Minted × Uuid) (k now : ℕ) (rows : List Row) (row : Row) (rest : List Row)
    → may_start row.delivery.status ≡ true
    → length (filter (is_previous (started row)) rows) ≢ 1
    → claim_each mint k now rows (row ∷ rest) ≡ none
unfolding claim_each start_delivery_attempt start_attempt advance_delivery started
claim_each-panics mint k now rows row rest waits other = ground (arith, waits, other)

wraps-panics :
    (mint : ℕ → Minted × Uuid) (k now : ℕ) (rows : List Row) (row : Row) (rest : List Row)
    → may_start row.delivery.status ≡ true
    → row.delivery.version ≡ 18446744073709551615
    → claim_each mint k now rows (row ∷ rest) ≡ none
unfolding started
wraps-panics mint k now rows row rest waits last =
    claim_each-panics mint k now rows row rest waits
      (λ one. omega (arith, one, never_previous (started row) rows (ground arith)))

-- A claim that returns has met no row whose version has no successor.
pub claim_each-fits :
    (mint : ℕ → Minted × Uuid) (k now : ℕ) (rows chosen : List Row)
    {result : List Row × List Delivery}
    → All (λ row. may_start row.delivery.status ≡ true) chosen
    → claim_each mint k now rows chosen ≡ some result
    → All (λ row. row.delivery.version ≢ 18446744073709551615) chosen
claim_each-fits mint k now rows [] waits h = tt
claim_each-fits mint k now rows (row ∷ rest) {result} waits h =
    elim (nat_cases (length (filter (is_previous (started row)) rows))) [
      | inl one ↦
          let step = claim_each-step mint k now rows row rest waits.0 one in
          let (y, inner) = claimed_first-some (started row) _ (sym step ∙ h) in
          (
            λ last. cc (wraps-panics mint k now rows row rest waits.0 last, h),
            claim_each-fits mint (k + 1) now _ rest waits.1 inner,
          )
      | inr other ↦ absurd (cc (claim_each-panics mint k now rows row rest waits.0 other, h))
    ]
  where
    nat_cases : (n : ℕ) → (n ≡ 1) ⊎ (n ≢ 1)
    nat_cases n = elim (ℕ_discrete n 1) [ yes e ↦ inl e | no ne ↦ inr ne ]

    claimed_first-some :
        (d : Delivery) (o : Option (List Row × List Delivery)) {x : List Row × List Delivery}
        → claimed_first d o ≡ some x
        → (y : List Row × List Delivery) × (o ≡ some y)
    claimed_first-some d none e = cc
    claimed_first-some d (some y) e = (y, refl)
