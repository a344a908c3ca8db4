-- ===== src/Store/Deliveries/Locking.antt =====
-- Proofs about `apply_transition` of crates/infrastructure/src/postgres/deliveries.rs.
use safe_cameroon.Common.{
  ℕ, ◌≡◌, refl, inl, inr, false, List, [], ◌∷◌, map, length, filter, arith, Bool-cases, ℕ_eq,
}
use safe_cameroon.Domain.Delivery.{Delivery}
use safe_cameroon.Store.Deliveries.{
  Row, is_previous, advance_row, advance_delivery, apply_transition, applied, conflict,
}

-- No row that was advanced, or was not to be, is previous to a delivery of the same version.
not_previous :
    (now : ℕ) (row : Row) (first second : Delivery)
    → first.id ≡ second.id
    → first.version ≡ second.version
    → is_previous second (advance_row now first row) ≡ false
unfolding advance_row
not_previous now row first second ids versions = elim (Bool-cases (is_previous first row)) [
  | inl here ↦ rw here (ground arith)
  | inr away ↦ rw away (ground arith)
]

none_previous :
    (now : ℕ) (rows : List Row) (first second : Delivery)
    → first.id ≡ second.id
    → first.version ≡ second.version
    → length (filter (is_previous second) (map (advance_row now first) rows)) ≡ 0
none_previous now [] first second ids versions = refl
none_previous now (row ∷ rows) first second ids versions =
    rw (not_previous now row first second ids versions)
      (none_previous now rows first second ids versions)

-- Two workers that loaded the same version of a delivery cannot both write: once one transition is
-- applied, the other is a conflict and changes no row.
pub apply_transition_once :
    (now later : ℕ) (rows : List Row) (first second : Delivery)
    → first.id ≡ second.id
    → first.version ≡ second.version
    → (apply_transition now rows first).1 ≡ applied
    → apply_transition later (apply_transition now rows first).0 second
      ≡ ((apply_transition now rows first).0, conflict)
unfolding apply_transition advance_delivery
apply_transition_once now later rows first second ids versions h =
    ground (arith, none_previous now rows first second ids versions)
