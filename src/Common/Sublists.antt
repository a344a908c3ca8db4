-- ===== src/Common/Sublists.antt =====
-- Lists: members and keys of what `filter` and `take` leave.
use Prim.Native.Nat.{ℕ, zero, suc}
use mathlib.Core.Path.{◌≡◌, refl}
use mathlib.Core.Logic.{inl, inr}
use mathlib.Core.Bool.{Bool, true, false}
use mathlib.Core.List.{List, [], ◌∷◌, map, Memᴰ}
use mathlib.Core.List.Memᴰ
use native.Mathlib.Omega.{arith}
use safe_cameroon.Common.Tests.{Eq, Bool-cases}
use safe_cameroon.Common.Lists.{All, filter, take, contains, Distinct, any}

module _ {ℓ} {A : Type ℓ} where
  pub mem_of_filter :
      (p : A → Bool) (xs : List A) {x : A} → Memᴰ x (filter p xs) → Memᴰ x xs × (p x ≡ true)
  mem_of_filter p [] m = elim m [ ]
  mem_of_filter p (y ∷ xs) {x} m = elim (Bool-cases (p y)) [
    | inl kept ↦ elim (Memᴰ.cases_cons (rw kept at m)) [
      | inl e ↦ (Memᴰ.head e, rw e kept)
      | inr n ↦ let (n', h) = mem_of_filter p xs n in (Memᴰ.tail n', h)
    ]
    | inr dropped ↦ let (n, h) = mem_of_filter p xs (rw dropped at m) in (Memᴰ.tail n, h)
  ]

  pub mem_of_take : (n : ℕ) (xs : List A) {x : A} → Memᴰ x (take n xs) → Memᴰ x xs
  mem_of_take zero xs {x = x} m = elim m [ ]
  mem_of_take (suc n) [] {x = x} m = elim m [ ]
  mem_of_take (suc n) (y ∷ xs) (Memᴰ.head e) = Memᴰ.head e
  mem_of_take (suc n) (y ∷ xs) (Memᴰ.tail m) = Memᴰ.tail (mem_of_take n xs m)

  pub mem_filter :
      (p : A → Bool) {x : A} {xs : List A} → Memᴰ x xs → p x ≡ true → Memᴰ x (filter p xs)
  mem_filter p {x = x} {xs = []} m h = elim m [ ]
  mem_filter p {x} {xs = y ∷ xs} (Memᴰ.head e) h = rw (← e) (rw h (Memᴰ.head refl))
  mem_filter p {x} {xs = y ∷ xs} (Memᴰ.tail m) h = elim (Bool-cases (p y)) [
    | inl kept ↦ rw kept (Memᴰ.tail (mem_filter p m h))
    | inr dropped ↦ rw dropped (mem_filter p m h)
  ]

  -- What holds of every member of a list, given as a function of membership.
  pub All-members {κ} : {P : A → Type κ} (xs : List A) → ((x : A) → Memᴰ x xs → P x) → All P xs
  All-members [] f = tt
  All-members (x ∷ xs) f = (f x (Memᴰ.head refl), All-members xs (λ y m. f y (Memᴰ.tail m)))

  pub any-none : (p : A → Bool) {x : A} {xs : List A} → any p xs ≡ false → Memᴰ x xs → p x ≡ false
  any-none p h (Memᴰ.head {x = y} e) = rw e (ground arith)
  any-none p h (Memᴰ.tail {x = y} {xs = ys} m) = any-none p (ground arith) m

module _ {ℓ κ} {A : Type ℓ} {B : Type κ} where
  pub map_of_mem :
      (f g : A → B) (xs : List A) → ((x : A) → Memᴰ x xs → f x ≡ g x) → map f xs ≡ map g xs
  map_of_mem f g [] h = refl
  map_of_mem f g (x ∷ xs) h =
      rw (h x (Memᴰ.head refl), map_of_mem f g xs (λ y m. h y (Memᴰ.tail m))) refl

module _ {ℓ κ} {A : Type ℓ} {K : Type κ} ⦃e : Eq K⦄ (key : A → K) where
  filter-fresh :
      (p : A → Bool) (xs : List A) (k : K)
      → contains (map key xs) k ≡ false
      → contains (map key (filter p xs)) k ≡ false
  filter-fresh p [] k h = refl
  filter-fresh p (x ∷ xs) k h = elim (Bool-cases (p x)) [
    | inl kept ↦ rw kept (ground (arith, filter-fresh p xs k))
    | inr dropped ↦ rw dropped (filter-fresh p xs k (ground arith))
  ]

  pub Distinct-filter :
      (p : A → Bool) (xs : List A) → Distinct (map key xs) → Distinct (map key (filter p xs))
  Distinct-filter p [] d = tt
  Distinct-filter p (x ∷ xs) d = elim (Bool-cases (p x)) [
    | inl kept ↦ rw kept (filter-fresh p xs (key x) d.0, Distinct-filter p xs d.1)
    | inr dropped ↦ rw dropped (Distinct-filter p xs d.1)
  ]

  take-fresh :
      (n : ℕ) (xs : List A) (k : K)
      → contains (map key xs) k ≡ false
      → contains (map key (take n xs)) k ≡ false
  take-fresh zero xs k h = refl
  take-fresh (suc n) [] k h = refl
  take-fresh (suc n) (x ∷ xs) k h = ground (arith, take-fresh n xs k)

  pub Distinct-take : (n : ℕ) (xs : List A) → Distinct (map key xs) → Distinct (map key (take n xs))
  Distinct-take zero xs d = tt
  Distinct-take (suc n) [] d = tt
  Distinct-take (suc n) (x ∷ xs) d = (take-fresh n xs (key x) d.0, Distinct-take n xs d.1)
