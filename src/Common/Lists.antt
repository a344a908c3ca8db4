-- ===== src/Common/Lists.antt =====
-- Lists: what `Vec` and the iterators of the source do, and predicates on all members.
use Prim.Native.Nat.{ℕ, zero, suc, ◌+◌}
use mathlib.Core.Path.{◌≡◌, refl, sym, ap}
use mathlib.Core.Logic.{◌↔◌, inl, inr}
use mathlib.Core.Bool.{Bool, true, false, false≢true, ◌&&◌, ◌||◌}
use mathlib.Core.Option.{Option, none, some}
use mathlib.Core.List.{List, [], ◌∷◌, ◌++◌, map, Memᴰ}
use native.Mathlib.Omega.{arith}
use safe_cameroon.Common.Tests.{
  Eq, ◌==◌, if◌then◌else◌, Bool-cases, beq_refl, beq_false_of_ne, ne_of_beq_false,
}

module _ {ℓ} {A : Type ℓ} where
  abbrev pub length : List A → ℕ
  length [] = 0
  length (x ∷ xs) = suc (length xs)

  abbrev pub take : ℕ → List A → List A
  take zero xs = []
  take (suc n) [] = []
  take (suc n) (x ∷ xs) = x ∷ take n xs

  abbrev pub is_empty : List A → Bool
  is_empty [] = true
  is_empty (x ∷ xs) = false

  -- `Iterator::any`, `all`, `find` and `filter`.
  abbrev pub any : (A → Bool) → List A → Bool
  any p [] = false
  any p (x ∷ xs) = p x || any p xs

  abbrev pub all : (A → Bool) → List A → Bool
  all p [] = true
  all p (x ∷ xs) = p x && all p xs

  abbrev pub find : (A → Bool) → List A → Option A
  find p [] = none
  find p (x ∷ xs) = if p x then some x else find p xs

  abbrev pub filter : (A → Bool) → List A → List A
  filter p [] = []
  filter p (x ∷ xs) = let rest = filter p xs in if p x then x ∷ rest else rest

  pub length-append : (xs ys : List A) → length (xs ++ ys) ≡ length xs + length ys
  length-append [] ys = omega arith
  length-append (x ∷ xs) ys = omega (arith, length-append xs ys)

pub length-map {ℓ κ} :
    {A : Type ℓ} {B : Type κ} (f : A → B) (xs : List A) → length (map f xs) ≡ length xs
length-map f [] = refl
length-map f (x ∷ xs) = ap suc (length-map f xs)

-- `Vec::contains`.
abbrev pub contains {ℓ} : {A : Type ℓ} ⦃e : Eq A⦄ → List A → A → Bool
contains [] a = false
contains (x ∷ xs) a = x == a || contains xs a

module _ {ℓ κ} {A : Type ℓ} where
  abbrev pub All : (A → Type κ) → List A → Type κ
  All Q [] = Unit
  All Q (a ∷ rest) = Q a × All Q rest

  pub All-mem : (P : A → Type κ) {x : A} {xs : List A} → Memᴰ x xs → All P xs → P x
  All-mem P (Memᴰ.head e) h = rw e h.0
  All-mem P (Memᴰ.tail m) h = All-mem P m h.1

  pub All-append :
      (Q : A → Type κ) (front back : List A) → All Q front → All Q back → All Q (front ++ back)
  All-append Q [] back _ later = later
  All-append Q (a ∷ front) back (here, rest) later = (here, All-append Q front back rest later)

-- The members of a list are pairwise different.
abbrev pub Distinct {ℓ} : {A : Type ℓ} ⦃e : Eq A⦄ → List A → Type 0
Distinct [] = Unit
Distinct (x ∷ xs) = (contains xs x ≡ false) × Distinct xs

module _ {ℓ} {A : Type ℓ} ⦃e : Eq A⦄ where
  pub contains-append :
      (xs ys : List A) (a : A) → contains (xs ++ ys) a ≡ (contains xs a || contains ys a)
  contains-append [] ys a = refl
  contains-append (x ∷ xs) ys a = ground (arith, contains-append xs ys a)

  pub contains_of_mem : {a : A} {xs : List A} → Memᴰ a xs → contains xs a ≡ true
  contains_of_mem (Memᴰ.head {x = x} p) = rw p (rw (beq_refl x))
  contains_of_mem (Memᴰ.tail m) = ground (arith, contains_of_mem m)

  pub mem_of_contains : (xs : List A) (a : A) → contains xs a ≡ true → Memᴰ a xs
  mem_of_contains [] a h = absurd (false≢true h)
  mem_of_contains (x ∷ xs) a h = elim (Bool-cases (x == a)) [
    | inl same ↦ Memᴰ.head (sym ((e.beq_iff x a).0 same))
    | inr other ↦ Memᴰ.tail (mem_of_contains xs a (rw other at h))
  ]

  pub beq_symm : (a b : A) → (a == b) ≡ false → (b == a) ≡ false
  beq_symm a b h = beq_false_of_ne b a (λ p. ne_of_beq_false a b h (sym p))

  pub Distinct-snoc :
      (xs : List A) (a : A) → Distinct xs → contains xs a ≡ false → Distinct (xs ++ (a ∷ []))
  Distinct-snoc [] a d h = (refl, tt)
  Distinct-snoc (x ∷ xs) a d h = (
    ground (arith, contains-append xs (a ∷ []) x, beq_symm x a, d.0),
    Distinct-snoc xs a d.1 (ground arith),
  )

module _ {ℓ} {A : Type ℓ} ⦃e : Eq A⦄ where
  pub Distinct-middle : (xs ys : List A) (a : A) → Distinct (xs ++ (a ∷ ys)) → contains xs a ≡ false
  Distinct-middle [] ys a d = refl
  Distinct-middle (x ∷ xs) ys a d =
      ground (arith, contains-append xs (a ∷ ys) x, beq_symm a x, Distinct-middle xs ys a d.1, d.0)

module _ {ℓ} {A : Type ℓ} where
  pub find-none_iff : (p : A → Bool) (xs : List A) → (find p xs ≡ none) ↔ All (λ x. p x ≡ false) xs
  find-none_iff p [] = (λ _. tt, λ _. refl)
  find-none_iff p (x ∷ xs) = ground (arith, find-none_iff p xs)

  pub find-some : (p : A → Bool) (xs : List A) {x : A} → find p xs ≡ some x → p x ≡ true
  find-some p [] h = cc
  find-some p (y ∷ xs) {x} h = ground (arith, find-some p xs {x = x})

  pub mem-find : (p : A → Bool) (xs : List A) {x : A} → find p xs ≡ some x → Memᴰ x xs
  mem-find p [] h = cc
  mem-find p (y ∷ xs) {x} h = elim (Bool-cases (p y)) [
    | inl same ↦ Memᴰ.head (sym (some-path (rw same at h)))
    | inr other ↦ Memᴰ.tail (mem-find p xs (rw other at h))
  ]
    where
      some-path : some y ≡ some x → y ≡ x
      some-path e = cc

pub any_sound {ℓ} :
    {A : Type ℓ} (p : A → Bool) (xs : List A) → any p xs ≡ true → (x : A) × Memᴰ x xs × (p x ≡ true)
any_sound p [] h = cc
any_sound p (x ∷ xs) h = elim (Bool-cases (p x)) [
  | inl here ↦ (x, Memᴰ.head refl, here)
  | inr there ↦
      let (y, listed, holds) = any_sound p xs (rw there at h) in (y, Memᴰ.tail listed, holds)
]

pub any_complete {ℓ} :
    {A : Type ℓ} (p : A → Bool) {x : A} {xs : List A} → Memᴰ x xs → p x ≡ true → any p xs ≡ true
any_complete p (Memᴰ.head e) h = rw (← e) (rw h)
any_complete p (Memᴰ.tail m) h = ground (arith, any_complete p m h)

-- Any two members, the earlier first, are related.
module _ {ℓ κ} {A : Type ℓ} where
  abbrev pub Pairwise : (A → A → Type κ) → List A → Type κ
  Pairwise R [] = Unit
  Pairwise R (x ∷ xs) = All (R x) xs × Pairwise R xs

  pub Pairwise-append :
      (R : A → A → Type κ) (xs ys : List A)
      → Pairwise R xs
      → Pairwise R ys
      → All (λ x. All (R x) ys) xs
      → Pairwise R (xs ++ ys)
  Pairwise-append R [] ys hx hy across = hy
  Pairwise-append R (x ∷ xs) ys hx hy across =
      (All-append (R x) xs ys hx.0 across.0, Pairwise-append R xs ys hx.1 hy across.1)

module _ {ℓ κ μ} {A : Type ℓ} where
  pub All-map :
      (P : A → Type κ) (Q : A → Type μ) (xs : List A) → ((x : A) → P x → Q x) → All P xs → All Q xs
  All-map P Q [] f h = tt
  All-map P Q (x ∷ xs) f h = (f x h.0, All-map P Q xs f h.1)

  pub All-and :
      (P : A → Type κ) (Q : A → Type μ) (xs : List A)
      → All P xs
      → All Q xs
      → All (λ x. P x × Q x) xs
  All-and P Q [] h k = tt
  All-and P Q (x ∷ xs) h k = ((h.0, k.0), All-and P Q xs h.1 k.1)

-- Relations carry over where every member has the property that this needs.
pub Pairwise-map {ℓ κ μ ν} :
    {A : Type ℓ} (P : A → Type κ) (R : A → A → Type μ) (S : A → A → Type ν) (xs : List A)
    → ((x y : A) → P x → P y → R x y → S x y)
    → All P xs
    → Pairwise R xs
    → Pairwise S xs
Pairwise-map P R S [] f h r = tt
Pairwise-map P R S (x ∷ xs) f h r = (
  All-map (λ y. P y × R x y) (S x) xs (λ y (p, q). f x y h.0 p q) (All-and P (R x) xs h.1 r.0),
  Pairwise-map P R S xs f h.1 r.1,
)
