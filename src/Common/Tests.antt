-- ===== src/Common/Tests.antt =====
-- Boolean tests on the native numbers, the conditional, and equality as an interface.
use Prim.Native.Nat.{ℕ, compare, Ordering}
use Prim.Native.String.{String}
use mathlib.Core.Path.{◌≡◌, refl, ap₂}
use mathlib.Core.Logic.{◌≢◌, ◌↔◌, ◌⊎◌, inl, inr}
use mathlib.Core.Bool.{Bool, true, false, ◌&&◌}
use mathlib.Core.Option.{Option, none, some}
use mathlib.Core.List.{List, [], ◌∷◌}
use native.Mathlib.Omega.{arith}
use text.Mathlib.Text.{◌==◌ as str_eq}
use text.Mathlib.TextEquality.{eq_iff}

-- These compute to `compare`, which `ground` and `grind` read with no lemma listed.
abbrev pub ltb : ℕ → ℕ → Bool
ltb a b = elim (compare a b) [ Ordering.lt ↦ true | _ ↦ false ]

abbrev pub leb : ℕ → ℕ → Bool
leb a b = elim (compare a b) [ Ordering.gt ↦ false | _ ↦ true ]

abbrev pub nat_eq : ℕ → ℕ → Bool
nat_eq a b = elim (compare a b) [ Ordering.eq ↦ true | _ ↦ false ]

infix 1 if◌then◌else◌
abbrev pub if◌then◌else◌ {ℓ} : {A : Type ℓ} → Bool → A → A → A
if true then x else y = x
if false then x else y = y

-- To split on a computed value and keep the equation.
pub Bool-cases : (b : Bool) → (b ≡ true) ⊎ (b ≡ false)
Bool-cases true = inl refl
Bool-cases false = inr refl

pub Option-cases {ℓ} : {A : Type ℓ} (o : Option A) → (o ≡ none) ⊎ ((a : A) × (o ≡ some a))
Option-cases none = inl refl
Option-cases (some a) = inr (a, refl)

pub nat_eq_iff : (a b : ℕ) → (nat_eq a b ≡ true) ↔ (a ≡ b)
nat_eq_iff a b = ground arith

-- `PartialEq`: a Boolean test that decides equality.
pub record Eq {ℓ} (A : Type ℓ) : Type ℓ where
  pub beq : A → A → Bool
  pub beq_iff : (x y : A) → (beq x y ≡ true) ↔ (x ≡ y)

infix 50 ◌==◌
abbrev pub ◌==◌ {ℓ} : {A : Type ℓ} ⦃eq : Eq A⦄ → A → A → Bool
◌==◌ ⦃eq⦄ a b = eq.beq a b

instance abbrev pub ℕ_eq : Eq ℕ
ℕ_eq = record { beq = nat_eq; beq_iff = nat_eq_iff }

instance abbrev pub String_eq : Eq String
String_eq = record { beq = str_eq; beq_iff = eq_iff }

-- The derived equality of a type whose equality is decided.
abbrev pub beq_of {ℓ} : {A : Type ℓ} → Discrete A → A → A → Bool
beq_of d a b = elim (d a b) [ yes _ ↦ true | no _ ↦ false ]

eq_of_beq_of {ℓ} : {A : Type ℓ} (d : Discrete A) (a b : A) → beq_of d a b ≡ true → a ≡ b
eq_of_beq_of d a b h = ground arith

beq_of_eq {ℓ} : {A : Type ℓ} (d : Discrete A) (a b : A) → a ≡ b → beq_of d a b ≡ true
beq_of_eq d a b e = ground arith

pub beq_of_iff {ℓ} : {A : Type ℓ} (d : Discrete A) (a b : A) → (beq_of d a b ≡ true) ↔ (a ≡ b)
beq_of_iff d a b = (eq_of_beq_of d a b, beq_of_eq d a b)

abbrev pub eq_of {ℓ} : {A : Type ℓ} → Discrete A → Eq A
eq_of d = record { beq = beq_of d; beq_iff = beq_of_iff d }

-- `PartialEq` of `Option`.
abbrev pub option_beq {ℓ} : {A : Type ℓ} ⦃e : Eq A⦄ → Option A → Option A → Bool
option_beq none none = true
option_beq none (some b) = false
option_beq (some a) none = false
option_beq (some a) (some b) = a == b

pub option_beq_iff {ℓ} :
    {A : Type ℓ} ⦃e : Eq A⦄ (a b : Option A) → (option_beq a b ≡ true) ↔ (a ≡ b)
option_beq_iff none none = (λ _. refl, λ _. refl)
option_beq_iff none (some b) = (λ h. cc, λ h. cc)
option_beq_iff (some a) none = (λ h. cc, λ h. cc)
option_beq_iff ⦃e⦄ (some a) (some b) = (λ h. cc ((e.beq_iff a b).0 h), λ h. (e.beq_iff a b).1 (cc))

instance abbrev pub Option_eq {ℓ} : {A : Type ℓ} ⦃e : Eq A⦄ → Eq (Option A)
Option_eq = record { beq = option_beq; beq_iff = option_beq_iff }

abbrev pub list_beq {ℓ} : {A : Type ℓ} ⦃e : Eq A⦄ → List A → List A → Bool
list_beq [] [] = true
list_beq [] (b ∷ bs) = false
list_beq (a ∷ rest) [] = false
list_beq (a ∷ rest) (b ∷ bs) = a == b && list_beq rest bs

pub list_beq_iff {ℓ} : {A : Type ℓ} ⦃e : Eq A⦄ (a b : List A) → (list_beq a b ≡ true) ↔ (a ≡ b)
list_beq_iff [] [] = (λ _. refl, λ _. refl)
list_beq_iff [] (b ∷ bs) = (λ h. cc, λ h. cc)
list_beq_iff (a ∷ rest) [] = (λ h. cc, λ h. cc)
list_beq_iff ⦃e⦄ (a ∷ rest) (b ∷ bs) =
    let h = list_beq_iff rest bs in
    let k = e.beq_iff a b in
    (
      λ p.
          let here : (a == b) ≡ true = ground arith in
          let there : list_beq rest bs ≡ true = ground arith in
          ap₂ (λ x xs. x ∷ xs) (k.0 here) (h.0 there),
      λ p.
          let here : (a == b) ≡ true = k.1 (cc) in
          let there : list_beq rest bs ≡ true = h.1 (cc) in ground arith,
    )

instance abbrev pub List_eq {ℓ} : {A : Type ℓ} ⦃e : Eq A⦄ → Eq (List A)
List_eq = record { beq = list_beq; beq_iff = list_beq_iff }

module _ {ℓ} {A : Type ℓ} ⦃e : Eq A⦄ where
  pub beq_refl : (a : A) → (a == a) ≡ true
  beq_refl a = (e.beq_iff a a).1 refl

  pub beq_false_of_ne : (a b : A) → a ≢ b → (a == b) ≡ false
  beq_false_of_ne a b h = elim (Bool-cases (a == b)) [
    | inl same ↦ absurd (h ((e.beq_iff a b).0 same))
    | inr other ↦ other
  ]

  pub ne_of_beq_false : (a b : A) → (a == b) ≡ false → a ≢ b
  ne_of_beq_false a b h same = let f : (a == b) ≡ true = (e.beq_iff a b).1 same in cc
