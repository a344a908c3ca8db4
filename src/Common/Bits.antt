-- ===== src/Common/Bits.antt =====
-- When bitwise operations at variables give 0.
use Prim.Native.Nat.{
  ℕ, zero, suc, ◌/◌, ◌%◌, ◌≤◌, max, bit_or, bit_xor, digits, differ, bit_or-bitwise,
  bit_xor-bitwise,
}
use mathlib.Core.Path.{◌≡◌, refl, sym, ◌∙◌}
use native.Mathlib.Omega.{arith}

digits-or_zero : (n a b : ℕ) → a ≤ n → digits (λ b. b) max n a b ≡ 0 → (a ≡ 0) × (b ≡ 0)
digits-or_zero zero zero b p h = (refl, h)
digits-or_zero zero (suc a) b p h = absurd (omega arith)
digits-or_zero (suc n) zero b p h = (refl, h)
digits-or_zero (suc n) (suc a) b p h =
    let halves = digits-or_zero n (suc a / 2) (b / 2) (omega arith) (omega arith) in
    absurd (omega (arith, halves.0))

differ_zero : (x y : ℕ) → differ x y ≡ 0 → x ≡ y
differ_zero zero y h = sym h
differ_zero (suc x) zero h = h
differ_zero (suc x) (suc y) h = omega (arith, differ_zero x y h)

differ-same : (x : ℕ) → differ x x ≡ 0
differ-same zero = refl
differ-same (suc x) = differ-same x

digits-xor_zero : (n a b : ℕ) → a ≤ n → digits (λ b. b) differ n a b ≡ 0 → a ≡ b
digits-xor_zero zero zero b p h = sym h
digits-xor_zero zero (suc a) b p h = absurd (omega arith)
digits-xor_zero (suc n) zero b p h = sym h
digits-xor_zero (suc n) (suc a) b p h =
    let halves = digits-xor_zero n (suc a / 2) (b / 2) (omega arith) (omega arith) in
    let last = differ_zero (suc a % 2) (b % 2) (omega arith) in omega (arith, halves, last)

digits-xor_same : (n a : ℕ) → a ≤ n → digits (λ b. b) differ n a a ≡ 0
digits-xor_same zero zero p = refl
digits-xor_same zero (suc a) p = absurd (omega arith)
digits-xor_same (suc n) zero p = refl
digits-xor_same (suc n) (suc a) p =
    omega (arith, digits-xor_same n (suc a / 2) (omega arith), differ-same (suc a % 2))

pub bit_or_zero : (a b : ℕ) → bit_or a b ≡ 0 → (a ≡ 0) × (b ≡ 0)
bit_or_zero a b h = digits-or_zero a a b (omega arith) (sym (bit_or-bitwise a b) ∙ h)

pub bit_xor_zero : (a b : ℕ) → bit_xor a b ≡ 0 → a ≡ b
bit_xor_zero a b h = digits-xor_zero a a b (omega arith) (sym (bit_xor-bitwise a b) ∙ h)

pub bit_xor-same : (a : ℕ) → bit_xor a a ≡ 0
bit_xor-same a = bit_xor-bitwise a a ∙ digits-xor_same a a (omega arith)
