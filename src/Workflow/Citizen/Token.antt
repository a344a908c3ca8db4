-- ===== src/Workflow/Citizen/Token.antt =====
-- crates/application/src/citizen_subscription.rs: the proof of ownership of a citizen's subscription.
-- `sha256` stands for the digest of the `sha2` crate.
use Prim.Native.Nat.{bit_or, bit_xor}
use safe_cameroon.Common.{
  ℕ, String, Bool, true, false, List, [], ◌∷◌, ◌≡◌, refl, ◌↔◌, arith, if◌then◌else◌, ◌==◌, ℕ_eq,
  List_eq, length, bit_or_zero, bit_xor_zero, bit_xor-same,
}

abbrev differences : ℕ → List ℕ → List ℕ → ℕ
differences acc [] b = acc
differences acc (x ∷ a) [] = acc
differences acc (x ∷ a) (y ∷ b) = differences (bit_or acc (bit_xor x y)) a b

unfoldable pub constant_time_eq : List ℕ → List ℕ → Bool
constant_time_eq a b = if length a == length b then differences 0 a b == 0 else false

unfoldable pub hash_management_token : (String → List ℕ) → String → List ℕ
hash_management_token sha256 token = sha256 token

unfoldable pub verify_management_token : (String → List ℕ) → String → List ℕ → Bool
verify_management_token sha256 token stored_hash =
    constant_time_eq (hash_management_token sha256 token) stored_hash

differences_zero :
    (acc : ℕ) (a b : List ℕ) → length a ≡ length b → differences acc a b ≡ 0 → (acc ≡ 0) × (a ≡ b)
differences_zero acc [] [] same h = (h, refl)
differences_zero acc [] (y ∷ b) same h = absurd (omega arith)
differences_zero acc (x ∷ a) [] same h = absurd (omega arith)
differences_zero acc (x ∷ a) (y ∷ b) same h =
    let later = differences_zero (bit_or acc (bit_xor x y)) a b (omega arith) h in
    let parts = bit_or_zero acc (bit_xor x y) later.0 in
    let heads : x ≡ y = bit_xor_zero x y parts.1 in let tails : a ≡ b = later.1 in (parts.0, cc)

differences-same : (a : List ℕ) → differences 0 a a ≡ 0
differences-same [] = refl
differences-same (x ∷ a) = rw (bit_xor-same x) (differences-same a)

-- The fold over all pairs of bytes tells exactly whether two digests are equal.
pub constant_time_eq_iff : (a b : List ℕ) → (constant_time_eq a b ≡ true) ↔ (a ≡ b)
unfolding constant_time_eq
constant_time_eq_iff a b = (
  λ h.
      let same : length a ≡ length b = ground (arith) in
      (differences_zero 0 a b same (ground (arith))).1,
  λ e. rw e (ground (arith, differences-same b)),
)

-- A token manages a subscription exactly when its digest is the stored one.
pub verify_management_token_iff :
    (sha256 : String → List ℕ) (token : String) (stored_hash : List ℕ)
    → (verify_management_token sha256 token stored_hash ≡ true)
      ↔ (hash_management_token sha256 token ≡ stored_hash)
unfolding verify_management_token
verify_management_token_iff sha256 token stored_hash =
    constant_time_eq_iff (hash_management_token sha256 token) stored_hash
