-- ===== src/Domain/Delivery/Backoff.antt =====
-- Proofs about `RetryPolicy::backoff_after_attempt` of crates/domain/src/delivery.rs.
use native.Mathlib.Nat.{pow-le-pow_right}
use native.Mathlib.Decide.{dec_le}
use safe_cameroon.Common.{ℕ, ◌-◌, ◌*◌, ◌^◌, ◌≤◌, ◌≡◌, min, arith, ◌%◌, u64, ap, ◌∙◌}
use safe_cameroon.Domain.Delivery.{RetryPolicy, backoff_after_attempt, shift_left}

pow_mono : (k m : ℕ) → k ≤ m → 2 ^ k ≤ 2 ^ m
pow_mono k m h = pow-le-pow_right (omega arith) h

capped_exponent : (k : ℕ) → min (30 * 2 ^ min k 6) (30 * 60) ≡ min (30 * 2 ^ k) (30 * 60)
capped_exponent k = elim (dec_le k 6) [
  | yes low ↦ let e : min k 6 ≡ k = omega arith in rw e
  | no high ↦
      let e : min k 6 ≡ 6 = omega arith in
      let large : 2 ^ 6 ≤ 2 ^ k = pow_mono 6 k (omega arith) in rw e (omega (arith, large))
]

-- Under the cap, neither the shift nor the product wraps around.
capped_in_range : (k : ℕ) → u64 (30 * shift_left 1 (min k 6)) ≡ 30 * 2 ^ min k 6
capped_in_range k =
    let small : min k 6 % 64 ≡ min k 6 = omega arith in
    let bound : 2 ^ min k 6 ≤ 2 ^ 6 = pow_mono (min k 6) 6 (omega arith) in
    rw small (omega (arith, bound))

-- Although the code computes with a shift and a product that wrap around in 64 bits, the delay after
-- any number of attempts is the one of the unbounded numbers: 30 seconds, doubled for each attempt
-- after the first, and half an hour at most.
pub backoff_after_attempt_lem :
    (policy : RetryPolicy) (n : ℕ) → backoff_after_attempt policy n ≡ min (30 * 2 ^ (n - 1)) 1800
unfolding backoff_after_attempt
backoff_after_attempt_lem policy n =
    ap (λ s. min s 1800) (capped_in_range (n - 1)) ∙ capped_exponent (n - 1)

-- A later attempt never waits less, and every wait lies between 30 seconds and half an hour.
pub backoff_after_attempt_mono :
    (policy : RetryPolicy) (n m : ℕ)
    → n ≤ m
    → (30 ≤ backoff_after_attempt policy n)
      × (backoff_after_attempt policy n ≤ backoff_after_attempt policy m)
      × (backoff_after_attempt policy m ≤ 1800)
backoff_after_attempt_mono policy n m h =
    let grows : 2 ^ (n - 1) ≤ 2 ^ (m - 1) = pow_mono (n - 1) (m - 1) (omega arith) in
    let start : 2 ^ 0 ≤ 2 ^ (n - 1) = pow_mono 0 (n - 1) (omega arith) in
    rw (backoff_after_attempt_lem policy n, backoff_after_attempt_lem policy m)
      (omega (arith, start), omega (arith, grows), omega arith)
