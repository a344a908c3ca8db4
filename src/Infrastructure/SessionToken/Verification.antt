-- ===== src/Infrastructure/SessionToken/Verification.antt =====
-- Proofs about crates/infrastructure/src/auth/session_token.rs.
use safe_cameroon.Common.{
  ℕ, ◌+◌, ◌<◌, List, [], ◌∷◌, ◌++◌, none, some, ◌≡◌, ◌≢◌, refl, arith, All, ltb, if◌then◌else◌,
  ℕ_eq, List_eq, beq_refl,
}
use safe_cameroon.Domain.Ids.{Uuid}
use safe_cameroon.Infrastructure.Hex.{returned, encode}
use safe_cameroon.Infrastructure.Hex.RoundTrip.{decode-encode}
use safe_cameroon.Infrastructure.SessionToken.{
  Primitives, ReviewerSessionTokenIssuer, signed_text, sign, issue, split_once, verify,
}

abbrev pub NoDot : List ℕ → Type 0
NoDot s = All (λ c. c ≢ 46) s

split_once-append : (s t : List ℕ) → NoDot s → split_once (s ++ (46 ∷ t)) ≡ (s, some t)
unfolding split_once
split_once-append [] t h = refl
split_once-append (c ∷ s) t h = ground (arith, split_once-append s t h.1)

-- An identifier's text is in hexadecimal digits and hyphens, a number's in decimal digits, and both are
-- read back; a code consists of bytes.
module _ (p : Primitives) (uuid-NoDot : (u : Uuid) → NoDot (p.uuid_text u))
    (uuid_read : (u : Uuid) → p.parse_uuid (p.uuid_text u) ≡ some u)
    (u64-NoDot : (n : ℕ) → NoDot (p.u64_text n))
    (u64_read : (n : ℕ) → n < 18446744073709551616 → p.parse_u64 (p.u64_text n) ≡ some n)
    (hmac_bytes : (key message : List ℕ) → All (λ b. b < 256) (p.hmac key message)) where
  -- A token that was issued verifies, until its time to live has passed, as its reviewer's session of
  -- the time at which it was issued, and afterwards not at all, as long as the time of expiry fits in
  -- 64 bits; the verification does not panic.
  pub verify-issue :
      (issuer : ReviewerSessionTokenIssuer) (reviewer_id : Uuid) (now later : ℕ)
      → now + issuer.ttl < 18446744073709551616
      → verify p issuer (issue p issuer reviewer_id now).token later
        ≡ returned (
            if ltb (now + issuer.ttl) later
            then none
            else some (record { reviewer_id = reviewer_id; issued_at = now }))
  unfolding verify issue sign
  verify-issue issuer reviewer_id now later h =
      let expires_at = now + issuer.ttl in
      let code = p.hmac issuer.secret (signed_text p reviewer_id expires_at) in
      let rest = p.u64_text expires_at ++ (46 ∷ encode code) in
      ground (
        arith,
        split_once-append (p.uuid_text reviewer_id) rest (uuid-NoDot reviewer_id),
        split_once-append (p.u64_text expires_at) (encode code) (u64-NoDot expires_at),
        uuid_read reviewer_id,
        u64_read expires_at h,
        decode-encode code (hmac_bytes issuer.secret (signed_text p reviewer_id expires_at)),
        beq_refl code,
      )
