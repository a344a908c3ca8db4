-- ===== src/Tests/SessionToken.antt =====
-- Session tokens and management tokens: crates/infrastructure/src/auth/session_token.rs,
-- crates/application/src/citizen_subscription.rs.
use safe_cameroon.Common.{
  ◌↔◌, String, true, ℕ, zero, suc, ◌≡◌, refl, ap, List, [], ◌∷◌, some, arith,
}
use safe_cameroon.Infrastructure.Hex.{returned}
use safe_cameroon.Infrastructure.SessionToken.{
  Primitives, ReviewerSessionTokenIssuer, default_ttl, issue, verify,
}
use safe_cameroon.Infrastructure.SessionToken.Verification.{NoDot, verify-issue}
use safe_cameroon.Workflow.Citizen.Token.{
  hash_management_token, verify_management_token, verify_management_token_iff,
}

abbrev strokes : ℕ → List ℕ
strokes zero = []
strokes (suc n) = 49 ∷ strokes n

abbrev count : List ℕ → ℕ
count [] = 0
count (c ∷ s) = suc (count s)

strokes-NoDot : (n : ℕ) → NoDot (strokes n)
strokes-NoDot zero = tt
strokes-NoDot (suc n) = (omega arith, strokes-NoDot n)

count-strokes : (n : ℕ) → count (strokes n) ≡ n
count-strokes zero = refl
count-strokes (suc n) = ap (λ k. suc k) (count-strokes n)

abbrev primitives : Primitives
primitives = record {
  uuid_text = strokes;
  parse_uuid = λ s. some (count s);
  u64_text = strokes;
  parse_u64 = λ s. some (count s);
  hmac = λ key message. 171 ∷ 7 ∷ [];
}

abbrev issuer : ReviewerSessionTokenIssuer
issuer = record { secret = 1 ∷ []; ttl = default_ttl }

verify-issue_example :
    verify primitives issuer (issue primitives issuer 7 1700).token 1800
    ≡ returned (some (record { reviewer_id = 7; issued_at = 1700 }))
verify-issue_example =
    verify-issue primitives strokes-NoDot (λ n. ap (λ k. some k) (count-strokes n)) strokes-NoDot
      (λ n h. ap (λ k. some k) (count-strokes n)) (λ key message. (omega arith, (omega arith, tt)))
      issuer 7 1700 1800 (omega arith)

abbrev digest : String → List ℕ
digest token = 18 ∷ 52 ∷ []

verify_management_token_iff_example :
    (verify_management_token digest "a" (18 ∷ 53 ∷ []) ≡ true)
    ↔ (hash_management_token digest "a" ≡ 18 ∷ 53 ∷ [])
verify_management_token_iff_example = verify_management_token_iff digest "a" (18 ∷ 53 ∷ [])
