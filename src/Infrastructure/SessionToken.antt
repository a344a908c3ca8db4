-- ===== src/Infrastructure/SessionToken.antt =====
-- crates/infrastructure/src/auth/session_token.rs: the signed token of a reviewer's session. A text is
-- the list of its UTF-8 bytes, and a time is in seconds.
pub mod Verification
use safe_cameroon.Common.{
  ℕ, ◌+◌, ◌-◌, Bool, true, false, List, [], ◌∷◌, ◌++◌, Option, none, some, if◌then◌else◌, ◌==◌, ltb,
  ℕ_eq, List_eq,
}
use safe_cameroon.Domain.Ids.{Uuid}
use safe_cameroon.Infrastructure.Hex.{Call, returned, panicked, encode, decode}

-- The `uuid` crate's text of an identifier and its parser, those of the standard library for a `u64`,
-- and the `hmac` crate's HMAC-SHA256 of a key and a message.
pub record Primitives : Type 0 where
  pub uuid_text : Uuid → List ℕ
  pub parse_uuid : List ℕ → Option Uuid
  pub u64_text : ℕ → List ℕ
  pub parse_u64 : List ℕ → Option ℕ
  pub hmac : List ℕ → List ℕ → List ℕ

pub record IssuedSessionToken : Type 0 where
  pub token : List ℕ
  pub expires_in : ℕ

pub record VerifiedSessionToken : Type 0 where
  pub reviewer_id : Uuid
  pub issued_at : ℕ

pub record ReviewerSessionTokenIssuer : Type 0 where
  pub secret : List ℕ
  pub ttl : ℕ

abbrev pub default_ttl : ℕ
default_ttl = 43200

-- `{reviewer_id}:{expires_at}`.
unfoldable pub signed_text : Primitives → Uuid → ℕ → List ℕ
signed_text p reviewer_id expires_at = p.uuid_text reviewer_id ++ (58 ∷ p.u64_text expires_at)

unfoldable pub sign : Primitives → ReviewerSessionTokenIssuer → Uuid → ℕ → List ℕ
sign p issuer reviewer_id expires_at =
    encode (p.hmac issuer.secret (signed_text p reviewer_id expires_at))

unfoldable pub issue : Primitives → ReviewerSessionTokenIssuer → Uuid → ℕ → IssuedSessionToken
issue p issuer reviewer_id now = record {
  token =
      p.uuid_text reviewer_id
      ++ (46
          ∷ (p.u64_text (now + issuer.ttl) ++ (46 ∷ sign p issuer reviewer_id (now + issuer.ttl))));
  expires_in = issuer.ttl;
}

-- What stands before the first dot, and what follows it.
unfoldable pub split_once : List ℕ → List ℕ × Option (List ℕ)
split_once [] = ([], none)
split_once (c ∷ s) =
    let later = split_once s in if c == 46 then ([], some s) else (c ∷ later.0, later.1)

-- `verify_slice` compares the whole codes.
abbrev compare_code :
    Primitives
    → ReviewerSessionTokenIssuer
    → Uuid
    → ℕ
    → Call (Option (List ℕ))
    → Call (Option VerifiedSessionToken)
compare_code p issuer reviewer_id expires_at panicked = panicked
compare_code p issuer reviewer_id expires_at (returned none) = returned none
compare_code p issuer reviewer_id expires_at (returned (some signature_bytes)) =
    if signature_bytes == p.hmac issuer.secret (signed_text p reviewer_id expires_at)
    then returned (some (record { reviewer_id = reviewer_id; issued_at = expires_at - issuer.ttl }))
    else returned none

abbrev check :
    Primitives
    → ReviewerSessionTokenIssuer
    → ℕ
    → Option Uuid
    → Option ℕ
    → Option (List ℕ)
    → Call (Option VerifiedSessionToken)
check p issuer now none expires_at signature = returned none
check p issuer now (some reviewer_id) none signature = returned none
check p issuer now (some reviewer_id) (some expires_at) none = returned none
check p issuer now (some reviewer_id) (some expires_at) (some signature) =
    if ltb expires_at now
    then returned none
    else compare_code p issuer reviewer_id expires_at (decode signature)

-- The second and the third part of `splitn(3, '.')`.
abbrev check_rest :
    Primitives
    → ReviewerSessionTokenIssuer
    → ℕ
    → Option Uuid
    → Option (List ℕ)
    → Call (Option VerifiedSessionToken)
check_rest p issuer now reviewer_id none = returned none
check_rest p issuer now reviewer_id (some rest) =
    check p issuer now reviewer_id (p.parse_u64 (split_once rest).0) (split_once rest).1

unfoldable pub verify :
    Primitives → ReviewerSessionTokenIssuer → List ℕ → ℕ → Call (Option VerifiedSessionToken)
verify p issuer token now =
    check_rest p issuer now (p.parse_uuid (split_once token).0) (split_once token).1
