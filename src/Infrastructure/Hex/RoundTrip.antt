-- ===== src/Infrastructure/Hex/RoundTrip.antt =====
-- Proofs about crates/infrastructure/src/hex.rs.
use safe_cameroon.Common.{ℕ, ◌<◌, ◌/◌, ◌%◌, List, [], ◌∷◌, some, ◌≡◌, refl, arith, All, false}
use safe_cameroon.Infrastructure.Hex.{
  returned, encode, hex_digit, from_str_radix, is_inside, decode_pairs, byte_len, decode,
}

from_str_radix-hex_digit :
    (byte : ℕ)
    → byte < 256
    → from_str_radix (hex_digit (byte / 16)) (hex_digit (byte % 16)) ≡ some byte
unfolding from_str_radix
from_str_radix-hex_digit byte h = ground arith

is_inside-encode :
    (bytes : List ℕ) → All (λ byte. byte < 256) bytes → is_inside (encode bytes) ≡ false
unfolding is_inside encode
is_inside-encode [] h = refl
is_inside-encode (byte ∷ bytes) h = ground arith

is_inside-hex_digit : (d : ℕ) → d < 16 → is_inside (hex_digit d ∷ []) ≡ false
unfolding is_inside
is_inside-hex_digit d h = ground arith

byte_len-encode : (bytes : List ℕ) → byte_len (encode bytes) % 2 ≡ 0
unfolding encode
byte_len-encode [] = refl
byte_len-encode (byte ∷ bytes) = omega (arith, byte_len-encode bytes)

decode_pairs-encode :
    (bytes : List ℕ)
    → All (λ byte. byte < 256) bytes
    → decode_pairs (encode bytes) ≡ returned (some bytes)
unfolding decode_pairs encode
decode_pairs-encode [] h = refl
decode_pairs-encode (byte ∷ bytes) h = rw (is_inside-hex_digit (byte / 16) (omega arith)) (
    rw (is_inside-encode bytes h.1)
      (rw (from_str_radix-hex_digit byte h.0) (rw (decode_pairs-encode bytes h.1) refl)))

-- The bytes that were encoded are decoded again.
pub decode-encode :
    (bytes : List ℕ)
    → All (λ byte. byte < 256) bytes
    → decode (encode bytes) ≡ returned (some bytes)
unfolding decode
decode-encode bytes h = ground (arith, byte_len-encode bytes, decode_pairs-encode bytes h)
