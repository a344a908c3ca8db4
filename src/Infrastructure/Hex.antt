-- ===== src/Infrastructure/Hex.antt =====
-- crates/infrastructure/src/hex.rs: bytes as a text of hexadecimal digits. A text is the list of its
-- UTF-8 bytes.
pub mod RoundTrip
use safe_cameroon.Common.{
  ℕ, ◌+◌, ◌-◌, ◌*◌, ◌/◌, ◌%◌, Bool, true, false, List, [], ◌∷◌, Option, none, some, if◌then◌else◌,
  ◌==◌, ◌&&◌, ◌||◌, leb, ltb, ℕ_eq,
}

-- A call returns, or it panics.
pub data Call {ℓ} (A : Type ℓ) : Type ℓ where
  returned : A → Call A
  panicked : Call A

abbrev hex_digit : ℕ → ℕ
hex_digit d = if ltb d 10 then 48 + d else 87 + d

-- `{byte:02x}` of each byte.
unfoldable pub encode : List ℕ → List ℕ
encode [] = []
encode (byte ∷ bytes) = hex_digit (byte / 16) ∷ hex_digit (byte % 16) ∷ encode bytes

-- `char::to_digit(16)`.
abbrev digit_value : ℕ → Option ℕ
digit_value c =
    if leb 48 c && leb c 57
    then some (c - 48)
    else if leb 97 c && leb c 102
    then some (c - 87)
    else if leb 65 c && leb c 70
    then some (c - 55)
    else none

abbrev two_digits : Option ℕ → Option ℕ → Option ℕ
two_digits (some high) (some low) = some (high * 16 + low)
two_digits (some high) none = none
two_digits none low = none

-- `u8::from_str_radix(_, 16)` of two bytes, which takes a leading `+`.
unfoldable pub from_str_radix : ℕ → ℕ → Option ℕ
from_str_radix a b = if a == 43 then digit_value b else two_digits (digit_value a) (digit_value b)

-- Whether an index at which this is left of the text is inside of a character.
unfoldable pub is_inside : List ℕ → Bool
is_inside [] = false
is_inside (c ∷ rest) = leb 128 c && leb c 191

abbrev collect : Option ℕ → Call (Option (List ℕ)) → Call (Option (List ℕ))
collect none rest = returned none
collect (some byte) (returned none) = returned none
collect (some byte) (returned (some bytes)) = returned (some (byte ∷ bytes))
collect (some byte) panicked = panicked

-- The slices of two bytes; a slice that ends or starts inside of a character panics. The first `None`
-- ends the iteration.
unfoldable pub decode_pairs : List ℕ → Call (Option (List ℕ))
decode_pairs [] = returned (some [])
decode_pairs (a ∷ []) = panicked
decode_pairs (a ∷ b ∷ rest) =
    let later = decode_pairs rest in
    if is_inside (a ∷ []) || is_inside rest then panicked else collect (from_str_radix a b) later

abbrev byte_len : List ℕ → ℕ
byte_len [] = 0
byte_len (c ∷ s) = 1 + byte_len s

unfoldable pub decode : List ℕ → Call (Option (List ℕ))
decode value = if byte_len value % 2 == 0 then decode_pairs value else returned none
