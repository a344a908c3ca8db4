-- ===== src/Common/Text.antt =====
-- Text: `str::trim` over the Unicode White_Space characters, and tables of names.
use Prim.Native.Nat.{ℕ}
use Prim.Native.Char.{Char, code}
use Prim.Native.String.{String, ◌++◌}
use mathlib.Core.Path.{◌≡◌, refl, sym, ◌∙◌, ap, ap₂}
use mathlib.Core.Logic.{◌≢◌, ◌↔◌, inl, inr}
use mathlib.Core.Bool.{Bool, true, false, ◌&&◌, ◌||◌}
use mathlib.Core.Option.{Option, none, some}
use mathlib.Core.List.{List, [], ◌∷◌}
use text.Mathlib.Text.{starts_with}
use text.Mathlib.TextEquality.{eq_iff}
use text.Mathlib.TextLemmas.{head-eq_of_cons-eq, tail-eq_of_cons-eq, nil-append, cons-append}
use safe_cameroon.Common.Tests.{leb, nat_eq, if◌then◌else◌, Bool-cases, ◌==◌, String_eq}
use safe_cameroon.Common.Lists.{All}

-- `char::is_whitespace`.
is_white : ℕ → Bool
is_white c =
    leb 0x09 c && leb c 0x0d
    || nat_eq c 0x20
    || nat_eq c 0x85
    || nat_eq c 0xa0
    || nat_eq c 0x1680
    || leb 0x2000 c && leb c 0x200a
    || nat_eq c 0x2028
    || nat_eq c 0x2029
    || nat_eq c 0x202f
    || nat_eq c 0x205f
    || nat_eq c 0x3000

abbrev pub is_blank : String → Bool
is_blank String.[] = true
is_blank (String.◌∷◌ c s) = false

trim_start : String → String
trim_start String.[] = String.[]
trim_start (String.◌∷◌ c s) = if is_white (code c) then trim_start s else String.◌∷◌ c s

abbrev push_trimmed : Char → String → String
push_trimmed c rest = if is_white (code c) && is_blank rest then String.[] else String.◌∷◌ c rest

trim_end : String → String
trim_end String.[] = String.[]
trim_end (String.◌∷◌ c s) = push_trimmed c (trim_end s)

unfoldable pub trim : String → String
unfolding is_white trim_start trim_end
trim s = trim_end (trim_start s)

abbrev StartsDark : String → Type 0
StartsDark String.[] = Unit
StartsDark (String.◌∷◌ c s) = is_white (code c) ≡ false

trim_start-StartsDark : (s : String) → StartsDark (trim_start s)
unfolding trim_start
trim_start-StartsDark String.[] = tt
trim_start-StartsDark (String.◌∷◌ c s) = elim (Bool-cases (is_white (code c))) [
  | inl white ↦ rw white (trim_start-StartsDark s)
  | inr dark ↦ rw dark dark
]

trim_start_of_StartsDark : (s : String) → StartsDark s → trim_start s ≡ s
unfolding trim_start
trim_start_of_StartsDark String.[] h = refl
trim_start_of_StartsDark (String.◌∷◌ c s) h = rw h

trim_end-StartsDark : (s : String) → StartsDark s → StartsDark (trim_end s)
unfolding trim_end
trim_end-StartsDark String.[] h = tt
trim_end-StartsDark (String.◌∷◌ c s) h = rw h h

push_trimmed_idem :
    (c : Char) (s : String) → trim_end s ≡ s → trim_end (push_trimmed c s) ≡ push_trimmed c s
unfolding trim_end
push_trimmed_idem c s e = elim (Bool-cases (is_white (code c) && is_blank s)) [
  | inl gone ↦ rw gone
  | inr kept ↦ rw kept (rw e (rw kept))
]

trim_end_idem : (s : String) → trim_end (trim_end s) ≡ trim_end s
unfolding trim_end
trim_end_idem String.[] = refl
trim_end_idem (String.◌∷◌ c s) = push_trimmed_idem c (trim_end s) (trim_end_idem s)

-- Trimming twice is trimming once.
pub trim_idem : (s : String) → trim (trim s) ≡ trim s
unfolding trim
trim_idem s =
    let dark : StartsDark (trim_end (trim_start s)) =
      trim_end-StartsDark (trim_start s) (trim_start-StartsDark s) in
    rw (trim_start_of_StartsDark (trim_end (trim_start s)) dark) (trim_end_idem (trim_start s))

-- `match value { "A" => Some(a), …, _ => None }`: the first arm that the text equals.
abbrev pub match_arms {ℓ} : {A : Type ℓ} → String → List (String × A) → Option A
match_arms s [] = none
match_arms s ((name, value) ∷ arms) = if s == name then some value else match_arms s arms

-- Where each arm is the name of its value, only a value's own name is matched.
pub match_arms_sound {ℓ} :
    {A : Type ℓ} (name_of : A → String) (arms : List (String × A))
    → All (λ arm. arm.0 ≡ name_of arm.1) arms
    → (s : String) (a : A) → match_arms s arms ≡ some a
    → s ≡ name_of a
match_arms_sound name_of [] h s a e = cc
match_arms_sound name_of ((name, value) ∷ arms) h s a e = elim (Bool-cases (s == name)) [
  | inl same ↦
      let v : some value ≡ some a = rw same at e in
      let n : s ≡ name = (eq_iff s name).0 same in cc (h.0)
  | inr other ↦ match_arms_sound name_of arms h.1 s a (rw other at e)
]

-- What a closed vocabulary promises of its names: a text is read as a value exactly when it is
-- that value's name.
abbrev pub IsExact {ℓ} : {A : Type ℓ} → (A → String) → (String → Option A) → Type ℓ
IsExact {A} name_of parse = (s : String) (a : A) → (parse s ≡ some a) ↔ (s ≡ name_of a)

-- So two values never share a name.
pub IsExact-injective {ℓ} :
    {A : Type ℓ} {name_of : A → String} {parse : String → Option A}
    → IsExact name_of parse
    → (a b : A) → name_of a ≡ name_of b
    → a ≡ b
IsExact-injective {name_of} {parse} exact a b e =
    let p : parse (name_of a) ≡ some a = (exact (name_of a) a).1 refl in
    let q : parse (name_of a) ≡ some b = (exact (name_of a) b).1 e in cc

pub match_arms-IsExact {ℓ} :
    {A : Type ℓ} (name_of : A → String) (parse : String → Option A) (arms : List (String × A))
    → ((s : String) → parse s ≡ match_arms s arms)
    → All (λ arm. arm.0 ≡ name_of arm.1) arms
    → ((a : A) → parse (name_of a) ≡ some a)
    → IsExact name_of parse
match_arms-IsExact name_of parse arms by_arms named round_trip s a =
    (λ h. match_arms_sound name_of arms named s a (sym (by_arms s) ∙ h), λ e. rw e (round_trip a))

-- `str::contains`.
abbrev pub str_contains : String → String → Bool
str_contains String.[] t = starts_with String.[] t
str_contains (String.◌∷◌ c s) t = starts_with (String.◌∷◌ c s) t || str_contains s t

-- `format!`: the pieces of a text, one after another.
abbrev pub format : List String → String
format [] = ""
format (piece ∷ pieces) = piece ++ format pieces

-- Texts without a colon, which `:` separates.
abbrev pub NoColon : String → Type 0
NoColon String.[] = Unit
NoColon (String.◌∷◌ c s) = (code c ≢ 58) × NoColon s

colon-append : (x : String) → ":" ++ x ≡ String.◌∷◌ ":" x
colon-append x = rw (cons-append, nil-append)

-- What stands before the first colon, and what follows it, are determined by the whole.
pub split_colon :
    (s t x y : String)
    → NoColon s
    → NoColon t
    → s ++ (":" ++ x) ≡ t ++ (":" ++ y)
    → (s ≡ t) × (x ≡ y)
split_colon String.[] String.[] x y hs ht e =
    (refl, tail-eq_of_cons-eq (simp (nil-append, colon-append, cons-append) at e))
split_colon String.[] (String.◌∷◌ d t) x y hs ht e =
    absurd (
      ht.0 (ap code (sym (head-eq_of_cons-eq (simp (nil-append, colon-append, cons-append) at e)))))
split_colon (String.◌∷◌ c s) String.[] x y hs ht e =
    absurd (hs.0 (ap code (head-eq_of_cons-eq (simp (nil-append, colon-append, cons-append) at e))))
split_colon (String.◌∷◌ c s) (String.◌∷◌ d t) x y hs ht e =
    let e' = sym (cons-append c s (":" ++ x)) ∙ e ∙ cons-append d t (":" ++ y) in
    let (same, rest) = split_colon s t x y hs.1 ht.1 (tail-eq_of_cons-eq e') in
    (ap₂ String.◌∷◌ (head-eq_of_cons-eq e') same, rest)

-- `str::strip_prefix` and `str::ends_with`.
unfoldable pub strip_prefix : String → String → Option String
strip_prefix s String.[] = some s
strip_prefix String.[] (String.◌∷◌ c t) = none
strip_prefix (String.◌∷◌ d s) (String.◌∷◌ c t) =
    if nat_eq (code d) (code c) then strip_prefix s t else none

unfoldable pub ends_with : String → String → Bool
ends_with String.[] t = is_blank t
ends_with (String.◌∷◌ c s) t = String.◌∷◌ c s == t || ends_with s t
