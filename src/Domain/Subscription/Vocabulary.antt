-- ===== src/Domain/Subscription/Vocabulary.antt =====
-- crates/domain/src/subscription.rs: the comparison operators of a severity rule. A value is written to the database by
-- `as_database_value` and read back by `from_database_value`.
use safe_cameroon.Common.{
  Eq, eq_of, String, List, [], ◌∷◌, Option, some, ◌≡◌, refl, match_arms, IsExact,
  match_arms-IsExact,
}

pub data Comparison : Type 0 where
  greater_than greater_than_or_equal equal less_than_or_equal less_than : Comparison

unfoldable pub Comparison-discrete : Discrete Comparison
Comparison-discrete = hlevel

instance abbrev pub Comparison_eq : Eq Comparison
Comparison_eq = eq_of Comparison-discrete

unfoldable pub comparison_as_database_value : Comparison → String
comparison_as_database_value Comparison.greater_than = "GREATER_THAN"
comparison_as_database_value Comparison.greater_than_or_equal = "GREATER_THAN_OR_EQUAL"
comparison_as_database_value Comparison.equal = "EQUAL"
comparison_as_database_value Comparison.less_than_or_equal = "LESS_THAN_OR_EQUAL"
comparison_as_database_value Comparison.less_than = "LESS_THAN"

abbrev pub comparison_arms : List (String × Comparison)
comparison_arms =
    ("GREATER_THAN", Comparison.greater_than)
    ∷ ("GREATER_THAN_OR_EQUAL", Comparison.greater_than_or_equal)
    ∷ ("EQUAL", Comparison.equal)
    ∷ ("LESS_THAN_OR_EQUAL", Comparison.less_than_or_equal)
    ∷ ("LESS_THAN", Comparison.less_than)
    ∷ []

unfoldable pub comparison_from_database_value : String → Option Comparison
comparison_from_database_value s = match_arms s comparison_arms

comparison_from_database_value-comparison_as_database_value :
    (v : Comparison) → comparison_from_database_value (comparison_as_database_value v) ≡ some v
unfolding comparison_from_database_value comparison_as_database_value
comparison_from_database_value-comparison_as_database_value Comparison.greater_than = refl
comparison_from_database_value-comparison_as_database_value Comparison.greater_than_or_equal = refl
comparison_from_database_value-comparison_as_database_value Comparison.equal = refl
comparison_from_database_value-comparison_as_database_value Comparison.less_than_or_equal = refl
comparison_from_database_value-comparison_as_database_value Comparison.less_than = refl

pub comparison-IsExact : IsExact comparison_as_database_value comparison_from_database_value
unfolding comparison_from_database_value comparison_as_database_value
comparison-IsExact =
    match_arms-IsExact comparison_as_database_value comparison_from_database_value comparison_arms
      (λ s. refl) (refl, (refl, (refl, (refl, (refl, tt)))))
      comparison_from_database_value-comparison_as_database_value
