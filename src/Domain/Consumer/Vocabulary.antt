-- ===== src/Domain/Consumer/Vocabulary.antt =====
-- crates/domain/src/consumer.rs: the kinds of consumer. A value is written to the database by
-- `as_database_value` and read back by `from_database_value`.
use safe_cameroon.Common.{
  Eq, eq_of, String, List, [], ◌∷◌, Option, some, ◌≡◌, refl, match_arms, IsExact,
  match_arms-IsExact,
}

pub data ConsumerType : Type 0 where
  organization citizen : ConsumerType

unfoldable pub ConsumerType-discrete : Discrete ConsumerType
ConsumerType-discrete = hlevel

instance abbrev pub ConsumerType_eq : Eq ConsumerType
ConsumerType_eq = eq_of ConsumerType-discrete

unfoldable pub consumer_type_as_database_value : ConsumerType → String
consumer_type_as_database_value ConsumerType.organization = "ORGANIZATION"
consumer_type_as_database_value ConsumerType.citizen = "CITIZEN"

abbrev pub consumer_type_arms : List (String × ConsumerType)
consumer_type_arms =
    ("ORGANIZATION", ConsumerType.organization) ∷ ("CITIZEN", ConsumerType.citizen) ∷ []

unfoldable pub consumer_type_from_database_value : String → Option ConsumerType
consumer_type_from_database_value s = match_arms s consumer_type_arms

consumer_type_from_database_value-consumer_type_as_database_value :
    (v : ConsumerType)
    → consumer_type_from_database_value (consumer_type_as_database_value v) ≡ some v
unfolding consumer_type_from_database_value consumer_type_as_database_value
consumer_type_from_database_value-consumer_type_as_database_value ConsumerType.organization = refl
consumer_type_from_database_value-consumer_type_as_database_value ConsumerType.citizen = refl

pub consumer_type-IsExact :
    IsExact consumer_type_as_database_value consumer_type_from_database_value
unfolding consumer_type_from_database_value consumer_type_as_database_value
consumer_type-IsExact =
    match_arms-IsExact consumer_type_as_database_value consumer_type_from_database_value
      consumer_type_arms (λ s. refl) (refl, (refl, tt))
      consumer_type_from_database_value-consumer_type_as_database_value
