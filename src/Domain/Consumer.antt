-- ===== src/Domain/Consumer.antt =====
-- crates/domain/src/consumer.rs: the recipients of alerts.
mod Vocabulary
unfoldable pub use Vocabulary.*
use safe_cameroon.Common.{
  String, Bool, true, false, Option, none, some, Result, ok, err, is_blank, trim, if◌then◌else◌,
}
use safe_cameroon.Domain.Ids.{ConsumerId}

pub data EmptyConsumerName : Type 0 where
  empty_consumer_name : EmptyConsumerName

pub record Consumer : Type 0 where
  pub id : ConsumerId
  pub name : String
  pub consumer_type : ConsumerType
  pub locale : Option String

unfoldable pub consumer_new : ConsumerId → String → ConsumerType → Result Consumer EmptyConsumerName
consumer_new id name consumer_type =
    let trimmed = trim name in
    if is_blank trimmed
    then err empty_consumer_name
    else ok (record { id = id; name = trimmed; consumer_type = consumer_type; locale = none })

-- `map` to the trimmed text and `filter` of the blank ones.
abbrev pub non_blank : Option String → Option String
non_blank none = none
non_blank (some value) = let trimmed = trim value in if is_blank trimmed then none else some trimmed

unfoldable pub with_locale : Consumer → Option String → Consumer
with_locale c locale = record c { locale = non_blank locale }

unfoldable pub consumer_reconstitute : ConsumerId → String → ConsumerType → Option String → Consumer
consumer_reconstitute id name consumer_type locale = record {
  id = id;
  name = name;
  consumer_type = consumer_type;
  locale = locale;
}
