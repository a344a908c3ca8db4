-- ===== src/Domain/Delivery/Vocabulary.antt =====
-- crates/domain/src/delivery.rs: the closed vocabularies of deliveries. A value is written to the database by
-- `as_database_value` and read back by `from_database_value`.
use safe_cameroon.Common.{
  Eq, eq_of, String, List, [], ◌∷◌, Option, some, ◌≡◌, refl, match_arms, IsExact,
  match_arms-IsExact,
}

pub data ChannelType : Type 0 where
  whats_app sms email push : ChannelType

unfoldable pub ChannelType-discrete : Discrete ChannelType
ChannelType-discrete = hlevel

instance abbrev pub ChannelType_eq : Eq ChannelType
ChannelType_eq = eq_of ChannelType-discrete

unfoldable pub channel_type_as_database_value : ChannelType → String
channel_type_as_database_value ChannelType.whats_app = "WHATSAPP"
channel_type_as_database_value ChannelType.sms = "SMS"
channel_type_as_database_value ChannelType.email = "EMAIL"
channel_type_as_database_value ChannelType.push = "PUSH"

abbrev pub channel_type_arms : List (String × ChannelType)
channel_type_arms =
    ("WHATSAPP", ChannelType.whats_app)
    ∷ ("SMS", ChannelType.sms)
    ∷ ("EMAIL", ChannelType.email)
    ∷ ("PUSH", ChannelType.push)
    ∷ []

unfoldable pub channel_type_from_database_value : String → Option ChannelType
channel_type_from_database_value s = match_arms s channel_type_arms

channel_type_from_database_value-channel_type_as_database_value :
    (v : ChannelType) → channel_type_from_database_value (channel_type_as_database_value v) ≡ some v
unfolding channel_type_from_database_value channel_type_as_database_value
channel_type_from_database_value-channel_type_as_database_value ChannelType.whats_app = refl
channel_type_from_database_value-channel_type_as_database_value ChannelType.sms = refl
channel_type_from_database_value-channel_type_as_database_value ChannelType.email = refl
channel_type_from_database_value-channel_type_as_database_value ChannelType.push = refl

pub channel_type-IsExact : IsExact channel_type_as_database_value channel_type_from_database_value
unfolding channel_type_from_database_value channel_type_as_database_value
channel_type-IsExact =
    match_arms-IsExact channel_type_as_database_value channel_type_from_database_value
      channel_type_arms (λ s. refl) (refl, (refl, (refl, (refl, tt))))
      channel_type_from_database_value-channel_type_as_database_value

pub data DeliveryStrategy : Type 0 where
  all primary_fallback priority_list : DeliveryStrategy

unfoldable pub DeliveryStrategy-discrete : Discrete DeliveryStrategy
DeliveryStrategy-discrete = hlevel

instance abbrev pub DeliveryStrategy_eq : Eq DeliveryStrategy
DeliveryStrategy_eq = eq_of DeliveryStrategy-discrete

unfoldable pub delivery_strategy_as_database_value : DeliveryStrategy → String
delivery_strategy_as_database_value DeliveryStrategy.all = "ALL"
delivery_strategy_as_database_value DeliveryStrategy.primary_fallback = "PRIMARY_FALLBACK"
delivery_strategy_as_database_value DeliveryStrategy.priority_list = "PRIORITY_LIST"

abbrev pub delivery_strategy_arms : List (String × DeliveryStrategy)
delivery_strategy_arms =
    ("ALL", DeliveryStrategy.all)
    ∷ ("PRIMARY_FALLBACK", DeliveryStrategy.primary_fallback)
    ∷ ("PRIORITY_LIST", DeliveryStrategy.priority_list)
    ∷ []

unfoldable pub delivery_strategy_from_database_value : String → Option DeliveryStrategy
delivery_strategy_from_database_value s = match_arms s delivery_strategy_arms

delivery_strategy_from_database_value-delivery_strategy_as_database_value :
    (v : DeliveryStrategy)
    → delivery_strategy_from_database_value (delivery_strategy_as_database_value v) ≡ some v
unfolding delivery_strategy_from_database_value delivery_strategy_as_database_value
delivery_strategy_from_database_value-delivery_strategy_as_database_value DeliveryStrategy.all =
    refl
delivery_strategy_from_database_value-delivery_strategy_as_database_value
      DeliveryStrategy.primary_fallback =
    refl
delivery_strategy_from_database_value-delivery_strategy_as_database_value
      DeliveryStrategy.priority_list =
    refl

pub delivery_strategy-IsExact :
    IsExact delivery_strategy_as_database_value delivery_strategy_from_database_value
unfolding delivery_strategy_from_database_value delivery_strategy_as_database_value
delivery_strategy-IsExact =
    match_arms-IsExact delivery_strategy_as_database_value delivery_strategy_from_database_value
      delivery_strategy_arms (λ s. refl) (refl, (refl, (refl, tt)))
      delivery_strategy_from_database_value-delivery_strategy_as_database_value

pub data DeliveryStatus : Type 0 where
  queued sending sent delivered retrying failed_permanently : DeliveryStatus

unfoldable pub DeliveryStatus-discrete : Discrete DeliveryStatus
DeliveryStatus-discrete = hlevel

instance abbrev pub DeliveryStatus_eq : Eq DeliveryStatus
DeliveryStatus_eq = eq_of DeliveryStatus-discrete

unfoldable pub delivery_status_as_database_value : DeliveryStatus → String
delivery_status_as_database_value DeliveryStatus.queued = "QUEUED"
delivery_status_as_database_value DeliveryStatus.sending = "SENDING"
delivery_status_as_database_value DeliveryStatus.sent = "SENT"
delivery_status_as_database_value DeliveryStatus.delivered = "DELIVERED"
delivery_status_as_database_value DeliveryStatus.retrying = "RETRYING"
delivery_status_as_database_value DeliveryStatus.failed_permanently = "FAILED_PERMANENTLY"

abbrev pub delivery_status_arms : List (String × DeliveryStatus)
delivery_status_arms =
    ("QUEUED", DeliveryStatus.queued)
    ∷ ("SENDING", DeliveryStatus.sending)
    ∷ ("SENT", DeliveryStatus.sent)
    ∷ ("DELIVERED", DeliveryStatus.delivered)
    ∷ ("RETRYING", DeliveryStatus.retrying)
    ∷ ("FAILED_PERMANENTLY", DeliveryStatus.failed_permanently)
    ∷ []

unfoldable pub delivery_status_from_database_value : String → Option DeliveryStatus
delivery_status_from_database_value s = match_arms s delivery_status_arms

delivery_status_from_database_value-delivery_status_as_database_value :
    (v : DeliveryStatus)
    → delivery_status_from_database_value (delivery_status_as_database_value v) ≡ some v
unfolding delivery_status_from_database_value delivery_status_as_database_value
delivery_status_from_database_value-delivery_status_as_database_value DeliveryStatus.queued = refl
delivery_status_from_database_value-delivery_status_as_database_value DeliveryStatus.sending = refl
delivery_status_from_database_value-delivery_status_as_database_value DeliveryStatus.sent = refl
delivery_status_from_database_value-delivery_status_as_database_value DeliveryStatus.delivered =
    refl
delivery_status_from_database_value-delivery_status_as_database_value DeliveryStatus.retrying = refl
delivery_status_from_database_value-delivery_status_as_database_value
      DeliveryStatus.failed_permanently =
    refl

pub delivery_status-IsExact :
    IsExact delivery_status_as_database_value delivery_status_from_database_value
unfolding delivery_status_from_database_value delivery_status_as_database_value
delivery_status-IsExact =
    match_arms-IsExact delivery_status_as_database_value delivery_status_from_database_value
      delivery_status_arms (λ s. refl) (refl, (refl, (refl, (refl, (refl, (refl, tt))))))
      delivery_status_from_database_value-delivery_status_as_database_value

pub data DeliveryEventType : Type 0 where
  delivery_requested delivery_started delivery_sent delivery_delivered delivery_failed
        delivery_retried :
      DeliveryEventType

unfoldable pub DeliveryEventType-discrete : Discrete DeliveryEventType
DeliveryEventType-discrete = hlevel

instance abbrev pub DeliveryEventType_eq : Eq DeliveryEventType
DeliveryEventType_eq = eq_of DeliveryEventType-discrete

unfoldable pub delivery_event_type_as_database_value : DeliveryEventType → String
delivery_event_type_as_database_value DeliveryEventType.delivery_requested = "DELIVERY_REQUESTED"
delivery_event_type_as_database_value DeliveryEventType.delivery_started = "DELIVERY_STARTED"
delivery_event_type_as_database_value DeliveryEventType.delivery_sent = "DELIVERY_SENT"
delivery_event_type_as_database_value DeliveryEventType.delivery_delivered = "DELIVERY_DELIVERED"
delivery_event_type_as_database_value DeliveryEventType.delivery_failed = "DELIVERY_FAILED"
delivery_event_type_as_database_value DeliveryEventType.delivery_retried = "DELIVERY_RETRIED"
