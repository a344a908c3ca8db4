-- ===== src/Domain/Report/Vocabulary.antt =====
-- crates/domain/src/report.rs: the closed vocabularies of a report. A value is written to the database by
-- `as_database_value` and read back by `from_database_value`.
use safe_cameroon.Common.{
  Eq, eq_of, String, List, [], ◌∷◌, Option, some, ◌≡◌, refl, match_arms, IsExact,
  match_arms-IsExact,
}

pub data ReportSourceChannel : Type 0 where
  web sms whatsapp phone partner_api : ReportSourceChannel

unfoldable pub ReportSourceChannel-discrete : Discrete ReportSourceChannel
ReportSourceChannel-discrete = hlevel

instance abbrev pub ReportSourceChannel_eq : Eq ReportSourceChannel
ReportSourceChannel_eq = eq_of ReportSourceChannel-discrete

unfoldable pub report_source_channel_as_database_value : ReportSourceChannel → String
report_source_channel_as_database_value ReportSourceChannel.web = "WEB"
report_source_channel_as_database_value ReportSourceChannel.sms = "SMS"
report_source_channel_as_database_value ReportSourceChannel.whatsapp = "WHATSAPP"
report_source_channel_as_database_value ReportSourceChannel.phone = "PHONE"
report_source_channel_as_database_value ReportSourceChannel.partner_api = "PARTNER_API"

abbrev pub report_source_channel_arms : List (String × ReportSourceChannel)
report_source_channel_arms =
    ("WEB", ReportSourceChannel.web)
    ∷ ("SMS", ReportSourceChannel.sms)
    ∷ ("WHATSAPP", ReportSourceChannel.whatsapp)
    ∷ ("PHONE", ReportSourceChannel.phone)
    ∷ ("PARTNER_API", ReportSourceChannel.partner_api)
    ∷ []

unfoldable pub report_source_channel_from_database_value : String → Option ReportSourceChannel
report_source_channel_from_database_value s = match_arms s report_source_channel_arms

report_source_channel_from_database_value-report_source_channel_as_database_value :
    (v : ReportSourceChannel)
    → report_source_channel_from_database_value (report_source_channel_as_database_value v) ≡ some v
unfolding report_source_channel_from_database_value report_source_channel_as_database_value
report_source_channel_from_database_value-report_source_channel_as_database_value
      ReportSourceChannel.web =
    refl
report_source_channel_from_database_value-report_source_channel_as_database_value
      ReportSourceChannel.sms =
    refl
report_source_channel_from_database_value-report_source_channel_as_database_value
      ReportSourceChannel.whatsapp =
    refl
report_source_channel_from_database_value-report_source_channel_as_database_value
      ReportSourceChannel.phone =
    refl
report_source_channel_from_database_value-report_source_channel_as_database_value
      ReportSourceChannel.partner_api =
    refl

pub report_source_channel-IsExact :
    IsExact report_source_channel_as_database_value report_source_channel_from_database_value
unfolding report_source_channel_from_database_value report_source_channel_as_database_value
report_source_channel-IsExact =
    match_arms-IsExact report_source_channel_as_database_value
      report_source_channel_from_database_value report_source_channel_arms (λ s. refl)
      (refl, (refl, (refl, (refl, (refl, tt)))))
      report_source_channel_from_database_value-report_source_channel_as_database_value

pub data ReportStatus : Type 0 where
  received under_review linked_to_case closed : ReportStatus

unfoldable pub ReportStatus-discrete : Discrete ReportStatus
ReportStatus-discrete = hlevel

instance abbrev pub ReportStatus_eq : Eq ReportStatus
ReportStatus_eq = eq_of ReportStatus-discrete

unfoldable pub report_status_as_database_value : ReportStatus → String
report_status_as_database_value ReportStatus.received = "RECEIVED"
report_status_as_database_value ReportStatus.under_review = "UNDER_REVIEW"
report_status_as_database_value ReportStatus.linked_to_case = "LINKED_TO_CASE"
report_status_as_database_value ReportStatus.closed = "CLOSED"

abbrev pub report_status_arms : List (String × ReportStatus)
report_status_arms =
    ("RECEIVED", ReportStatus.received)
    ∷ ("UNDER_REVIEW", ReportStatus.under_review)
    ∷ ("LINKED_TO_CASE", ReportStatus.linked_to_case)
    ∷ ("CLOSED", ReportStatus.closed)
    ∷ []

unfoldable pub report_status_from_database_value : String → Option ReportStatus
report_status_from_database_value s = match_arms s report_status_arms

report_status_from_database_value-report_status_as_database_value :
    (v : ReportStatus)
    → report_status_from_database_value (report_status_as_database_value v) ≡ some v
unfolding report_status_from_database_value report_status_as_database_value
report_status_from_database_value-report_status_as_database_value ReportStatus.received = refl
report_status_from_database_value-report_status_as_database_value ReportStatus.under_review = refl
report_status_from_database_value-report_status_as_database_value ReportStatus.linked_to_case = refl
report_status_from_database_value-report_status_as_database_value ReportStatus.closed = refl

pub report_status-IsExact :
    IsExact report_status_as_database_value report_status_from_database_value
unfolding report_status_from_database_value report_status_as_database_value
report_status-IsExact =
    match_arms-IsExact report_status_as_database_value report_status_from_database_value
      report_status_arms (λ s. refl) (refl, (refl, (refl, (refl, tt))))
      report_status_from_database_value-report_status_as_database_value
