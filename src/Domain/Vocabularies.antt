-- ===== src/Domain/Vocabularies.antt =====
-- Proofs about `as_database_value` and `from_database_value` in crates/domain/src.
use safe_cameroon.Common.{IsExact}
use safe_cameroon.Domain.Case.{
  incident_type_as_database_value, incident_type_from_database_value, incident_type-IsExact,
  case_status_as_database_value, case_status_from_database_value, case_status-IsExact,
  case_event_type_as_database_value, case_event_type_from_database_value, case_event_type-IsExact,
}
use safe_cameroon.Domain.Alert.{
  alert_visibility_as_database_value, alert_visibility_from_database_value,
  alert_visibility-IsExact, alert_field_as_database_value, alert_field_from_database_value,
  alert_field-IsExact, severity_as_database_value, severity_from_database_value, severity-IsExact,
  alert_status_as_database_value, alert_status_from_database_value, alert_status-IsExact,
}
use safe_cameroon.Domain.Delivery.{
  channel_type_as_database_value, channel_type_from_database_value, channel_type-IsExact,
  delivery_strategy_as_database_value, delivery_strategy_from_database_value,
  delivery_strategy-IsExact, delivery_status_as_database_value, delivery_status_from_database_value,
  delivery_status-IsExact,
}
use safe_cameroon.Domain.Subscription.{
  comparison_as_database_value, comparison_from_database_value, comparison-IsExact,
}
use safe_cameroon.Domain.Organization.{
  role_as_database_value, role_from_database_value, role-IsExact,
}
use safe_cameroon.Domain.Consumer.{
  consumer_type_as_database_value, consumer_type_from_database_value, consumer_type-IsExact,
}
use safe_cameroon.Domain.Report.{
  report_source_channel_as_database_value, report_source_channel_from_database_value,
  report_source_channel-IsExact, report_status_as_database_value, report_status_from_database_value,
  report_status-IsExact,
}
use safe_cameroon.Domain.Attachment.{
  storage_provider_as_database_value, storage_provider_from_database_value,
  storage_provider-IsExact, attachment_content_type_as_database_value,
  attachment_content_type_from_database_value, attachment_content_type-IsExact,
  attachment_content_type_as_mime_type, attachment_content_type_from_mime_type,
  attachment_content_type_mime-IsExact,
}

-- Each vocabulary is stored exactly: a text is read as a value if it is the text that the value is
-- written as, and only then, so writing and reading back gives the value again, no two values share
-- a text, and any other text is refused.
pub database_values-IsExact :
    IsExact incident_type_as_database_value incident_type_from_database_value
    × IsExact case_status_as_database_value case_status_from_database_value
    × IsExact case_event_type_as_database_value case_event_type_from_database_value
    × IsExact alert_visibility_as_database_value alert_visibility_from_database_value
    × IsExact alert_field_as_database_value alert_field_from_database_value
    × IsExact severity_as_database_value severity_from_database_value
    × IsExact alert_status_as_database_value alert_status_from_database_value
    × IsExact channel_type_as_database_value channel_type_from_database_value
    × IsExact delivery_strategy_as_database_value delivery_strategy_from_database_value
    × IsExact delivery_status_as_database_value delivery_status_from_database_value
    × IsExact comparison_as_database_value comparison_from_database_value
    × IsExact role_as_database_value role_from_database_value
    × IsExact consumer_type_as_database_value consumer_type_from_database_value
    × IsExact report_source_channel_as_database_value report_source_channel_from_database_value
    × IsExact report_status_as_database_value report_status_from_database_value
    × IsExact storage_provider_as_database_value storage_provider_from_database_value
    × IsExact attachment_content_type_as_database_value attachment_content_type_from_database_value
    × IsExact attachment_content_type_as_mime_type attachment_content_type_from_mime_type
database_values-IsExact = (
  incident_type-IsExact, case_status-IsExact, case_event_type-IsExact, alert_visibility-IsExact,
  alert_field-IsExact, severity-IsExact, alert_status-IsExact, channel_type-IsExact,
  delivery_strategy-IsExact, delivery_status-IsExact, comparison-IsExact, role-IsExact,
  consumer_type-IsExact, report_source_channel-IsExact, report_status-IsExact,
  storage_provider-IsExact, attachment_content_type-IsExact, attachment_content_type_mime-IsExact,
)
