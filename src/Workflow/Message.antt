-- ===== src/Workflow/Message.antt =====
-- crates/application/src/channel.rs: the message that a channel sends for a delivery. Unicode's
-- lower-casing is the parameter `lower`.
pub mod Exposure
use Prim.Native.String.{◌++◌}
use safe_cameroon.Common.{
  String, Bool, true, false, List, [], ◌∷◌, Option, none, some, format, is_blank, trim,
  if◌then◌else◌,
}
use safe_cameroon.Domain.Alert.{Alert, AlertField, Severity, field_value, description_for_locale}
use safe_cameroon.Domain.Delivery.{Delivery}

pub record OutboundMessage : Type 0 where
  pub endpoint_address : String
  pub body : String

unfoldable pub severity_label : Severity → String
severity_label Severity.low = "Low"
severity_label Severity.medium = "Medium"
severity_label Severity.high = "High"
severity_label Severity.critical = "Critical"

-- What each `push_str` appends.
abbrev description_part : Option String → String
description_part none = ""
description_part (some description) =
    if is_blank (trim description) then "" else "\n\n" ++ description

abbrev contact_part : Option String → String
contact_part none = ""
contact_part (some contact) = format ("\n\nContact: " ∷ contact ∷ [])

abbrev reference_part : Option String → String
reference_part none = ""
reference_part (some reference) = format ("\nRef: " ∷ reference ∷ [])

unfoldable pub build_outbound_message :
    (String → String) → Alert → Delivery → Option String → OutboundMessage
unfolding severity_label description_for_locale field_value
build_outbound_message lower alert delivery recipient_locale =
    let body =
      format ("[" ∷ severity_label alert.severity ∷ "] " ∷ alert.target_geography.as_str ∷ []) in
    let body = body ++ description_part (description_for_locale lower alert recipient_locale) in
    let body = body ++ contact_part (field_value alert AlertField.official_contact) in
    let body = body ++ reference_part (field_value alert AlertField.case_reference) in
    record { endpoint_address = delivery.endpoint_address; body = body }
