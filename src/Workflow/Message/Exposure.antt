-- ===== src/Workflow/Message/Exposure.antt =====
-- Proofs about `build_outbound_message` of crates/application/src/channel.rs.
use safe_cameroon.Common.{◌≡◌, refl, String, Bool, true, false, Option}
use safe_cameroon.Domain.Alert.{Alert, AlertField, field_value, description_for_locale}
use safe_cameroon.Domain.Delivery.{Delivery}
use safe_cameroon.Workflow.Message.{build_outbound_message}

-- The fields that a message may show.
abbrev pub is_shown : AlertField → Bool
is_shown AlertField.safe_description = true
is_shown AlertField.safe_description_en = true
is_shown AlertField.safe_description_fr = true
is_shown AlertField.official_contact = true
is_shown AlertField.case_reference = true
is_shown _ = false

same_description :
    (lower : String → String) (a b : Alert) (locale : Option String)
    → ((f : AlertField) → is_shown f ≡ true → field_value a f ≡ field_value b f)
    → description_for_locale lower a locale ≡ description_for_locale lower b locale
unfolding description_for_locale
same_description lower a b locale same = rw (
  same AlertField.safe_description refl,
  same AlertField.safe_description_en refl,
  same AlertField.safe_description_fr refl,
)

-- Two alerts that differ neither in their severity and area nor in their descriptions, contact and
-- case reference give the same message: no other field, an internal note or the exact place say, can
-- show in what is sent.
pub build_outbound_message-same :
    (lower : String → String) (a b : Alert) (delivery : Delivery) (locale : Option String)
    → a.severity ≡ b.severity
    → a.target_geography ≡ b.target_geography
    → ((f : AlertField) → is_shown f ≡ true → field_value a f ≡ field_value b f)
    → build_outbound_message lower a delivery locale
      ≡ build_outbound_message lower b delivery locale
unfolding build_outbound_message
build_outbound_message-same lower a b delivery locale severity area same = rw (
  severity,
  area,
  same_description lower a b locale same,
  same AlertField.official_contact refl,
  same AlertField.case_reference refl,
)
