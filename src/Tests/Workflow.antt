-- ===== src/Tests/Workflow.antt =====
-- Authorization, messages and intake: crates/application/src.
use safe_cameroon.Common.{
  ◌<◌, ◌≡◌, ◌++◌, ◌≤◌, ◌↔◌, refl, true, false, [], ◌∷◌, Option, some, none, ok, is_ok, is_blank,
  trim, arith,
}
use safe_cameroon.Domain.Ids.{OrganizationId}
use safe_cameroon.Domain.Case.{IncidentType}
use safe_cameroon.Domain.Alert.{
  Alert, AlertField, AlertVisibility, field_value, AlertField-discrete,
}
use safe_cameroon.Domain.Organization.{Membership, Organization, Role, Role-discrete}
use safe_cameroon.Domain.Attachment.{AttachmentContentType, StorageProvider, attachment_new}
use safe_cameroon.Domain.Attachment.Limits.{attachment_new-ok_iff}
use safe_cameroon.Domain.Report.{ReportSourceChannel}
use safe_cameroon.Workflow.Authorization.{
  authorize_alert_cancellation, authorize_alert_issuance, authorize_case_verification,
  authorize_consumer_management, authorize_membership_grant,
}
use safe_cameroon.Workflow.Authorization.Grants.{
  Covers, authorize_membership_grant-ok_iff, exceeds, grant_below, organization_of,
}
use safe_cameroon.Workflow.Message.{build_outbound_message}
use safe_cameroon.Workflow.Message.Exposure.{build_outbound_message-same, is_shown}
use safe_cameroon.Workflow.Intake.{
  AnonymousReportSubmission, char_count, prepare_anonymous_report, prepare_anonymous_report-ok_iff,
}
use safe_cameroon.Tests.Samples.{
  administrator, colleague, community_alert, no_digest, planned_delivery, same_text,
}

abbrev police : Organization
police = record {
  id = 5;
  name = "Police";
  description = none;
  location = none;
  contact = none;
  verified_incident_types = IncidentType.missing_child ∷ [];
  verified_alert_visibilities = AlertVisibility.community ∷ [];
  consumer_id = none;
  is_active = true;
}

abbrev find : OrganizationId → Option Organization
find id = some police

authorize_membership_grant-ok_iff_example :
    (authorize_membership_grant (some administrator) 1 Role.member (some 5) ≡ ok tt)
    ↔ ((g : Membership) × (some administrator ≡ some g) × Covers g colleague)
authorize_membership_grant-ok_iff_example =
    authorize_membership_grant-ok_iff (some administrator) colleague 1 (omega arith)

grant_below_example :
    (exceeds
        (authorize_case_verification colleague
          (organization_of find colleague)
          IncidentType.missing_child)
        (authorize_case_verification administrator
          (organization_of find administrator)
          IncidentType.missing_child)
      ≡ false)
    × (exceeds
          (authorize_alert_issuance colleague
            (organization_of find colleague)
            AlertVisibility.community)
          (authorize_alert_issuance administrator
            (organization_of find administrator)
            AlertVisibility.community)
        ≡ false)
    × (exceeds
          (authorize_consumer_management colleague (some 5))
          (authorize_consumer_management administrator (some 5))
        ≡ false)
    × (exceeds
          (authorize_alert_cancellation colleague (some 6))
          (authorize_alert_cancellation administrator (some 6))
        ≡ false)
unfolding authorize_membership_grant Role-discrete
grant_below_example =
    grant_below find administrator colleague 1 IncidentType.missing_child AlertVisibility.community
      (some 5) (some 6) (omega arith) refl

-- The alert with a note that nobody outside may see.
abbrev noted_alert : Alert
noted_alert = record community_alert {
  fields =
      community_alert.fields ++ (record { field = AlertField.internal_notes; value = "note" } ∷ []);
}

same_shown :
    (f : AlertField) → is_shown f ≡ true → field_value noted_alert f ≡ field_value community_alert f
unfolding field_value AlertField-discrete
same_shown f h = ground arith

build_outbound_message-same_example :
    build_outbound_message same_text noted_alert planned_delivery (some "fr")
    ≡ build_outbound_message same_text community_alert planned_delivery (some "fr")
build_outbound_message-same_example =
    build_outbound_message-same same_text noted_alert community_alert planned_delivery (some "fr")
      refl refl same_shown

prepare_anonymous_report-ok_iff_example :
    (is_ok (prepare_anonymous_report no_digest "t" 1 2 3 " seen at the market " 4 none none) ≡ true)
    ↔ ((is_blank (trim " seen at the market ") ≡ false)
        × (char_count (trim " seen at the market ") ≤ 10000))
prepare_anonymous_report-ok_iff_example =
    prepare_anonymous_report-ok_iff no_digest "t" 1 2 3 " seen at the market " 4 none none

abbrev taken : AnonymousReportSubmission
taken = record {
  report = record {
    id = 1;
    source_channel = ReportSourceChannel.web;
    raw_content = "seen";
    reported_incident_type = none;
  };
  reference_code = "SC-t";
  reference_code_hash = [];
  idempotency_key_hash = none;
  audit_event_id = 2;
  outbox_event_id = 3;
  request_id = 4;
}

attachment_new-ok_iff_example :
    (is_ok (attachment_new 1 2 StorageProvider.r2 "k" AttachmentContentType.image_png 26214400 "c")
      ≡ true)
    ↔ ((is_blank (trim "k") ≡ false)
        × (is_blank (trim "c") ≡ false)
        × (0 < 26214400)
        × (26214400 ≤ 26214400))
attachment_new-ok_iff_example =
    attachment_new-ok_iff 1 2 StorageProvider.r2 "k" AttachmentContentType.image_png 26214400 "c"
