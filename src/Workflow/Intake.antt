-- ===== src/Workflow/Intake.antt =====
-- crates/application/src/lib.rs: taking an anonymous report. `sha256` stands for the digest of the
-- `sha2` crate and `token` for the text of a fresh UUID.
use safe_cameroon.Common.{
  ℕ, ◌+◌, ◌≤◌, ◌≡◌, ◌↔◌, ◌∙◌, refl, ap, String, true, false, List, [], ◌∷◌, Option, none, some,
  Result, ok, err, format, is_blank, is_ok, trim, trim_idem, ltb, if◌then◌else◌, arith,
}
use safe_cameroon.Domain.Ids.{Uuid, ReportId, AuditEventId, OutboxEventId}
use safe_cameroon.Domain.Case.{IncidentType}
use safe_cameroon.Domain.Report.{AnonymousReport, ReportSourceChannel}

abbrev pub max_report_content_chars : ℕ
max_report_content_chars = 10000

-- `chars().count()`.
abbrev pub char_count : String → ℕ
char_count String.[] = 0
char_count (String.◌∷◌ c s) = 1 + char_count s

pub record AnonymousReportSubmission : Type 0 where
  pub report : AnonymousReport
  pub reference_code : String
  pub reference_code_hash : List ℕ
  pub idempotency_key_hash : Option (List ℕ)
  pub audit_event_id : AuditEventId
  pub outbox_event_id : OutboxEventId
  pub request_id : Uuid

pub data ReportValidationError : Type 0 where
  empty_content : ReportValidationError
  content_too_long : ReportValidationError

abbrev digest_of : (String → List ℕ) → Option String → Option (List ℕ)
digest_of sha256 none = none
digest_of sha256 (some key) = some (sha256 key)

unfoldable pub prepare_anonymous_report :
    (String → List ℕ)
    → String
    → ReportId
    → AuditEventId
    → OutboxEventId
    → String
    → Uuid
    → Option String
    → Option IncidentType
    → Result AnonymousReportSubmission ReportValidationError
prepare_anonymous_report sha256 token id audit outbox raw_content request_id idempotency_key
      reported_incident_type =
    let normalized_content = trim raw_content in
    if is_blank normalized_content
    then err empty_content
    else if ltb max_report_content_chars (char_count normalized_content)
    then err content_too_long
    else let reference_code = format ("SC-" ∷ token ∷ []) in
      ok (record {
        report = record {
          id = id;
          source_channel = ReportSourceChannel.web;
          raw_content = normalized_content;
          reported_incident_type = reported_incident_type;
        };
        reference_code = reference_code;
        reference_code_hash = sha256 reference_code;
        idempotency_key_hash = digest_of sha256 idempotency_key;
        audit_event_id = audit;
        outbox_event_id = outbox;
        request_id = request_id;
      })

prepare-same_text :
    (sha256 : String → List ℕ) (token : String) (id : ReportId) (audit : AuditEventId)
    (outbox : OutboxEventId) (s t : String) (request_id : Uuid) (key : Option String)
    (reported : Option IncidentType)
    → trim s ≡ trim t
    → prepare_anonymous_report sha256 token id audit outbox s request_id key reported
      ≡ prepare_anonymous_report sha256 token id audit outbox t request_id key reported
unfolding prepare_anonymous_report
prepare-same_text sha256 token id audit outbox s t request_id key reported same = rw same refl

module _ (sha256 : String → List ℕ) (token : String) (id : ReportId) (audit : AuditEventId)
    (outbox : OutboxEventId) (raw : String) (request_id : Uuid) (key : Option String)
    (reported : Option IncidentType) where
  -- A report is taken exactly when its trimmed text is neither empty nor longer than 10000
  -- characters.
  pub prepare_anonymous_report-ok_iff :
      (is_ok (prepare_anonymous_report sha256 token id audit outbox raw request_id key reported)
        ≡ true)
      ↔ ((is_blank (trim raw) ≡ false) × (char_count (trim raw) ≤ 10000))
  unfolding prepare_anonymous_report
  prepare_anonymous_report-ok_iff = ground arith

  -- What is kept of a report that is taken is its trimmed text, and taking the kept text again would
  -- keep it unchanged.
  pub prepare_anonymous_report_idem :
      (made : AnonymousReportSubmission)
      → prepare_anonymous_report sha256 token id audit outbox raw request_id key reported ≡ ok made
      → (made.report.raw_content ≡ trim raw)
        × (prepare_anonymous_report sha256 token id audit outbox made.report.raw_content request_id
              key reported
            ≡ ok made)
  unfolding prepare_anonymous_report
  prepare_anonymous_report_idem made h =
      let kept : made.report.raw_content ≡ trim raw = ground arith in
      (
        kept,
        prepare-same_text sha256 token id audit outbox _ raw request_id key reported
              (ap trim kept ∙ trim_idem raw)
            ∙ h,
      )
