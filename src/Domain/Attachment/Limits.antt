-- ===== src/Domain/Attachment/Limits.antt =====
-- Proofs about `Attachment::new` of crates/domain/src/attachment.rs.
use safe_cameroon.Common.{ℕ, ◌≡◌, ◌↔◌, ◌<◌, ◌≤◌, String, true, false, is_blank, is_ok, trim, arith}
use safe_cameroon.Domain.Ids.{AttachmentId, ReportId}
use safe_cameroon.Domain.Attachment.{AttachmentContentType, StorageProvider, attachment_new}

-- An attachment is accepted exactly when its object key and its checksum are not blank and it holds
-- at least one byte and at most 25 MiB.
pub attachment_new-ok_iff :
    (id : AttachmentId) (report_id : ReportId) (provider : StorageProvider) (object_key : String)
    (content_type : AttachmentContentType) (size_bytes : ℕ) (checksum : String)
    → (is_ok (attachment_new id report_id provider object_key content_type size_bytes checksum)
        ≡ true)
      ↔ ((is_blank (trim object_key) ≡ false)
          × (is_blank (trim checksum) ≡ false)
          × (0 < size_bytes)
          × (size_bytes ≤ 26214400))
unfolding attachment_new
attachment_new-ok_iff id report_id provider object_key content_type size_bytes checksum =
    ground arith
