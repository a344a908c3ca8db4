-- ===== src/Domain/Attachment.antt =====
-- crates/domain/src/attachment.rs: the metadata of a report's evidence.
mod Vocabulary
pub mod Limits
unfoldable pub use Vocabulary.*
use safe_cameroon.Common.{
  ℕ, ◌*◌, String, Bool, true, false, Result, ok, err, is_blank, trim, nat_eq, ltb, if◌then◌else◌,
}
use safe_cameroon.Domain.Ids.{ReportId, AttachmentId}

abbrev pub max_attachment_size_bytes : ℕ
max_attachment_size_bytes = 25 * 1024 * 1024

pub data AttachmentError : Type 0 where
  empty_object_key : AttachmentError
  empty_checksum : AttachmentError
  zero_size : AttachmentError
  size_exceeds_limit : ℕ → AttachmentError

pub record Attachment : Type 0 where
  pub id : AttachmentId
  pub report_id : ReportId
  pub storage_provider : StorageProvider
  pub object_key : String
  pub content_type : AttachmentContentType
  pub size_bytes : ℕ  -- u64
  pub checksum : String

unfoldable pub attachment_new :
    AttachmentId
    → ReportId
    → StorageProvider
    → String
    → AttachmentContentType
    → ℕ
    → String
    → Result Attachment AttachmentError
attachment_new id report_id storage_provider object_key content_type size_bytes checksum =
    if is_blank (trim object_key)
    then err empty_object_key
    else if is_blank (trim checksum)
    then err empty_checksum
    else if nat_eq size_bytes 0
    then err zero_size
    else if ltb max_attachment_size_bytes size_bytes
    then err (size_exceeds_limit max_attachment_size_bytes)
    else ok (record {
      id = id;
      report_id = report_id;
      storage_provider = storage_provider;
      object_key = object_key;
      content_type = content_type;
      size_bytes = size_bytes;
      checksum = checksum;
    })

unfoldable pub attachment_reconstitute :
    AttachmentId
    → ReportId
    → StorageProvider
    → String
    → AttachmentContentType
    → ℕ
    → String
    → Attachment
attachment_reconstitute id report_id storage_provider object_key content_type size_bytes checksum =
    record {
      id = id;
      report_id = report_id;
      storage_provider = storage_provider;
      object_key = object_key;
      content_type = content_type;
      size_bytes = size_bytes;
      checksum = checksum;
    }
